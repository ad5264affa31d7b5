-- ===== src/Ancillary/Drain/Account.antt =====
-- The descriptors that dropping received messages closes, for src/ancillary.rs.
use unix_ancillary.Base.{◌≡◌, refl, sym, ◌∙◌, List, [], ◌∷◌}
use unix_ancillary.System.{Host, World, drop_fds}
use unix_ancillary.System.Laws.{drop_fds-append}
use unix_ancillary.Ancillary.Buffer.{ReceivedMessage, fds}
use unix_ancillary.Ancillary.Take.Owned.{fds_of}
use unix_ancillary.Ancillary.Drain.{drop_messages}

-- Dropping messages closes their descriptors, message by message.
pub drop_messages-drop_fds :
    (h : Host) (ms : List ReceivedMessage) (w : World h)
    → drop_messages h ms w ≡ drop_fds h (fds_of ms) w
unfolding drop_messages drop_fds
drop_messages-drop_fds h [] w = refl
drop_messages-drop_fds h (m ∷ ms) w =
    drop_messages-drop_fds h ms (drop_fds h (fds m) w)
    ∙ sym (drop_fds-append h (fds m) (fds_of ms) w)
