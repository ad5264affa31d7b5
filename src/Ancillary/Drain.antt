-- ===== src/Ancillary/Drain.antt =====
-- Draining and dropping received messages: `messages`, `clear`, the iterators `Messages` and
-- `ScmRights` of src/ancillary.rs, and what their `Drop` closes.
pub mod Account
pub mod Ledger
pub mod Typed
use unix_ancillary.Base.{ℕ, false, List, [], ◌∷◌, Option, none, some}
use unix_ancillary.System.{Host, World, drop_fds}
use unix_ancillary.Ancillary.Raw.{ScmCredentials}
use unix_ancillary.Ancillary.Buffer.{SocketAncillary, ReceivedMessage, fds}

pub data AncillaryData : Type 0 where
  scm_rights : List ℕ → AncillaryData
  credentials : ScmCredentials → AncillaryData

-- `ScmRights::next`, with the descriptors that are left.
unfoldable pub rights_next : List ℕ → Option ℕ × List ℕ
rights_next [] = (none, [])
rights_next (fd ∷ rest) = (some fd, rest)

-- `Messages::next`, with the messages that are left.
unfoldable pub messages_next : List ReceivedMessage → Option AncillaryData × List ReceivedMessage
messages_next [] = (none, [])
messages_next (ReceivedMessage.rights owned ∷ rest) = (some (scm_rights owned), rest)
messages_next (ReceivedMessage.credentials creds ∷ rest) = (some (credentials creds), rest)

-- `SocketAncillary::messages`: the buffer is left without messages, however far they are drained.
unfoldable pub messages : SocketAncillary → List ReceivedMessage × SocketAncillary
messages a = (a.received, record a { received = [] })

module _ (h : Host) where
  -- Dropping a `Vec<ReceivedMessage>`, or the iterator `Messages`.
  unfoldable pub drop_messages : List ReceivedMessage → World h → World h
  drop_messages [] w = w
  drop_messages (m ∷ rest) w = drop_messages rest (drop_fds h (fds m) w)

  unfoldable pub clear : SocketAncillary → World h → SocketAncillary × World h
  unfolding drop_messages
  clear a w = (
    record a { received = []; filled = 0; truncated = false; receive_mode = false },
    drop_messages a.received w,
  )
