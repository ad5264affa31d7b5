-- ===== src/Api/Modes.antt =====
-- Send mode and receive mode of a `SocketAncillary` under the low-level calls.
use unix_ancillary.Base.{ℕ, ◌≡◌, refl, ap, ◌∙◌, ◌<◌, ◌^◌, List, [], ◌++◌, arith}
use unix_ancillary.Bytes.{Bytes}
use unix_ancillary.Target.{IsTarget, ErrorKind}
use unix_ancillary.System.{Host, World, Exit, ok, err, panic, out_of_fuel, MsgHdr, Sent, custom}
use unix_ancillary.System.Laws.{closed-drop_fds, sent-drop_fds}
use unix_ancillary.Ancillary.Raw.{RawMessage, ScmCredentials}
use unix_ancillary.Ancillary.Raw.Parse.{raw_messages}
use unix_ancillary.Base.Results.{Result}
use unix_ancillary.Ancillary.Buffer.{
  SocketAncillary, ancillary_error, reserve_cmsg, add_rights, add_credentials,
}
use unix_ancillary.Ancillary.Buffer.Refine.{Holds}
use unix_ancillary.Ancillary.Buffer.RoundTrip.{raw_messages-Holds}
use unix_ancillary.Ancillary.Take.Owned.{delivered, fds_of}
use unix_ancillary.Ancillary.Drain.{clear}
use unix_ancillary.Ancillary.Drain.Account.{drop_messages-drop_fds}
use unix_ancillary.Ext.Send.{Sends, sendmsg_vectored-Sends, passed_control-take}
use unix_ancillary.Cmsg.{RecvMsgResult}
use unix_ancillary.Cmsg.Fits.{ControlFits}
use unix_ancillary.Api.{Outcome, cmsg_sendmsg, cmsg_recvmsg}
use unix_ancillary.Api.Ownership.{Owns, recv_into_ancillary-Owns}

-- On a target whose constants obey IsTarget, for storage that holds the messages ms in fewer bytes
-- than msg_controllen can count, cmsg_sendmsg on success has made one accepted send of these iovecs
-- with control bytes from which the parser delivers exactly the descriptors of ms in order; on an
-- error or a panic it has sent nothing; it closes nothing. A run that exceeds the bound on retries
-- is not constrained.
pub cmsg_sendmsg-Sends :
    (h : Host) (fd : ℕ) (iov : List Bytes) (a : SocketAncillary) (ms : List RawMessage)
    (w : World h)
    → IsTarget h.target
    → Holds h.target a ms
    → a.filled < 2 ^ h.target.controllen_bits
    → Sends h fd iov (delivered h.target ms) w.closed w.sent (cmsg_sendmsg h fd iov a w)
unfolding cmsg_sendmsg
cmsg_sendmsg-Sends h fd iov a ms w v g short = rw g.sending (
    sendmsg_vectored-Sends h fd iov (delivered h.target ms) a.buffer a.filled w (
      ap (λ bs. delivered h.target (raw_messages h.target bs))
        (passed_control-take h.target a.buffer a.filled short)
      ∙ ap (delivered h.target) (raw_messages-Holds h.target a ms v g)))

-- After clear, storage is in send mode and holds no message, whatever it was used for, and exactly
-- the descriptors that it still owned have been closed, in order; nothing is sent.
pub clear-Holds :
    (h : Host) (a : SocketAncillary) (w : World h)
    → Holds h.target (clear h a w).0 []
      × ((clear h a w).1.closed ≡ w.closed ++ fds_of a.received)
      × ((clear h a w).1.sent ≡ w.sent)
unfolding clear
clear-Holds h a w = (
  record {
    sending = refl;
    nothing_received = refl;
    inside = omega arith;
    encoded = refl;
    encodable = tt;
  },
  ap (λ u. u.closed) (drop_messages-drop_fds h a.received w)
      ∙ closed-drop_fds h (fds_of a.received) w,
  ap (λ u. u.sent) (drop_messages-drop_fds h a.received w) ∙ sent-drop_fds h (fds_of a.received) w,
)

-- Storage whose bytes came from a receive: it is refused until it is cleared.
abbrev pub Locked : (h : Host) → Exit h Outcome → Type 0
Locked h (ok o u) =
    ((to : ℕ) (bufs : List Bytes) (x : World h)
      → cmsg_sendmsg h to bufs o.ancillary x ≡ err (custom ErrorKind.invalid_input) x)
    × ((raw_fds : List ℕ) → add_rights h.target o.ancillary raw_fds ≡ Result.err ancillary_error)
    × ((creds : ScmCredentials)
        → add_credentials h.target o.ancillary creds ≡ Result.err ancillary_error)
    × Holds h.target (clear h o.ancillary u).0 []
Locked h (err e u) = ⊥
Locked h (panic u) = ⊥
Locked h out_of_fuel = Unit {0}

Owns-Locked :
    (h : Host) (attempt : Exit h (RecvMsgResult × MsgHdr)) (closed : List ℕ) (sent : List Sent)
    (r : Exit h Outcome)
    → Owns h attempt closed sent r
    → Locked h r
unfolding cmsg_sendmsg add_rights add_credentials reserve_cmsg
Owns-Locked h attempt closed sent (ok o u) q = (
  λ to bufs x. rw q.0 refl,
  λ raw_fds. rw q.0 refl,
  λ creds. rw q.0 refl,
  (clear-Holds h o.ancillary u).0,
)
Owns-Locked h attempt closed sent (err e u) q = absurd q
Owns-Locked h attempt closed sent (panic u) q = absurd q
Owns-Locked h attempt closed sent out_of_fuel q = tt

-- On a target whose constants obey IsTarget, and with a kernel that reports no more control bytes
-- than the buffer holds, cmsg_recvmsg ends without a panic, and whether it reports a success or an
-- error, the bytes that it left in the storage cannot be sent or built on: cmsg_sendmsg of that
-- storage fails with InvalidInput and leaves the world as it was, and add_rights and
-- add_credentials fail, until clear makes it hold no message again. A run that exceeds the bound on
-- retries is not constrained.
pub cmsg_recvmsg-Locked :
    (h : Host) (fd : ℕ) (iov : List Bytes) (a : SocketAncillary) (w : World h)
    → IsTarget h.target
    → ControlFits h
    → Locked h (cmsg_recvmsg h fd iov a w)
unfolding cmsg_recvmsg
cmsg_recvmsg-Locked h fd iov a w v law =
    Owns-Locked h _ _ _ _ (recv_into_ancillary-Owns h fd iov a 0 w v law)
