-- ===== src/Multiprocess/Child.antt =====
-- The descriptors of the child of examples/multiprocess.rs.
use unix_ancillary.Base.{ℕ, ◌≡◌, refl, ap, sym, ◌∙◌, List, [], ◌∷◌, ◌++◌, flatten, append-nil}
use unix_ancillary.Bytes.{Bytes}
use unix_ancillary.Target.{IsTarget}
use unix_ancillary.System.{
  Host, World, Run, Exit, ok, err, panic, out_of_fuel, MsgHdr, Sent, and_then, ◌>>=◌,
}
use unix_ancillary.System.Laws.{closed-drop_fds, sent-drop_fds}
use unix_ancillary.System.Quiet.{Quiet}
use unix_ancillary.Cmsg.{RecvMsgResult}
use unix_ancillary.Cmsg.Recv.{arrived, arrived_pidfds, batch}
use unix_ancillary.Cmsg.Fits.{ControlFits}
use unix_ancillary.Std.{Std, call, scoped}
use unix_ancillary.Std.Laws.{call-Quiet}
use unix_ancillary.Multiprocess.{child_session, child}
use unix_ancillary.Multiprocess.Session.{
  ChildReceipt, SessionEnds, session_attempt, child_session-SessionEnds,
}

-- The one `recvmsg` of the child: its run up to the answer of the kernel.
abbrev pub child_attempt : (h : Host) → Std h → (path : Bytes) → Run h (RecvMsgResult × MsgHdr)
child_attempt h std path = call (std.connect path) >>= λ socket. session_attempt h std socket

-- The socket of the child, once it is connected.
abbrev pub opened : {h : Host} → Exit h ℕ → List ℕ
opened (ok socket w) = socket ∷ []
opened _ = []

module _ (h : Host) (connected : Exit h ℕ) (attempt : Exit h (RecvMsgResult × MsgHdr)) where
  -- On success the attempted receive delivered exactly one descriptor and the marker, and the file
  -- was closed; otherwise all that it delivered was; the socket is closed last, if there is one.
  abbrev pub ChildEnds : (closed : List ℕ) → (sent : List Sent) → Exit h (Unit {0}) → Type 0
  ChildEnds closed sent (ok u w) =
      (result : RecvMsgResult) × (hdr : MsgHdr) × ChildReceipt h attempt closed sent result hdr
      × (file : ℕ) × (arrived h result hdr ≡ file ∷ [])
      × (result.bytes_read ≡ 1)
      × (flatten hdr.iov ≡ 70 ∷ [])
      × (w.closed ≡ (closed ++ (arrived_pidfds h result hdr ++ (file ∷ []))) ++ opened connected)
      × (w.sent ≡ sent)
  ChildEnds closed sent (err e w) =
      (w.closed ≡ (closed ++ batch h attempt) ++ opened connected) × (w.sent ≡ sent)
  ChildEnds closed sent (panic w) =
      (w.closed ≡ (closed ++ batch h attempt) ++ opened connected) × (w.sent ≡ sent)
  ChildEnds closed sent out_of_fuel = Unit {0}

scoped-ChildEnds :
    (h : Host) (socket : ℕ) (u : World h) (attempt : Exit h (RecvMsgResult × MsgHdr))
    (closed : List ℕ) (sent : List Sent) (r : Exit h (Unit {0}))
    → SessionEnds h attempt closed sent r
    → ChildEnds h (ok socket u) attempt closed sent (scoped (socket ∷ []) r)
scoped-ChildEnds h socket u attempt closed sent (ok x w)
      (result, hdr, receipt, file, one, is_n, is_marker, c, s) =
    (
      result,
      hdr,
      receipt,
      file,
      one,
      is_n,
      is_marker,
      closed-drop_fds h (socket ∷ []) w ∙ ap (λ ds. ds ++ (socket ∷ [])) c,
      sent-drop_fds h (socket ∷ []) w ∙ s,
    )
scoped-ChildEnds h socket u attempt closed sent (err e w) (c, s) = (
  closed-drop_fds h (socket ∷ []) w ∙ ap (λ ds. ds ++ (socket ∷ [])) c,
  sent-drop_fds h (socket ∷ []) w ∙ s,
)
scoped-ChildEnds h socket u attempt closed sent (panic w) (c, s) = (
  closed-drop_fds h (socket ∷ []) w ∙ ap (λ ds. ds ++ (socket ∷ [])) c,
  sent-drop_fds h (socket ∷ []) w ∙ s,
)
scoped-ChildEnds h socket u attempt closed sent out_of_fuel q = tt

connected-ChildEnds :
    (h : Host) (closed : List ℕ) (sent : List Sent) (r : Exit h ℕ)
    (g : ℕ → Run h (RecvMsgResult × MsgHdr)) (f : ℕ → Run h (Unit {0}))
    → Quiet closed sent r
    → ((socket : ℕ) (w : World h)
        → w.closed ≡ closed
        → w.sent ≡ sent
        → ChildEnds h (ok socket w) (g socket w) closed sent (f socket w))
    → ChildEnds h r (and_then r g) closed sent (and_then r f)
connected-ChildEnds h closed sent (ok socket w) g f (c, s) each = each socket w c s
connected-ChildEnds h closed sent (err e w) g f (c, s) each =
    (c ∙ sym (append-nil closed) ∙ sym (append-nil (closed ++ [])), s)
connected-ChildEnds h closed sent (panic w) g f q each = absurd q
connected-ChildEnds h closed sent out_of_fuel g f q each = absurd q

-- On a target whose constants obey IsTarget, and with a kernel that reports no more control bytes
-- than the buffer holds, the child of the multiprocess example leaks no descriptor. The statement
-- compares the run with its own connect and its own recvmsg. If it succeeds, that recvmsg
-- completed, with nothing closed or sent before, read one byte, the marker, and delivered exactly
-- one descriptor; the child has closed the pidfds that came with it, that file and then the socket,
-- and nothing else. If it fails or panics, it has closed exactly what that recvmsg delivered,
-- nothing if it failed or was not reached, and then the socket if it connected. It sends nothing by
-- sendmsg. A run that exceeds the bound on retries is not constrained.
pub child-ChildEnds :
    (h : Host) (std : Std h) (path : Bytes) (w : World h)
    → IsTarget h.target
    → ControlFits h
    → ChildEnds h
        (call (std.connect path) w)
        (child_attempt h std path w)
        w.closed
        w.sent
        (child h std path w)
unfolding child
child-ChildEnds h std path w v law =
    connected-ChildEnds h w.closed w.sent (call (std.connect path) w) _ _
      (call-Quiet (std.connect path) w.closed w.sent w refl refl)
      λ socket u c s.
        scoped-ChildEnds h socket u (session_attempt h std socket u) w.closed w.sent
          (child_session h std socket u)
          (child_session-SessionEnds h std socket w.closed w.sent u v law c s)
