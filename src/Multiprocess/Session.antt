-- ===== src/Multiprocess/Session.antt =====
-- The child of examples/multiprocess.rs once it is connected: the one receive, and what comes of it.
use unix_ancillary.Base.{
  ℕ, ◌≡◌, refl, ap, ap₂, sym, subst, ◌∙◌, Bool, true, not, ◌||◌, List, [], ◌∷◌, ◌++◌, take, drop,
  length, flatten, append_assoc, append-nil, arith, Bool-cases, if◌then◌else◌, inl, inr, ◌==◌,
}
use unix_ancillary.Base.Results.{Result}
use unix_ancillary.Bytes.{Bytes}
use unix_ancillary.Target.{IsTarget, ErrorKind}
use unix_ancillary.System.{
  Host, World, Run, Exit, ok, err, panic, out_of_fuel, MsgHdr, Sent, IoError, custom, fail, ◌>>=◌,
  ◌>>◌, drop_fds, and_then,
}
use unix_ancillary.System.Laws.{closed-drop_fds, sent-drop_fds}
use unix_ancillary.System.Quiet.{Quiet, and_then-Quiet}
use unix_ancillary.Cmsg.{RecvMsgResult}
use unix_ancillary.Cmsg.Recv.{arrived, arrived_pidfds, batch}
use unix_ancillary.Cmsg.Fits.{ControlFits}
use unix_ancillary.Ext.{SocketKind, CountMode, recv_fds_into_impl}
use unix_ancillary.Ext.Attempt.{Receipt, attempted}
use unix_ancillary.Ext.Into.{HandsInto, recv_fds_into_vectored_impl-HandsInto}
use unix_ancillary.Ext.Stream.{recv_fds_exact_into}
use unix_ancillary.Std.{Std, attempt, call, scoped}
use unix_ancillary.Std.Laws.{call-Quiet, scoped-Quiet}
use unix_ancillary.Multiprocess.{
  contents, denied, timeout, same_bytes, inspect, acknowledge, check_marker, child_session,
}

pub same_bytes-eq : (xs ys : Bytes) → same_bytes xs ys ≡ true → xs ≡ ys
same_bytes-eq [] [] e = refl
same_bytes-eq [] (y ∷ ys) e = cc
same_bytes-eq (x ∷ xs) [] e = cc
same_bytes-eq (x ∷ xs) (y ∷ ys) e =
    let same : x ≡ y = ground arith in
    let rest : same_bytes xs ys ≡ true = ground arith in
    ap₂ (λ b bs. b ∷ bs) same (same_bytes-eq xs ys rest)

single : (xs : List ℕ) → length (take 1 xs) ≡ 1 → length (drop 1 xs) ≡ 0 → (x : ℕ) × (xs ≡ x ∷ [])
single [] one none_left = absurd (omega (arith, one))
single (x ∷ []) one none_left = (x, refl)
single (x ∷ y ∷ xs) one none_left = absurd (omega (arith, none_left))

-- The one `recvmsg` of the child: its session up to the answer of the kernel.
abbrev pub session_attempt : (h : Host) → Std h → (socket : ℕ) → Run h (RecvMsgResult × MsgHdr)
session_attempt h std socket = do
  call (std.set_read_timeout socket timeout)
  call (std.set_write_timeout socket timeout)
  attempted h socket ((0 ∷ []) ∷ []) (CountMode.exact 1)

module _ (h : Host) (attempt : Exit h (RecvMsgResult × MsgHdr)) where
  abbrev pub ChildReceipt : (closed : List ℕ) → (sent : List Sent) → RecvMsgResult → MsgHdr → Type 0
  ChildReceipt = Receipt h SocketKind.stream (CountMode.exact 1) attempt

  -- How the child ends before its socket is closed.
  abbrev pub SessionEnds : (closed : List ℕ) → (sent : List Sent) → Exit h (Unit {0}) → Type 0
  SessionEnds closed sent (ok u w) =
      (result : RecvMsgResult) × (hdr : MsgHdr) × ChildReceipt closed sent result hdr
      × (file : ℕ) × (arrived h result hdr ≡ file ∷ [])
      × (result.bytes_read ≡ 1)
      × (flatten hdr.iov ≡ 70 ∷ [])
      × (w.closed ≡ closed ++ (arrived_pidfds h result hdr ++ (file ∷ [])))
      × (w.sent ≡ sent)
  SessionEnds closed sent (err e w) = (w.closed ≡ closed ++ batch h attempt) × (w.sent ≡ sent)
  SessionEnds closed sent (panic w) = (w.closed ≡ closed ++ batch h attempt) × (w.sent ≡ sent)
  SessionEnds closed sent out_of_fuel = Unit {0}

-- What goes before the receive, in the session and in its attempt.
after-SessionEnds :
    (h : Host) {A : Type 0} (closed : List ℕ) (sent : List Sent) (r : Exit h A)
    (g : A → Run h (RecvMsgResult × MsgHdr)) (f : A → Run h (Unit {0}))
    → Quiet closed sent r
    → ((a : A) (w : World h)
        → w.closed ≡ closed
        → w.sent ≡ sent
        → SessionEnds h (g a w) closed sent (f a w))
    → SessionEnds h (and_then r g) closed sent (and_then r f)
after-SessionEnds h closed sent (ok a w) g f q each = each a w q.0 q.1
after-SessionEnds h closed sent (err e w) g f q each = (q.0 ∙ sym (append-nil closed), q.1)
after-SessionEnds h closed sent (panic w) g f q each = absurd q
after-SessionEnds h closed sent out_of_fuel g f q each = absurd q

module _ (h : Host) (std : Std h) (socket : ℕ) where
  inspect-Quiet :
      (file : ℕ) (closed : List ℕ) (sent : List Sent) (w : World h)
      → w.closed ≡ closed
      → w.sent ≡ sent
      → Quiet closed sent (inspect h std socket file w)
  unfolding inspect
  inspect-Quiet file closed sent w c s =
      and_then-Quiet closed sent _ _ (call-Quiet (std.read_to_string file) closed sent w c s)
        λ read u c' s'. checked read u c' s'
    where
      checked :
          (read : Bytes) (u : World h)
          → u.closed ≡ closed
          → u.sent ≡ sent
          → Quiet closed sent (
              (if same_bytes read contents
                  then (attempt (std.write_all file denied) >>= acknowledge h std socket)
                  else fail (custom ErrorKind.invalid_data))
                u)
      checked read u c' s' = elim (Bool-cases (same_bytes read contents)) [
        | inr differs ↦ rw differs (c', s')
        | inl same ↦ rw same (written (std.write_all file denied u.kernel))
      ]
        where
          written :
              (a : Result (Unit {0}) IoError × h.Kernel)
              → Quiet closed sent (acknowledge h std socket a.0 (record u { kernel = a.1 }))
          written (Result.ok x, k) = (c', s')
          written (Result.err e, k) =
              call-Quiet (std.write_all socket (89 ∷ [])) closed sent (record u { kernel = k }) c'
                s'

  module _ (closed : List ℕ) (sent : List Sent) (result : RecvMsgResult) (hdr : MsgHdr)
      (attempt : Exit h (RecvMsgResult × MsgHdr))
      (receipt : ChildReceipt h attempt closed sent result hdr) (file : ℕ)
      (one : arrived h result hdr ≡ file ∷ []) where
    all_closed :
        (w : World h)
        → w.closed ≡ closed ++ (arrived_pidfds h result hdr ++ (file ∷ []))
        → w.closed ≡ closed ++ batch h attempt
    all_closed w c =
        c
        ∙ ap (λ fds. closed ++ (arrived_pidfds h result hdr ++ fds)) (sym one)
        ∙ ap (λ r. closed ++ batch h r) (sym receipt.call)

    -- The file is closed, whatever comes of looking at it.
    file_closed :
        (r : Exit h (Unit {0}))
        → result.bytes_read ≡ 1
        → flatten hdr.iov ≡ 70 ∷ []
        → Quiet (closed ++ (arrived_pidfds h result hdr ++ (file ∷ []))) sent r
        → SessionEnds h attempt closed sent r
    file_closed (ok u w) is_n is_marker (c, s) =
        (result, hdr, receipt, file, one, is_n, is_marker, c, s)
    file_closed (err e w) is_n is_marker (c, s) = (all_closed w c, s)
    file_closed (panic w) is_n is_marker q = absurd q
    file_closed out_of_fuel is_n is_marker q = absurd q

    check_marker-SessionEnds :
        (w : World h)
        → w.closed ≡ closed ++ arrived_pidfds h result hdr
        → w.sent ≡ sent
        → SessionEnds h attempt closed sent
            (check_marker h std socket (result.bytes_read, file ∷ [], hdr.iov) w)
    unfolding check_marker
    check_marker-SessionEnds w c s = elim (Bool-cases wrong) [
      | inl bad ↦ rw bad (
        all_closed (drop_fds h (file ∷ []) w) (
            closed-drop_fds h (file ∷ []) w
            ∙ ap (λ ds. ds ++ (file ∷ [])) c
            ∙ append_assoc closed (arrived_pidfds h result hdr) (file ∷ [])),
        sent-drop_fds h (file ∷ []) w ∙ s,
      )
      | inr good ↦ rw good (
          file_closed (scoped (file ∷ []) (inspect h std socket file w)) (ground arith)
            (same_bytes-eq (flatten hdr.iov) (70 ∷ []) (ground arith))
            (subst (λ ds. Quiet ds sent (scoped (file ∷ []) (inspect h std socket file w)))
              (append_assoc closed (arrived_pidfds h result hdr) (file ∷ []))
              (scoped-Quiet (file ∷ []) (closed ++ arrived_pidfds h result hdr) sent
                (inspect h std socket file w)
                (inspect-Quiet file (closed ++ arrived_pidfds h result hdr) sent w c s))))
    ]
      where
        wrong : Bool
        wrong = not (result.bytes_read == 1) || not (same_bytes (flatten hdr.iov) (70 ∷ []))

  -- The receive hands out one descriptor.
  from_receive :
      (attempt : Exit h (RecvMsgResult × MsgHdr)) (closed : List ℕ) (sent : List Sent)
      (r : Exit h (ℕ × List ℕ × List Bytes))
      → HandsInto h SocketKind.stream (CountMode.exact 1) attempt closed sent r
      → SessionEnds h attempt closed sent (and_then r (check_marker h std socket))
  from_receive attempt closed sent (ok (n, fds, filled) w)
        (result, hdr, receipt, is_n, is_filled, is_fds, (one, none_left), c, s) =
      let all = arrived h result hdr in
      let (file, is_file) = single all (subst (λ ds. length ds ≡ 1) is_fds one) none_left in
      let kept : fds ≡ file ∷ [] = is_fds ∙ ap (take 1) is_file in
      let pidfds : w.closed ≡ closed ++ arrived_pidfds h result hdr =
        c
        ∙ ap (λ ds. closed ++ (arrived_pidfds h result hdr ++ drop 1 ds)) is_file
        ∙ ap (λ ds. closed ++ ds) (append-nil (arrived_pidfds h result hdr)) in
      rw (is_n, is_filled, kept)
        (check_marker-SessionEnds closed sent result hdr attempt receipt file is_file w pidfds s)
  from_receive attempt closed sent (err e w) q = q
  from_receive attempt closed sent (panic w) q = q
  from_receive attempt closed sent out_of_fuel q = tt

  pub child_session-SessionEnds :
      (closed : List ℕ) (sent : List Sent) (w : World h)
      → IsTarget h.target
      → ControlFits h
      → w.closed ≡ closed
      → w.sent ≡ sent
      → SessionEnds h (session_attempt h std socket w) closed sent (child_session h std socket w)
  unfolding child_session recv_fds_exact_into recv_fds_into_impl
  child_session-SessionEnds closed sent w v law c s =
      after-SessionEnds h closed sent _ _ _
        (call-Quiet (std.set_read_timeout socket timeout) closed sent w c s)
        λ u₁ w₁ c₁ s₁.
          after-SessionEnds h closed sent _ _ _
            (call-Quiet (std.set_write_timeout socket timeout) closed sent w₁ c₁ s₁)
            λ u₂ w₂ c₂ s₂. received w₂ c₂ s₂
    where
      receive : Run h (RecvMsgResult × MsgHdr)
      receive = attempted h socket ((0 ∷ []) ∷ []) (CountMode.exact 1)

      received :
          (u : World h)
          → u.closed ≡ closed
          → u.sent ≡ sent
          → SessionEnds h
              (receive u)
              closed
              sent
              (and_then (recv_fds_exact_into h 1 socket (0 ∷ []) u) (check_marker h std socket))
      received u c' s' =
          from_receive (receive u) closed sent (recv_fds_exact_into h 1 socket (0 ∷ []) u) (
            subst
              (λ ds.
                HandsInto h SocketKind.stream (CountMode.exact 1) (receive u) ds sent
                  (recv_fds_exact_into h 1 socket (0 ∷ []) u))
              c'
              (subst
                (λ ss.
                  HandsInto h SocketKind.stream (CountMode.exact 1) (receive u) u.closed ss
                    (recv_fds_exact_into h 1 socket (0 ∷ []) u))
                s'
                (recv_fds_into_vectored_impl-HandsInto h socket ((0 ∷ []) ∷ []) SocketKind.stream
                  (CountMode.exact 1) u v law)))
