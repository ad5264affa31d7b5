-- ===== src/Ext/Returns.antt =====
-- Sends and receives of src/ext.rs within the bounds of the model.
use unix_ancillary.Base.{
  ℕ, zero, suc, ◌+◌, ◌-◌, ◌<◌, ◌≡◌, refl, false, not, ◌&&◌, List, [], ◌∷◌, length, drop, max,
  Option, none, some, Bool-cases, if◌then◌else◌, arith, inl, inr, ltb, ◌==◌, bit_or,
}
use unix_ancillary.Base.Results.{Result}
use unix_ancillary.Bytes.{Bytes}
use unix_ancillary.Target.{IsTarget}
use unix_ancillary.System.{
  Host, World, Exit, ok, err, panic, out_of_fuel, MsgHdr, Sent, and_then, or_panic,
}
use unix_ancillary.Platform.{max_recv_fds, recv_flags}
use unix_ancillary.Platform.Laws.{max_recv_fds-Quiet}
use unix_ancillary.Ancillary.Layout.{
  buffer_size_for_rights, buffer_size_for_credentials, checked_add,
}
use unix_ancillary.Ancillary.Buffer.{SocketAncillary, AncillaryError, add_rights, new}
use unix_ancillary.Ancillary.Take.{is_linux}
use unix_ancillary.Cmsg.{RecvMsgResult, sendmsg_vectored, recvmsg_raw, send_bytes, recv_fds}
use unix_ancillary.Cmsg.Recv.{OwnEnds, own_fds-OwnEnds}
use unix_ancillary.Ext.{
  SocketKind, CountMode, count, apply_policy, recv_core, add_credentials_size, or_overflow,
  control_storage, or_invalid_input, send_fds_vectored_impl, send_fds_impl, validate_stream_send,
}
use unix_ancillary.Ext.Ledger.{PolicyEnds, apply_policy-PolicyEnds, accepts}
use unix_ancillary.Ext.Stream.{after_send, write_zero, send_rest, send_first, send_fds_all}
use unix_ancillary.Cmsg.Fits.{ControlFits, recv_loop-fits}
use unix_ancillary.Cmsg.Returns.{
  Settles, Returns, and_then-Returns, or_panic-Returns, Quiet-Returns, recvmsg_raw-Returns,
  sendmsg_vectored-Returns,
}

module _ (h : Host) (s : Settles h) where
  pub send_fds_vectored_impl-Returns :
      (fd : ℕ) (iov : List Bytes) (fds : List ℕ) (w : World h)
      → Returns (send_fds_vectored_impl h fd iov fds w)
  unfolding send_fds_vectored_impl
  send_fds_vectored_impl-Returns fd iov [] w = sendmsg_vectored-Returns h s fd iov [] 0 w
  send_fds_vectored_impl-Returns fd iov (first ∷ rest) w =
      and_then-Returns (or_panic (buffer_size_for_rights h.target (suc (length rest))) w) _
        (or_panic-Returns (buffer_size_for_rights h.target (suc (length rest))) w)
        λ size u e.
          added (add_rights h.target (new (control_storage h.uninit size)) (first ∷ rest)) u
    where
      added :
          (r : Result SocketAncillary AncillaryError) (u : World h)
          → Returns
              (and_then (or_invalid_input h r u) (λ a. sendmsg_vectored h fd iov a.buffer a.filled))
      added (Result.err e) u = tt
      added (Result.ok a) u = sendmsg_vectored-Returns h s fd iov a.buffer a.filled u

  send_rest-Returns :
      (fuel fd : ℕ) (payload : Bytes) (at : ℕ) (w : World h)
      → length payload - at < fuel
      → Returns (send_rest h fuel fd payload at w)
  unfolding send_rest send_bytes
  send_rest-Returns zero fd payload at w rounds = absurd (omega arith)
  send_rest-Returns (suc fuel) fd payload at w rounds =
      elim (Bool-cases (ltb at (length payload))) [
        | inr done ↦ rw done tt
        | inl more ↦ rw more (
            and_then-Returns _ _ (sendmsg_vectored-Returns h s fd (drop at payload ∷ []) [] 0 w)
              λ n u e.
                after n u (ground arith) λ less. send_rest-Returns fuel fd payload (at + n) u less)
      ]
    where
      after :
          (n : ℕ) (u : World h)
          → at < length payload
          → (length payload - (at + n) < fuel → Returns (send_rest h fuel fd payload (at + n) u))
          → Returns (after_send h (send_rest h fuel fd payload) at n u)
      after zero u more later = tt
      after (suc n) u more later =
          let positive : (suc n == 0) ≡ false = ground arith in
          rw positive (later (omega (arith, rounds)))

  -- With a kernel that interrupts a call less often in a row than the bound on retries,
  -- send_fds_all returns: the rounds of its loop, one more than the payload has bytes, are never
  -- used up.
  pub send_fds_all-Returns :
      (fd : ℕ) (payload : Bytes) (fds : List ℕ) (w : World h)
      → Returns (send_fds_all h fd payload fds w)
  unfolding send_fds_all validate_stream_send send_first send_fds_impl
  send_fds_all-Returns fd payload fds w =
      and_then-Returns (validate_stream_send h payload (length fds) w) _ (valid (length fds))
        λ u w₁ _.
          and_then-Returns (send_first h fd payload fds w₁) _ (first_send fds w₁)
            λ at w₂ _. send_rest-Returns (suc (length payload)) fd payload at w₂ (omega arith)
    where
      valid : (n : ℕ) → Returns (validate_stream_send h payload n w)
      valid n = elim (Bool-cases ((length payload == 0) && not (n == 0))) [
        | inl e ↦ rw e tt
        | inr e ↦ rw e tt
      ]

      nonzero : (n : ℕ) (u : World h) → Returns ((if n == 0 then write_zero h else ok n) u)
      nonzero n u = elim (Bool-cases (n == 0)) [ inl e ↦ rw e tt | inr e ↦ rw e tt ]

      first_send : (fds : List ℕ) (u : World h) → Returns (send_first h fd payload fds u)
      first_send [] u = tt
      first_send (first ∷ rest) u =
          and_then-Returns _ _ (send_fds_vectored_impl-Returns fd (payload ∷ []) (first ∷ rest) u)
            λ n u' _. nonzero n u'

-- On a target whose constants obey IsTarget, with a kernel that reports no more control bytes than
-- the buffer holds and that interrupts a call less often in a row than the bound on retries,
-- recv_core returns: neither the retries nor the parser loops run out of fuel.
pub recv_core-Returns :
    (h : Host) (fd : ℕ) (iov : List Bytes) (kind : SocketKind) (mode : CountMode) (w : World h)
    → IsTarget h.target
    → ControlFits h
    → Settles h
    → Returns (recv_core h fd iov kind mode w)
unfolding recv_core recv_fds
recv_core-Returns h fd iov kind mode w v law s =
    and_then-Returns (max_recv_fds h w) _
      (Quiet-Returns w.closed w.sent _ (max_recv_fds-Quiet h w.closed w.sent w refl refl))
      λ budget w₁ _.
        let size = buffer_size_for_rights h.target (max (count mode) budget) in
        and_then-Returns (or_panic size w₁) _ (or_panic-Returns size w₁) λ n w₂ _.
          and_then-Returns (add_credentials_size h n w₂) _ (sized n w₂)
            λ total w₃ _. receives (control_storage h.uninit total) w₃
  where
    total : (o : Option ℕ) (u : World h) → Returns (or_overflow h o u)
    total none u = tt
    total (some n) u = tt

    sized : (n : ℕ) (u : World h) → Returns (add_credentials_size h n u)
    sized n u = elim (Bool-cases (is_linux h.target.target_os)) [
      | inr other ↦ unfold add_credentials_size in rw other tt
      | inl linux ↦
          unfold add_credentials_size in
          rw linux (
            and_then-Returns _ _ (or_panic-Returns (buffer_size_for_credentials h.target) u)
              λ creds u' _. total (checked_add h.target n creds) u')
    ]

    policy :
        (result : RecvMsgResult) (fds : List ℕ) (filled : List Bytes) (u : World h)
        → Returns (apply_policy h kind mode result fds filled u)
    policy result fds filled u = judged _ (apply_policy-PolicyEnds h result fds filled kind mode u)
      where
        judged :
            (r : Exit h (ℕ × List ℕ × ℕ × List Bytes))
            → PolicyEnds h result fds filled mode (accepts kind mode result fds) u.closed u.sent r
            → Returns r
        judged (ok a u') q = tt
        judged (err e u') q = tt
        judged (panic u') q = tt
        judged out_of_fuel q = q

    owned :
        (result : RecvMsgResult) (hdr : MsgHdr) (closed : List ℕ) (sent : List Sent)
        (r : Exit h (RecvMsgResult × List ℕ × List Bytes))
        → OwnEnds h result hdr closed sent r
        → Returns r
    owned result hdr closed sent (ok a u) q = tt
    owned result hdr closed sent (err e u) q = tt
    owned result hdr closed sent (panic u) q = tt
    owned result hdr closed sent out_of_fuel q = q

    receives :
        (buf : Bytes) (u : World h)
        → Returns (
            and_then
              (recv_fds h fd iov buf u)
              (λ (result, fds, filled). apply_policy h kind mode result fds filled))
    receives buf u =
        and_then-Returns (recv_fds h fd iov buf u) _
          (and_then-Returns (recvmsg_raw h fd iov buf 0 u) _
            (recvmsg_raw-Returns h s fd iov buf 0 u)
            λ (result, hdr) u' e. owned result hdr u'.closed u'.sent _ (
              own_fds-OwnEnds h result hdr u' v (
                recv_loop-fits h fd iov buf (bit_or (recv_flags h.target) 0) h.retries result hdr u
                  u' law (unfold recvmsg_raw in e))))
          λ (result, fds, filled) u' _. policy result fds filled u'
