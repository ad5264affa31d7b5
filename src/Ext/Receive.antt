-- ===== src/Ext/Receive.antt =====
-- The ledger of `recv_core` of src/ext.rs, from the call of `recvmsg` to its return.
use unix_ancillary.Base.{
  ℕ, ◌≡◌, refl, ap, sym, subst, ◌∙◌, append-nil, List, ◌++◌, drop, append_assoc, max, bit_or,
}
use unix_ancillary.Bytes.{Bytes}
use unix_ancillary.Target.{IsTarget}
use unix_ancillary.System.{
  Host, World, Run, Exit, ok, err, panic, out_of_fuel, MsgHdr, Sent, and_then, or_panic,
}
use unix_ancillary.System.Quiet.{and_then_assoc}
use unix_ancillary.Platform.{max_recv_fds, recv_flags}
use unix_ancillary.Platform.Laws.{max_recv_fds-Quiet}
use unix_ancillary.Ancillary.Layout.{buffer_size_for_rights}
use unix_ancillary.Cmsg.{RecvMsgResult, recvmsg_raw, own_fds, recv_fds}
use unix_ancillary.Cmsg.Retry.{recv_loop-RecvEnds}
use unix_ancillary.Cmsg.Recv.{arrived, arrived_pidfds, OwnEnds, own_fds-OwnEnds}
use unix_ancillary.Ext.{
  SocketKind, CountMode, apply_policy, recv_core, add_credentials_size, control_storage, count,
}
use unix_ancillary.Ext.Ledger.{PolicyEnds, apply_policy-PolicyEnds, accepts, wanted}
use unix_ancillary.Cmsg.Fits.{ControlFits, recv_loop-fits}
use unix_ancillary.Cmsg.Calm.{Calm, Quiet-Calm, RecvEnds-Calm, or_panic-Calm}
use unix_ancillary.Ext.Attempt.{attempted, CoreEnds, add_credentials_size-Calm}

module _ (h : Host) (kind : SocketKind) (mode : CountMode) where
  -- What goes before the receive, in the run and in the attempt.
  after-Calm :
      {A : Type 0} (closed : List ℕ) (sent : List Sent) (r : Exit h A)
      (g : A → Run h (RecvMsgResult × MsgHdr)) (f : A → Run h (ℕ × List ℕ × ℕ × List Bytes))
      → Calm closed sent r
      → ((a : A) (w : World h)
          → w.closed ≡ closed
          → w.sent ≡ sent
          → CoreEnds h kind mode (g a w) closed sent (f a w))
      → CoreEnds h kind mode (and_then r g) closed sent (and_then r f)
  after-Calm closed sent (ok a w) g f q each = each a w q.0 q.1
  after-Calm closed sent (err e w) g f q each = (q.0 ∙ sym (append-nil closed), q.1)
  after-Calm closed sent (panic w) g f q each = (q.0 ∙ sym (append-nil closed), q.1)
  after-Calm closed sent out_of_fuel g f q each = tt

  -- What goes on after it.
  after-attempt :
      (closed : List ℕ) (sent : List Sent) (r : Exit h (RecvMsgResult × MsgHdr))
      (f : RecvMsgResult × MsgHdr → Run h (ℕ × List ℕ × ℕ × List Bytes))
      → Calm closed sent r
      → ((result : RecvMsgResult) (hdr : MsgHdr) (w : World h)
          → r ≡ ok (result, hdr) w
          → w.closed ≡ closed
          → w.sent ≡ sent
          → CoreEnds h kind mode (ok (result, hdr) w) closed sent (f (result, hdr) w))
      → CoreEnds h kind mode r closed sent (and_then r f)
  after-attempt closed sent (ok (result, hdr) w) f q each = each result hdr w refl q.0 q.1
  after-attempt closed sent (err e w) f q each = (q.0 ∙ sym (append-nil closed), q.1)
  after-attempt closed sent (panic w) f q each = (q.0 ∙ sym (append-nil closed), q.1)
  after-attempt closed sent out_of_fuel f q each = tt

  module _ (closed : List ℕ) (sent : List Sent) (result : RecvMsgResult) (hdr : MsgHdr)
      (u : World h) (c : u.closed ≡ closed) (s : u.sent ≡ sent) where
    from_policy :
        (w : World h)
        → w.closed ≡ closed ++ arrived_pidfds h result hdr
        → w.sent ≡ sent
        → (r : Exit h (ℕ × List ℕ × ℕ × List Bytes))
        → PolicyEnds h result
            (arrived h result hdr)
            hdr.iov
            mode
            (accepts kind mode result (arrived h result hdr))
            w.closed
            w.sent
            r
        → CoreEnds h kind mode (ok (result, hdr) u) closed sent r
    from_policy w cw sw (ok (n, kept, surplus, filled) x) q = (
      result,
      hdr,
      record { after = u; call = refl; closed_after = c; sent_after = s },
      q.0,
      q.1,
      q.4,
      q.2,
      q.3,
      q.5
          ∙ ap (λ ds. ds ++ drop (wanted mode) (arrived h result hdr)) cw
          ∙ append_assoc closed (arrived_pidfds h result hdr)
              (drop (wanted mode) (arrived h result hdr)),
      q.6 ∙ sw,
    )
    from_policy w cw sw (err e x) q = (
      q.2
          ∙ ap (λ ds. ds ++ arrived h result hdr) cw
          ∙ append_assoc closed (arrived_pidfds h result hdr) (arrived h result hdr),
      q.3 ∙ sw,
    )
    from_policy w cw sw (panic x) q = absurd q
    from_policy w cw sw out_of_fuel q = absurd q

    from_own :
        (r : Exit h (RecvMsgResult × List ℕ × List Bytes))
        → OwnEnds h result hdr closed sent r
        → CoreEnds h kind mode
            (ok (result, hdr) u)
            closed
            sent
            (and_then r (λ (res, fds, filled). apply_policy h kind mode res fds filled))
    from_own (ok (res, fds, filled) w) q =
        rw (q.0, q.1, q.2)
          (from_policy w q.3 q.4 _
            (apply_policy-PolicyEnds h result (arrived h result hdr) hdr.iov kind mode w))
    from_own (err e w) q = q
    from_own (panic w) q = absurd q
    from_own out_of_fuel q = absurd q

module _ (h : Host) (fd : ℕ) (iov : List Bytes) (kind : SocketKind) (mode : CountMode)
    (v : IsTarget h.target) (law : ControlFits h) (closed : List ℕ) (sent : List Sent) where
  -- From the call of `recvmsg` on.
  receive-CoreEnds :
      (buf : Bytes) (w : World h)
      → w.closed ≡ closed
      → w.sent ≡ sent
      → CoreEnds h kind mode (recvmsg_raw h fd iov buf 0 w) closed sent (
          and_then
            (recv_fds h fd iov buf w)
            (λ (result, fds, filled). apply_policy h kind mode result fds filled))
  unfolding recv_fds recvmsg_raw
  receive-CoreEnds buf w c s =
      rw
        (and_then_assoc (recvmsg_raw h fd iov buf 0 w) (λ (result, hdr). own_fds h result hdr)
          (λ (result, fds, filled). apply_policy h kind mode result fds filled))
        (after-attempt h kind mode closed sent (recvmsg_raw h fd iov buf 0 w) _
          (subst (λ x. Calm x sent (recvmsg_raw h fd iov buf 0 w)) c
            (subst (λ x. Calm w.closed x (recvmsg_raw h fd iov buf 0 w)) s
              (RecvEnds-Calm w.closed w.sent _
                (recv_loop-RecvEnds h fd iov buf (bit_or (recv_flags h.target) 0) h.retries w))))
          λ result hdr u e c' s'.
            from_own h kind mode closed sent result hdr u c' s' (own_fds h result hdr u) (
              subst (λ x. OwnEnds h result hdr x sent (own_fds h result hdr u)) c'
                (subst (λ x. OwnEnds h result hdr u.closed x (own_fds h result hdr u)) s'
                  (own_fds-OwnEnds h result hdr u v (
                    recv_loop-fits h fd iov buf (bit_or (recv_flags h.target) 0) h.retries result
                      hdr w u law e)))))

  core-CoreEnds :
      (w : World h)
      → w.closed ≡ closed
      → w.sent ≡ sent
      → CoreEnds h kind mode
          (attempted h fd iov mode w)
          closed
          sent
          (recv_core h fd iov kind mode w)
  unfolding recv_core
  core-CoreEnds w c s =
      after-Calm h kind mode closed sent (max_recv_fds h w) _ _
        (Quiet-Calm closed sent _ (max_recv_fds-Quiet h closed sent w c s))
        λ budget w₁ c₁ s₁.
          let fds_size = buffer_size_for_rights h.target (max (count mode) budget) in
          after-Calm h kind mode closed sent (or_panic fds_size w₁) _ _
            (or_panic-Calm closed sent fds_size w₁ c₁ s₁)
            λ size w₂ c₂ s₂.
              after-Calm h kind mode closed sent (add_credentials_size h size w₂) _ _
                (add_credentials_size-Calm h v closed sent size w₂ c₂ s₂)
                λ total w₃ c₃ s₃. receive-CoreEnds (control_storage h.uninit total) w₃ c₃ s₃

-- On a target whose constants obey IsTarget, and with a kernel that reports no more control bytes
-- than the buffer holds, recv_core leaks no descriptor. The statement compares the run with its own
-- recvmsg (attempted, the run up to the answer of the kernel). On success that recvmsg completed
-- with nothing closed or sent before, the kind and mode accept its result, the caller has the first
-- N descriptors that it delivered, the rest is counted as surplus, and what was closed is exactly
-- the pidfds it delivered and that rest, once each. On an error or a panic exactly what it
-- delivered was closed: the pidfds and then all descriptors if it completed, nothing if it failed
-- or was not reached. Nothing is sent. A run that exceeds the bound on retries is not constrained.
pub recv_core-CoreEnds :
    (h : Host) (fd : ℕ) (iov : List Bytes) (kind : SocketKind) (mode : CountMode) (w : World h)
    → IsTarget h.target
    → ControlFits h
    → CoreEnds h kind mode
        (attempted h fd iov mode w)
        w.closed
        w.sent
        (recv_core h fd iov kind mode w)
recv_core-CoreEnds h fd iov kind mode w v law =
    core-CoreEnds h fd iov kind mode v law w.closed w.sent w refl refl
