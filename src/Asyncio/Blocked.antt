-- ===== src/Asyncio/Blocked.antt =====
-- A receive of src/ext.rs that answers `WouldBlock`.
use unix_ancillary.Base.{
  ℕ, ◌≡◌, refl, subst, true, false, List, [], ◌∷◌, Option, none, some, max, bit_or, Bool-cases, inl,
  inr,
}
use unix_ancillary.Bytes.{Bytes}
use unix_ancillary.Target.{IsTarget}
use unix_ancillary.System.{
  Host, World, Run, Exit, ok, err, panic, out_of_fuel, SysRet, ret, errno, Sent, error_kind, MsgHdr,
  and_then, or_panic, sys, dropping, settled,
}
use unix_ancillary.Platform.{cloexec_fds, has_cmsg_cloexec}
use unix_ancillary.Platform.Fallback
use unix_ancillary.Platform.Fallback.{set_cloexec}
use unix_ancillary.Ancillary.Take.Owned.{take_fds-delivered}
use unix_ancillary.Cmsg.{RecvMsgResult, slice_to, own_fds}
use unix_ancillary.System.{drop_fds}
use unix_ancillary.System.Quiet.{and_then_assoc}
use unix_ancillary.Platform.{max_recv_fds, recv_flags}
use unix_ancillary.Platform.Laws.{max_recv_fds-Quiet}
use unix_ancillary.Ancillary.Layout.{buffer_size_for_rights}
use unix_ancillary.Ancillary.Raw.Parse.{raw_messages}
use unix_ancillary.Ancillary.Take.Owned.{delivered, pidfds}
use unix_ancillary.Cmsg.{recvmsg_raw, recv_fds}
use unix_ancillary.Cmsg.Retry.{recv_loop-RecvEnds}
use unix_ancillary.Ext.{
  SocketKind, CountMode, count, apply_policy, recv_core, add_credentials_size, control_storage,
}
use unix_ancillary.Ext.Ledger.{PolicyEnds, apply_policy-PolicyEnds, accepts}
use unix_ancillary.Ext.Attempt.{attempted, add_credentials_size-Calm}
use unix_ancillary.Cmsg.Recv.{batch}
use unix_ancillary.Cmsg.Calm.{Calm, Quiet-Calm, RecvEnds-Calm, or_panic-Calm}
use unix_ancillary.Cmsg.Fits.{ControlFits}
use unix_ancillary.Tokio.{is_would_block}

-- `fcntl(F_GETFD)` and `fcntl(F_SETFD)` never fail with `EAGAIN`.
pub record FcntlNeverBlocks (h : Host) : Type 0 where
  pub getfd :
      (fd x : ℕ) (k k' : h.Kernel)
      → h.fcntl_getfd fd k ≡ (errno x, k')
      → is_would_block (h.target.errno_kind x) ≡ false
  pub setfd :
      (fd flags x : ℕ) (k k' : h.Kernel)
      → h.fcntl_setfd fd flags k ≡ (errno x, k')
      → is_would_block (h.target.errno_kind x) ≡ false

module _ {h : Host} where
  -- An error is not `WouldBlock`.
  abbrev pub Firm : {A : Type 0} → Exit h A → Type 0
  Firm (err e w) = is_would_block (error_kind h.target e) ≡ false
  Firm _ = Unit {0}

  and_then-Firm :
      {A B : Type 0} (r : Exit h A) (f : A → Run h B)
      → Firm r
      → ((a : A) (w : World h) → Firm (f a w))
      → Firm (and_then r f)
  and_then-Firm (ok a w) f q g = g a w
  and_then-Firm (err e w) f q g = q
  and_then-Firm (panic w) f q g = tt
  and_then-Firm out_of_fuel f q g = tt

  or_panic-Firm : {A : Type 0} (o : Option A) (w : World h) → Firm (or_panic o w)
  or_panic-Firm none w = tt
  or_panic-Firm (some a) w = tt

  dropping-Firm : {A : Type 0} (fds : List ℕ) (r : Exit h A) → Firm r → Firm (dropping h fds r)
  dropping-Firm fds (ok a w) q = tt
  dropping-Firm fds (err e w) q = q
  dropping-Firm fds (panic w) q = tt
  dropping-Firm fds out_of_fuel q = tt

module _ (h : Host) (n : FcntlNeverBlocks h) where
  set_cloexec-Firm : (fd : ℕ) (w : World h) → Firm (set_cloexec h fd w)
  unfolding set_cloexec
  set_cloexec-Firm fd w =
      and_then-Firm (sys (h.fcntl_getfd fd) w) _ (got (h.fcntl_getfd fd w.kernel) refl) λ flags u.
        and_then-Firm (sys (h.fcntl_setfd fd (bit_or flags h.target.fd_cloexec)) u) _
          (set flags u (h.fcntl_setfd fd (bit_or flags h.target.fd_cloexec) u.kernel) refl)
          λ a v. tt
    where
      got : (a : SysRet × h.Kernel) → h.fcntl_getfd fd w.kernel ≡ a → Firm (settled a w)
      got (ret m, k) e = tt
      got (errno x, k) e = n.getfd fd x w.kernel k e

      set :
          (flags : ℕ) (u : World h) (a : SysRet × h.Kernel)
          → h.fcntl_setfd fd (bit_or flags h.target.fd_cloexec) u.kernel ≡ a
          → Firm (settled a u)
      set flags u (ret m, k) e = tt
      set flags u (errno x, k) e = n.setfd fd (bit_or flags h.target.fd_cloexec) x u.kernel k e

  fallback-Firm : (fds : List ℕ) (w : World h) → Firm (Fallback.cloexec_fds h fds w)
  unfolding Fallback.cloexec_fds
  fallback-Firm [] w = tt
  fallback-Firm (fd ∷ rest) w =
      and_then-Firm (set_cloexec h fd w) _ (set_cloexec-Firm fd w) λ a u. fallback-Firm rest u

  cloexec_fds-Firm : (fds : List ℕ) (w : World h) → Firm (cloexec_fds h fds w)
  unfolding cloexec_fds
  cloexec_fds-Firm fds w = elim (Bool-cases (has_cmsg_cloexec h.target.target_os)) [
    | inl e ↦ rw e tt
    | inr e ↦ rw e (fallback-Firm fds w)
  ]

  pub own_fds-Firm :
      (result : RecvMsgResult) (hdr : MsgHdr) (w : World h)
      → IsTarget h.target
      → Firm (own_fds h result hdr w)
  unfolding own_fds
  own_fds-Firm result hdr w v =
      and_then-Firm (slice_to result.ancillary_len hdr.control w) _ (or_panic-Firm _ w) λ control u.
        rw (take_fds-delivered h control u v) (
          let ms = raw_messages h.target control in
          let fds = delivered h.target ms in
          let u' = drop_fds h (pidfds h.target ms) u in
          and_then-Firm (dropping h fds (cloexec_fds h fds u')) _
            (dropping-Firm fds (cloexec_fds h fds u') (cloexec_fds-Firm fds u')) λ a x. tt)

module _ {h : Host} where
  -- An error that is `WouldBlock` comes with nothing delivered by the attempted receive, nothing
  -- closed and nothing sent.
  abbrev pub Bounces :
      {A : Type 0}
      → (attempt : Exit h (RecvMsgResult × MsgHdr)) → (closed : List ℕ) → (sent : List Sent)
      → Exit h A
      → Type 0
  Bounces attempt closed sent (err e w) =
      is_would_block (error_kind h.target e) ≡ true
      → (batch h attempt ≡ []) × (w.closed ≡ closed) × (w.sent ≡ sent)
  Bounces attempt closed sent _ = Unit {0}

  Firm-Bounces :
      {A : Type 0} (attempt : Exit h (RecvMsgResult × MsgHdr)) (closed : List ℕ) (sent : List Sent)
      (r : Exit h A)
      → Firm r
      → Bounces attempt closed sent r
  Firm-Bounces attempt closed sent (ok a w) q = tt
  Firm-Bounces attempt closed sent (err e w) q = λ would. cc
  Firm-Bounces attempt closed sent (panic w) q = tt
  Firm-Bounces attempt closed sent out_of_fuel q = tt

  -- What goes before the receive, in the run and in the attempt.
  and_then-Bounces :
      {A B : Type 0} (closed : List ℕ) (sent : List Sent) (r : Exit h A)
      (g : A → Run h (RecvMsgResult × MsgHdr)) (f : A → Run h B)
      → Calm closed sent r
      → ((a : A) (w : World h)
          → w.closed ≡ closed
          → w.sent ≡ sent
          → Bounces (g a w) closed sent (f a w))
      → Bounces (and_then r g) closed sent (and_then r f)
  and_then-Bounces closed sent (ok a w) g f q each = each a w q.0 q.1
  and_then-Bounces closed sent (err e w) g f q each = λ would. (refl, q.0, q.1)
  and_then-Bounces closed sent (panic w) g f q each = tt
  and_then-Bounces closed sent out_of_fuel g f q each = tt

  -- What goes on after it.
  attempt-Bounces :
      {B : Type 0} (closed : List ℕ) (sent : List Sent) (r : Exit h (RecvMsgResult × MsgHdr))
      (f : RecvMsgResult × MsgHdr → Run h B)
      → Calm closed sent r
      → ((result : RecvMsgResult) (hdr : MsgHdr) (w : World h) → Firm (f (result, hdr) w))
      → Bounces r closed sent (and_then r f)
  attempt-Bounces closed sent (ok (result, hdr) w) f q each =
      Firm-Bounces (ok (result, hdr) w) closed sent (f (result, hdr) w) (each result hdr w)
  attempt-Bounces closed sent (err e w) f q each = λ would. (refl, q.0, q.1)
  attempt-Bounces closed sent (panic w) f q each = tt
  attempt-Bounces closed sent out_of_fuel f q each = tt

module _ (h : Host) (n : FcntlNeverBlocks h) (v : IsTarget h.target) (law : ControlFits h) (fd : ℕ)
    (iov : List Bytes) (kind : SocketKind) (mode : CountMode) where
  policy-Firm :
      (result : RecvMsgResult) (fds : List ℕ) (filled : List Bytes) (w : World h)
      → Firm (apply_policy h kind mode result fds filled w)
  policy-Firm result fds filled w =
      judged _ (apply_policy-PolicyEnds h result fds filled kind mode w)
    where
      judged :
          (r : Exit h (ℕ × List ℕ × ℕ × List Bytes))
          → PolicyEnds h result fds filled mode (accepts kind mode result fds) w.closed w.sent r
          → Firm r
      judged (ok a u) q = tt
      judged (err e u) q = rw q.1 refl
      judged (panic u) q = tt
      judged out_of_fuel q = tt

  pub recv_core-Bounces :
      (w : World h) (closed : List ℕ) (sent : List Sent)
      → w.closed ≡ closed
      → w.sent ≡ sent
      → Bounces (attempted h fd iov mode w) closed sent (recv_core h fd iov kind mode w)
  unfolding recv_core recv_fds recvmsg_raw
  recv_core-Bounces w closed sent c s =
      and_then-Bounces closed sent (max_recv_fds h w) _ _
        (Quiet-Calm closed sent _ (max_recv_fds-Quiet h closed sent w c s))
        λ budget w₁ c₁ s₁.
          let fds_size = buffer_size_for_rights h.target (max (count mode) budget) in
          and_then-Bounces closed sent (or_panic fds_size w₁) _ _
            (or_panic-Calm closed sent fds_size w₁ c₁ s₁)
            λ size w₂ c₂ s₂.
              and_then-Bounces closed sent (add_credentials_size h size w₂) _ _
                (add_credentials_size-Calm h v closed sent size w₂ c₂ s₂)
                λ total w₃ c₃ s₃. received (control_storage h.uninit total) w₃ c₃ s₃
    where
      received :
          (buf : Bytes) (u : World h)
          → u.closed ≡ closed
          → u.sent ≡ sent
          → Bounces (recvmsg_raw h fd iov buf 0 u) closed sent (
              and_then
                (recv_fds h fd iov buf u)
                (λ (result, fds, filled). apply_policy h kind mode result fds filled))
      received buf u c s =
          rw
            (and_then_assoc (recvmsg_raw h fd iov buf 0 u) (λ (result, hdr). own_fds h result hdr)
              (λ (result, fds, filled). apply_policy h kind mode result fds filled))
            (attempt-Bounces closed sent (recvmsg_raw h fd iov buf 0 u) _
              (subst (λ x. Calm x sent (recvmsg_raw h fd iov buf 0 u)) c
                (subst (λ x. Calm u.closed x (recvmsg_raw h fd iov buf 0 u)) s
                  (RecvEnds-Calm u.closed u.sent _ (
                    recv_loop-RecvEnds h fd iov buf (bit_or (recv_flags h.target) 0) h.retries u))))
              λ result hdr u'.
                and_then-Firm (own_fds h result hdr u') _ (own_fds-Firm h n result hdr u' v)
                  λ (res, fds, filled) x. policy-Firm res fds filled x)
