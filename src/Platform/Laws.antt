-- ===== src/Platform/Laws.antt =====
-- Laws of src/platform.rs: close-on-exec on a batch of descriptors, and the receive budget.
use mathlib.Core.Path.{fun_ext}
use unix_ancillary.Ancillary.Take.Owned.{fds_of}
use unix_ancillary.Base.{
  ℕ, ◌^◌, ◌≤◌, ◌<◌, ◌≡◌, min, max, refl, ap, sym, subst, ◌∙◌, false, List, [], ◌∷◌, ◌++◌, arith,
  All, bit_or, Bool-cases, inl, inr, Option, some, none,
}
use unix_ancillary.Target.{Target}
use unix_ancillary.System.{Host, World, ok, ret, Sent, sys, and_then}
use unix_ancillary.System.Quiet.{
  Quiet, and_then-Quiet, and_then-eq-ok, sys-Quiet, sys-ok, and_then_assoc, ok-world,
}
use unix_ancillary.Ancillary.Buffer.{ReceivedMessage, fds}
use unix_ancillary.Platform.{cloexec_fds, cloexec_received, has_cmsg_cloexec, max_recv_fds}
use unix_ancillary.Platform.Fallback
use unix_ancillary.Platform.Fallback.{
  clamp_nofile, hard_floor, hard_ceiling, nosigpipe_error, set_cloexec,
}

-- The budget lies between the floor and the ceiling, whatever the limit is.
pub clamp_nofile_bounds :
    (t : Target) (cur : ℕ) → (hard_floor ≤ clamp_nofile t cur) × (clamp_nofile t cur ≤ hard_ceiling)
unfolding clamp_nofile
clamp_nofile_bounds t cur = ground arith

-- Where usize can hold the ceiling and RLIM_INFINITY is at least the ceiling, clamp_nofile is the
-- limit cut to the floor and the ceiling: RLIM_INFINITY and a limit that usize cannot hold come out
-- as the ceiling.
pub clamp_nofile_lem :
    (t : Target) (cur : ℕ)
    → hard_ceiling < 2 ^ t.usize_bits
    → hard_ceiling ≤ t.rlim_infinity
    → clamp_nofile t cur ≡ max hard_floor (min cur hard_ceiling)
unfolding clamp_nofile
clamp_nofile_lem t cur u i = ground arith

module _ (h : Host) (closed : List ℕ) (sent : List Sent) where
  set_cloexec-Quiet :
      (fd : ℕ) (w : World h)
      → w.closed ≡ closed
      → w.sent ≡ sent
      → Quiet closed sent (set_cloexec h fd w)
  unfolding set_cloexec
  set_cloexec-Quiet fd w c s =
      and_then-Quiet closed sent (sys (h.fcntl_getfd fd) w) _
        (sys-Quiet (h.fcntl_getfd fd) closed sent w c s)
        λ flags v c' s'.
          let call = h.fcntl_setfd fd (bit_or flags h.target.fd_cloexec) in
          and_then-Quiet closed sent (sys call v) _ (sys-Quiet call closed sent v c' s')
            λ _ u c'' s''. (c'', s'')

  fallback_cloexec-Quiet :
      (owned : List ℕ) (w : World h)
      → w.closed ≡ closed
      → w.sent ≡ sent
      → Quiet closed sent (Fallback.cloexec_fds h owned w)
  unfolding Fallback.cloexec_fds
  fallback_cloexec-Quiet [] w c s = (c, s)
  fallback_cloexec-Quiet (fd ∷ rest) w c s =
      and_then-Quiet closed sent (set_cloexec h fd w) _ (set_cloexec-Quiet fd w c s)
        λ _ v c' s'. fallback_cloexec-Quiet rest v c' s'

  fallback_received-Quiet :
      (messages : List ReceivedMessage) (w : World h)
      → w.closed ≡ closed
      → w.sent ≡ sent
      → Quiet closed sent (Fallback.cloexec_received h messages w)
  unfolding Fallback.cloexec_received
  fallback_received-Quiet [] w c s = (c, s)
  fallback_received-Quiet (m ∷ rest) w c s =
      and_then-Quiet closed sent (Fallback.cloexec_fds h (fds m) w) _
        (fallback_cloexec-Quiet (fds m) w c s) λ _ v c' s'. fallback_received-Quiet rest v c' s'

  -- Setting close-on-exec closes and sends nothing, on every target and in every outcome.
  pub cloexec_fds-Quiet :
      (owned : List ℕ) (w : World h)
      → w.closed ≡ closed
      → w.sent ≡ sent
      → Quiet closed sent (cloexec_fds h owned w)
  unfolding cloexec_fds
  cloexec_fds-Quiet owned w c s = elim (Bool-cases (has_cmsg_cloexec h.target.target_os)) [
    | inl e ↦ rw e (c, s)
    | inr e ↦ rw e (fallback_cloexec-Quiet owned w c s)
  ]

  pub cloexec_received-Quiet :
      (messages : List ReceivedMessage) (w : World h)
      → w.closed ≡ closed
      → w.sent ≡ sent
      → Quiet closed sent (cloexec_received h messages w)
  unfolding cloexec_received
  cloexec_received-Quiet messages w c s = elim (Bool-cases (has_cmsg_cloexec h.target.target_os)) [
    | inl e ↦ rw e (c, s)
    | inr e ↦ rw e (fallback_received-Quiet messages w c s)
  ]

  -- The budget of a receive is asked for quietly too.
  pub max_recv_fds-Quiet :
      (w : World h) → w.closed ≡ closed → w.sent ≡ sent → Quiet closed sent (max_recv_fds h w)
  unfolding max_recv_fds Fallback.max_recv_fds
  max_recv_fds-Quiet w c s = elim (Bool-cases (has_cmsg_cloexec h.target.target_os)) [
    | inl e ↦ rw e (c, s)
    | inr e ↦ rw e (go (h.getrlimit_nofile w.kernel))
  ]
    where
      go : (a : Option ℕ × h.Kernel) → Quiet closed sent (Fallback.clamped h a w)
      go (none, k) = (c, s)
      go (some cur, k) = (c, s)

module _ (h : Host) where
  fallback_cloexec-append :
      (xs ys : List ℕ) (w : World h)
      → Fallback.cloexec_fds h (xs ++ ys) w
        ≡ and_then (Fallback.cloexec_fds h xs w) (λ _. Fallback.cloexec_fds h ys)
  unfolding Fallback.cloexec_fds
  fallback_cloexec-append [] ys w = refl
  fallback_cloexec-append (x ∷ xs) ys w =
      ap (and_then (set_cloexec h x w)) (fun_ext λ _. fun_ext λ v. fallback_cloexec-append xs ys v)
      ∙ sym (and_then_assoc (set_cloexec h x w) _ _)

  -- The fallback on a batch of messages is the fallback on their descriptors in order.
  fallback_received-fds_of :
      (messages : List ReceivedMessage) (w : World h)
      → Fallback.cloexec_received h messages w ≡ Fallback.cloexec_fds h (fds_of messages) w
  unfolding Fallback.cloexec_received
  fallback_received-fds_of [] w = unfold Fallback.cloexec_fds in refl
  fallback_received-fds_of (m ∷ rest) w =
      ap (and_then (Fallback.cloexec_fds h (fds m) w))
        (fun_ext λ _. fun_ext λ v. fallback_received-fds_of rest v)
      ∙ sym (fallback_cloexec-append (fds m) (fds_of rest) w)

  -- On every target, cloexec_received on a list of messages is cloexec_fds on their descriptors in
  -- order, with the same calls, results and errors.
  pub cloexec_received-fds_of :
      (messages : List ReceivedMessage) (w : World h)
      → cloexec_received h messages w ≡ cloexec_fds h (fds_of messages) w
  unfolding cloexec_received cloexec_fds
  cloexec_received-fds_of messages w = elim (Bool-cases (has_cmsg_cloexec h.target.target_os)) [
    | inl e ↦ rw e refl
    | inr e ↦ rw e (fallback_received-fds_of messages w)
  ]

-- What `fcntl` does to close-on-exec: `F_GETFD` and a setting `F_SETFD` leave it on where it is on,
-- and a successful setting `F_SETFD` turns it on.
pub record Fcntl (h : Host) (IsCloexec : h.Kernel → ℕ → Type 0) : Type 0 where
  pub getfd_keeps :
      (fd other : ℕ) (k : h.Kernel) → IsCloexec k other → IsCloexec (h.fcntl_getfd fd k).1 other
  pub setfd_keeps :
      (fd other flags : ℕ) (k : h.Kernel)
      → IsCloexec k other
      → IsCloexec (h.fcntl_setfd fd (bit_or flags h.target.fd_cloexec) k).1 other
  pub setfd_sets :
      (fd flags n : ℕ) (k k' : h.Kernel)
      → h.fcntl_setfd fd (bit_or flags h.target.fd_cloexec) k ≡ (ret n, k')
      → IsCloexec k' fd

module _ (h : Host) (IsCloexec : h.Kernel → ℕ → Type 0) (f : Fcntl h IsCloexec) where
  abbrev KeepsCloexec : World h → World h → Type 0
  KeepsCloexec w v = (other : ℕ) → IsCloexec w.kernel other → IsCloexec v.kernel other

  set_cloexec_sets :
      (fd : ℕ) (w v : World h)
      → set_cloexec h fd w ≡ ok tt v
      → IsCloexec v.kernel fd × KeepsCloexec w v
  unfolding set_cloexec
  set_cloexec_sets fd w v e =
      let got = and_then-eq-ok (sys (h.fcntl_getfd fd) w) _ e in
      let flags = got.0 in
      let call = h.fcntl_setfd fd (bit_or flags h.target.fd_cloexec) in
      let set = and_then-eq-ok (sys call got.1) _ got.3 in
      let same : set.1.kernel ≡ v.kernel = ap (λ u. u.kernel) (ok-world set.3) in
      let answer : call got.1.kernel ≡ (ret set.0, v.kernel) =
        sys-ok call set.0 got.1 set.1 set.2 ∙ ap (λ k. (ret set.0, k)) same in
      (
        f.setfd_sets fd flags set.0 got.1.kernel v.kernel answer,
        λ other on.
            subst (λ k. IsCloexec k other) (ap (λ r. r.1) answer)
              (f.setfd_keeps fd other flags got.1.kernel (
                subst (λ k. IsCloexec k other)
                  (ap (λ r. r.1) (sys-ok (h.fcntl_getfd fd) flags w got.1 got.2))
                  (f.getfd_keeps fd other w.kernel on))),
      )

  fallback-IsCloexec :
      (owned : List ℕ) (w v : World h)
      → Fallback.cloexec_fds h owned w ≡ ok tt v
      → All (IsCloexec v.kernel) owned × KeepsCloexec w v
  unfolding Fallback.cloexec_fds
  fallback-IsCloexec [] w v e =
      (tt, λ other on. subst (λ u. IsCloexec u.kernel other) (ok-world e) on)
  fallback-IsCloexec (fd ∷ rest) w v e =
      let first = and_then-eq-ok (set_cloexec h fd w) _ e in
      let one = set_cloexec_sets fd w first.1 first.2 in
      let more = fallback-IsCloexec rest first.1 v first.3 in
      ((more.1 fd one.0, more.0), λ other on. more.1 other (one.1 other on))

  -- On a target without MSG_CMSG_CLOEXEC, with a kernel whose F_GETFD and setting F_SETFD leave
  -- close-on-exec on where it is on and whose successful setting F_SETFD turns it on, every
  -- descriptor of a batch has close-on-exec on after cloexec_fds succeeds on the batch.
  pub cloexec_fds_sets :
      (owned : List ℕ) (w v : World h)
      → has_cmsg_cloexec h.target.target_os ≡ false
      → cloexec_fds h owned w ≡ ok tt v
      → All (IsCloexec v.kernel) owned
  unfolding cloexec_fds
  cloexec_fds_sets owned w v none_there e = (fallback-IsCloexec owned w v (rw none_there at e)).0
