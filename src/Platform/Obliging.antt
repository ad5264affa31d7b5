-- ===== src/Platform/Obliging.antt =====
-- src/platform.rs over a kernel that does what `cloexec_fds` and `max_recv_fds` ask of it.
use unix_ancillary.Base.{
  ℕ, ◌≤◌, ◌≡◌, refl, false, Option, none, some, List, [], ◌∷◌, Bool-cases, inl, inr, arith, bit_or,
}
use unix_ancillary.System.{Host, World, ok, ret}
use unix_ancillary.Platform.{has_cmsg_cloexec, cloexec_fds, max_recv_fds}
use unix_ancillary.Platform.Fallback
use unix_ancillary.Platform.Fallback.{set_cloexec, clamp_nofile, hard_ceiling}
use unix_ancillary.Platform.Laws.{clamp_nofile_bounds}

-- `fcntl` succeeds, and reading the limit on descriptors changes nothing.
pub record Obliging (h : Host) : Type 0 where
  pub getfd :
      (fd : ℕ) (k : h.Kernel) → (n : ℕ) × (k' : h.Kernel) × (h.fcntl_getfd fd k ≡ (ret n, k'))
  pub setfd :
      (fd flags : ℕ) (k : h.Kernel)
      → (n : ℕ) × (k' : h.Kernel) × (h.fcntl_setfd fd flags k ≡ (ret n, k'))
  pub limit : (k : h.Kernel) → (cur : Option ℕ) × (h.getrlimit_nofile k ≡ (cur, k))

module _ (h : Host) (oblige : has_cmsg_cloexec h.target.target_os ≡ false → Obliging h) where
  module _ (o : Obliging h) where
    fallback_sets :
        (fds : List ℕ) (w : World h)
        → (k : h.Kernel) × (Fallback.cloexec_fds h fds w ≡ ok tt (record w { kernel = k }))
    unfolding Fallback.cloexec_fds set_cloexec
    fallback_sets [] w = (w.kernel, refl)
    fallback_sets (fd ∷ rest) w =
        let (flags, k, got) = o.getfd fd w.kernel in
        let (n, k', set) = o.setfd fd (bit_or flags h.target.fd_cloexec) k in
        let (k'', later) = fallback_sets rest (record w { kernel = k' }) in
        (k'', rw (got, set) later)

    fallback_budget :
        (w : World h) → (b : ℕ) × (b ≤ hard_ceiling) × (Fallback.max_recv_fds h w ≡ ok b w)
    unfolding Fallback.max_recv_fds
    fallback_budget w = go (o.limit w.kernel).0 (o.limit w.kernel).1
      where
        go :
            (cur : Option ℕ)
            → h.getrlimit_nofile w.kernel ≡ (cur, w.kernel)
            → (b : ℕ) × (b ≤ hard_ceiling) × (Fallback.max_recv_fds h w ≡ ok b w)
        go none e = (hard_ceiling, omega arith, rw e refl)
        go (some cur) e =
            (clamp_nofile h.target cur, (clamp_nofile_bounds h.target cur).1, rw e refl)

  pub cloexec_fds_succeeds :
      (fds : List ℕ) (w : World h)
      → (k : h.Kernel) × (cloexec_fds h fds w ≡ ok tt (record w { kernel = k }))
  unfolding cloexec_fds
  cloexec_fds_succeeds fds w = elim (Bool-cases (has_cmsg_cloexec h.target.target_os)) [
    | inl e ↦ (w.kernel, rw e refl)
    | inr e ↦ let (k, done) = fallback_sets (oblige e) fds w in (k, rw e done)
  ]

  pub max_recv_fds_succeeds :
      (w : World h) → (b : ℕ) × (b ≤ hard_ceiling) × (max_recv_fds h w ≡ ok b w)
  unfolding max_recv_fds
  max_recv_fds_succeeds w = elim (Bool-cases (has_cmsg_cloexec h.target.target_os)) [
    | inl e ↦ (253, omega arith, rw e refl)
    | inr e ↦ let (b, small, done) = fallback_budget (oblige e) w in (b, small, rw e done)
  ]
