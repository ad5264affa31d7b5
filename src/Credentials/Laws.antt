-- ===== src/Credentials/Laws.antt =====
-- The socket option of src/credentials.rs, written and read back.
use unix_ancillary.Base.{ℕ, arith, ◌≤◌, ◌≡◌, ◌==◌, not, refl, subst, Bool, true, false}
use unix_ancillary.System.{Host, World, ok, SysRet, ret, errno, settled, and_then}
use unix_ancillary.System.Quiet.{ok-world}
use unix_ancillary.Credentials.{from_bool, option_value, set_passcred, passcred}

-- The kernel keeps the flag: `getsockopt` of `SO_PASSCRED` answers the 0 or 1 that `setsockopt` set.
pub record PasscredFlag (h : Host) : Type 0 where
  pub reads_back :
      (fd value n : ℕ) (k k' : h.Kernel)
      → value ≤ 1
      → h.setsockopt fd h.target.sol_socket h.target.so_passcred value k ≡ (ret n, k')
      → (m : ℕ) × (k'' : h.Kernel) × (h.getsockopt fd h.target.sol_socket h.target.so_passcred k'
          ≡ (ret m, value, k''))

module _ (h : Host) (law : PasscredFlag h) where
  -- With a kernel whose getsockopt of SO_PASSCRED answers the 0 or 1 that setsockopt set, passcred
  -- reads back what a successful set_passcred of the same socket set, and the two calls close and
  -- send nothing.
  pub passcred-set_passcred :
      (sock : ℕ) (on : Bool) (w u : World h)
      → set_passcred h sock on w ≡ ok tt u
      → (u' : World h) × (passcred h sock u ≡ ok on u')
        × (u'.closed ≡ w.closed)
        × (u'.sent ≡ w.sent)
  unfolding set_passcred passcred
  passcred-set_passcred sock on w u e =
      go (h.setsockopt sock level option (from_bool on) w.kernel) refl e
    where
      level : ℕ
      level = h.target.sol_socket

      option : ℕ
      option = h.target.so_passcred

      read : (v : Bool) → not (from_bool v == 0) ≡ v
      read true = refl
      read false = refl

      flag : (v : Bool) → from_bool v ≤ 1
      flag true = omega arith
      flag false = omega arith

      go :
          (a : SysRet × h.Kernel)
          → h.setsockopt sock level option (from_bool on) w.kernel ≡ a
          → and_then (settled a w) (λ n. ok tt) ≡ ok tt u
          → (u' : World h) × (option_value h (h.getsockopt sock level option u.kernel) u ≡ ok on u')
            × (u'.closed ≡ w.closed)
            × (u'.sent ≡ w.sent)
      go (errno x, k) is d = cc
      go (ret n, k) is d =
          let same : record w { kernel = k } ≡ u = ok-world d in
          let (m, k'', got) = law.reads_back sock (from_bool on) n w.kernel k (flag on) is in
          subst
            (λ x.
              (u' : World h) × (option_value h (h.getsockopt sock level option x.kernel) x
                ≡ ok on u')
              × (u'.closed ≡ w.closed)
              × (u'.sent ≡ w.sent))
            same (record w { kernel = k'' }, rw (got, read on) refl, refl, refl)
