-- ===== src/Platform/Fallback.antt =====
-- `mod fallback` of src/platform.rs: `FD_CLOEXEC` by `fcntl`, the budget from `RLIMIT_NOFILE`, and
-- the error of `SO_NOSIGPIPE`.
use unix_ancillary.Base.{
  ℕ, ◌^◌, Option, none, some, List, [], ◌∷◌, ltb, ◌==◌, if◌then◌else◌, bit_or,
}
use unix_ancillary.Target.{Target}
use unix_ancillary.System.{Host, Run, ok, IoError, os_error, custom, ◌>>=◌, ◌>>◌, sys}
use unix_ancillary.Ancillary.Buffer.{ReceivedMessage, fds}

abbrev pub hard_ceiling : ℕ
hard_ceiling = 0x10_0000

abbrev pub hard_floor : ℕ
hard_floor = 253

-- `Ord::clamp`
abbrev clamp : ℕ → ℕ → ℕ → ℕ
clamp n lo hi = if ltb n lo then lo else if ltb hi n then hi else n

unfoldable pub clamp_nofile : Target → ℕ → ℕ
clamp_nofile t cur =
    let n =
      if cur == t.rlim_infinity
      then hard_ceiling
      else if ltb cur (2 ^ t.usize_bits)
      then cur
      else hard_ceiling in
    clamp n hard_floor hard_ceiling

unfoldable pub nosigpipe_error : Target → IoError → IoError
nosigpipe_error t (os_error e) = if e == t.einval then os_error t.epipe else os_error e
nosigpipe_error t (custom k) = custom k

module _ (h : Host) where
  unfoldable pub set_cloexec : ℕ → Run h (Unit {0})
  set_cloexec fd = do
    flags ← sys (h.fcntl_getfd fd)
    sys (h.fcntl_setfd fd (bit_or flags h.target.fd_cloexec)) >> ok tt

  unfoldable pub cloexec_fds : List ℕ → Run h (Unit {0})
  cloexec_fds [] = ok tt
  cloexec_fds (fd ∷ rest) = set_cloexec fd >> cloexec_fds rest

  unfoldable pub cloexec_received : List ReceivedMessage → Run h (Unit {0})
  unfolding cloexec_fds
  cloexec_received [] = ok tt
  cloexec_received (m ∷ rest) = cloexec_fds (fds m) >> cloexec_received rest

  abbrev pub clamped : Option ℕ × h.Kernel → Run h ℕ
  clamped (none, k) w = ok hard_ceiling (record w { kernel = k })
  clamped (some cur, k) w = ok (clamp_nofile h.target cur) (record w { kernel = k })

  unfoldable pub max_recv_fds : Run h ℕ
  max_recv_fds w = clamped (h.getrlimit_nofile w.kernel) w
