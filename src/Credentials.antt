-- ===== src/Credentials.antt =====
-- src/credentials.rs: the credentials that a process claims, and `set_passcred` and `passcred`, the
-- socket option that makes the kernel attach the sender's.
pub mod Laws
use unix_ancillary.Base.{ℕ, Bool, true, false, not, ◌==◌}
use unix_ancillary.Ancillary.Raw.{ScmCredentials}
use unix_ancillary.System.{Host, World, Run, ok, err, os_error, SysRet, ret, errno, sys, ◌>>◌}

-- `i32::from(on)`
abbrev pub from_bool : Bool → ℕ
from_bool true = 1
from_bool false = 0

-- `ScmCredentials::new`
abbrev pub new : ℕ → ℕ → ℕ → ScmCredentials
new pid uid gid = record { pid = pid; uid = uid; gid = gid }

module _ (h : Host) where
  -- The kernel's answers are the same on every call, so the state stays as it is.
  unfoldable pub for_this_process : World h → ScmCredentials
  for_this_process w = record {
    pid = h.getpid w.kernel;
    uid = h.getuid w.kernel;
    gid = h.getgid w.kernel;
  }

  unfoldable pub set_passcred : ℕ → Bool → Run h (Unit {0})
  set_passcred sock on =
      sys (h.setsockopt sock h.target.sol_socket h.target.so_passcred (from_bool on)) >> ok tt

  abbrev pub option_value : SysRet × ℕ × h.Kernel → Run h Bool
  option_value (ret n, value, k) w = ok (not (value == 0)) (record w { kernel = k })
  option_value (errno e, value, k) w = err (os_error e) (record w { kernel = k })

  unfoldable pub passcred : ℕ → Run h Bool
  passcred sock w =
      option_value (h.getsockopt sock h.target.sol_socket h.target.so_passcred w.kernel) w
