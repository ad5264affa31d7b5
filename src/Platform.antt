-- ===== src/Platform.antt =====
-- src/platform.rs: what the crate does differently from one target to another. The fallback is for
-- targets without `MSG_CMSG_CLOEXEC`.
pub mod Fallback
pub mod Laws
pub mod Obliging
use unix_ancillary.Base.{
  ℕ, ◌+◌, ◌^◌, Bool, true, false, Option, none, some, List, [], ◌∷◌, ltb, ◌==◌, if◌then◌else◌,
  bit_or,
}
use unix_ancillary.Target.{Target, TargetOs}
use unix_ancillary.System.{
  Host, World, Run, Exit, ok, err, SysRet, ret, errno, IoError, os_error, custom, ◌>>=◌, ◌>>◌,
}
use unix_ancillary.Ancillary.Buffer.{ReceivedMessage}
use Fallback
use Fallback.{nosigpipe_error}

-- Targets with `MSG_CMSG_CLOEXEC` and `MSG_NOSIGNAL`, by the `cfg` of `mod inner`.
abbrev pub has_cmsg_cloexec : TargetOs → Bool
has_cmsg_cloexec TargetOs.linux = true
has_cmsg_cloexec TargetOs.bsd = true
has_cmsg_cloexec TargetOs.apple = false
has_cmsg_cloexec TargetOs.other_unix = false

abbrev pub recv_flags : Target → ℕ
recv_flags t = if has_cmsg_cloexec t.target_os then t.msg_cmsg_cloexec else 0

abbrev pub send_flags : Target → ℕ
send_flags t = if has_cmsg_cloexec t.target_os then t.msg_nosignal else 0

module _ (h : Host) where
  unfoldable pub cloexec_fds : List ℕ → Run h (Unit {0})
  cloexec_fds owned =
      if has_cmsg_cloexec h.target.target_os then ok tt else Fallback.cloexec_fds h owned

  unfoldable pub cloexec_received : List ReceivedMessage → Run h (Unit {0})
  cloexec_received messages =
      if has_cmsg_cloexec h.target.target_os then ok tt else Fallback.cloexec_received h messages

  unfoldable pub max_recv_fds : Run h ℕ
  max_recv_fds = if has_cmsg_cloexec h.target.target_os then ok 253 else Fallback.max_recv_fds h

  -- `SO_NOSIGPIPE` on Apple; nothing elsewhere.
  abbrev pub checked_nosigpipe : SysRet × h.Kernel → Run h (Unit {0})
  checked_nosigpipe (ret n, k) w = ok tt (record w { kernel = k })
  checked_nosigpipe (errno e, k) w =
      err (nosigpipe_error h.target (os_error e)) (record w { kernel = k })

  unfoldable pub prepare_send : ℕ → Run h (Unit {0})
  prepare_send fd w = elim h.target.target_os [
    | TargetOs.apple ↦
        checked_nosigpipe (h.setsockopt fd h.target.sol_socket h.target.so_nosigpipe 1 w.kernel) w
    | _ ↦ ok tt w
  ]
