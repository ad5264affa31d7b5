-- ===== src/Target.antt =====
-- What the crate takes from `libc` and from the compile target: the layout of `struct cmsghdr`, the
-- `CMSG_*` macros, the constants, the error kinds. None of it is code of the crate, so it is a
-- parameter; `IsTarget` names the documented behaviour that the proofs rest on.
pub mod Linux
use unix_ancillary.Base.{ℕ, ◌+◌, ◌^◌, ◌≤◌, ◌<◌, ◌≢◌, Bool}

-- The target families that the `cfg` attributes tell apart: Linux and Android; FreeBSD, DragonFly,
-- NetBSD and OpenBSD; Apple; every other Unix.
pub data TargetOs : Type 0 where
  linux bsd apple other_unix : TargetOs

-- `std::io::ErrorKind`, as far as the crate and its examples look at it or make it.
pub data ErrorKind : Type 0 where
  interrupted would_block invalid_input invalid_data write_zero broken_pipe timed_out other_kind :
      ErrorKind

pub record Target : Type 0 where
  pub target_os : TargetOs
  pub usize_bits : ℕ
  pub align_of_usize : ℕ
  pub big_endian : Bool
  -- `struct cmsghdr`: its size, the offsets of its fields, and the width of `cmsg_len`.
  pub size_of_cmsghdr : ℕ
  pub len_at : ℕ
  pub len_width : ℕ
  -- The width of `msg_controllen` of `struct msghdr`.
  pub controllen_bits : ℕ
  pub level_at : ℕ
  pub type_at : ℕ
  pub libc_cmsg_len : ℕ → ℕ
  pub libc_cmsg_space : ℕ → ℕ
  pub sol_socket : ℕ
  pub scm_rights : ℕ
  pub scm_credentials : ℕ
  pub msg_ctrunc : ℕ
  pub msg_trunc : ℕ
  pub msg_peek : ℕ
  pub msg_cmsg_cloexec : ℕ
  pub msg_nosignal : ℕ
  pub fd_cloexec : ℕ
  pub so_passcred : ℕ
  pub so_nosigpipe : ℕ
  pub rlim_infinity : ℕ
  pub einval : ℕ
  pub epipe : ℕ
  -- `io::Error::kind` of a raw OS error.
  pub errno_kind : ℕ → ErrorKind

abbrev pub i32_max : ℕ
i32_max = 0x7fff_ffff

-- `SCM_PIDFD`, which the crate writes out.
abbrev pub scm_pidfd : ℕ
scm_pidfd = 0x04

-- `mem::size_of::<RawFd>()`; a `RawFd` is an `i32`.
abbrev pub size_of_raw_fd : ℕ
size_of_raw_fd = 4

-- The header's fields lie in it one behind the other, `CMSG_LEN` covers the header, `CMSG_SPACE`
-- covers `CMSG_LEN` and grows with the payload, and the constants are `c_int`s.
pub record IsTarget (t : Target) : Type 0 where
  pub len_before_level : t.len_at + t.len_width ≤ t.level_at
  pub level_before_type : t.level_at + 4 ≤ t.type_at
  pub type_inside : t.type_at + 4 ≤ t.size_of_cmsghdr
  pub len_covers_header : t.size_of_cmsghdr ≤ t.libc_cmsg_len 0
  pub space_covers_len : (n : ℕ) → n ≤ i32_max → t.libc_cmsg_len 0 + n ≤ t.libc_cmsg_space n
  pub space_grows : (m n : ℕ) → m ≤ n → n ≤ i32_max → t.libc_cmsg_space m ≤ t.libc_cmsg_space n
  -- `CMSG_SPACE` answers a `c_uint`, which `usize` and the types of `cmsg_len` and
  -- `msg_controllen` can hold.
  pub space_c_uint : (n : ℕ) → n ≤ i32_max → t.libc_cmsg_space n < 2 ^ 32
  pub usize_wide : 2 ^ 32 ≤ 2 ^ t.usize_bits
  pub cmsg_len_wide : 2 ^ 32 ≤ 256 ^ t.len_width
  pub controllen_wide : 2 ^ 32 ≤ 2 ^ t.controllen_bits
  pub sol_socket_c_int : t.sol_socket < 2 ^ 32
  pub scm_rights_c_int : t.scm_rights < 2 ^ 32
  pub scm_credentials_c_int : t.scm_credentials < 2 ^ 32
  pub rights-ne-pidfd : t.scm_rights ≢ scm_pidfd
  pub rights-ne-credentials : t.scm_rights ≢ t.scm_credentials
  pub credentials-ne-pidfd : t.scm_credentials ≢ scm_pidfd
