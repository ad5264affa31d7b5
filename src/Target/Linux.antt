-- ===== src/Target/Linux.antt =====
-- Linux on x86-64 as a target, with the values that glibc and the kernel publish: the concrete
-- parameter of the examples.
use unix_ancillary.Base.{ℕ, ◌+◌, ◌*◌, ◌/◌, false, arith, ◌==◌, if◌then◌else◌}
use unix_ancillary.Target.{Target, IsTarget, TargetOs, ErrorKind}

-- `CMSG_ALIGN` on a 64-bit target.
abbrev pub align_up : ℕ → ℕ
align_up n = (n + 7) / 8 * 8

abbrev pub linux_errno_kind : ℕ → ErrorKind
linux_errno_kind e =
    if e == 4
    then ErrorKind.interrupted
    else if e == 11
    then ErrorKind.would_block
    else if e == 22
    then ErrorKind.invalid_input
    else if e == 32
    then ErrorKind.broken_pipe
    else ErrorKind.other_kind

abbrev pub x86_64_linux : Target
x86_64_linux = record {
  target_os = TargetOs.linux;
  usize_bits = 64;
  align_of_usize = 8;
  big_endian = false;
  size_of_cmsghdr = 16;
  len_at = 0;
  len_width = 8;
  controllen_bits = 64;
  level_at = 8;
  type_at = 12;
  libc_cmsg_len = λ n. 16 + n;
  libc_cmsg_space = λ n. 16 + align_up n;
  sol_socket = 1;
  scm_rights = 1;
  scm_credentials = 2;
  msg_ctrunc = 8;
  msg_trunc = 0x20;
  msg_peek = 2;
  msg_cmsg_cloexec = 0x4000_0000;
  msg_nosignal = 0x4000;
  fd_cloexec = 1;
  so_passcred = 16;
  so_nosigpipe = 0;
  rlim_infinity = 0xffff_ffff_ffff_ffff;
  einval = 22;
  epipe = 32;
  errno_kind = linux_errno_kind;
}

pub x86_64_linux-IsTarget : IsTarget x86_64_linux
x86_64_linux-IsTarget = record {
  len_before_level = omega arith;
  level_before_type = omega arith;
  type_inside = omega arith;
  len_covers_header = omega arith;
  space_covers_len = λ n h. omega arith;
  space_grows = λ m n le h. omega arith;
  space_c_uint = λ n h. omega arith;
  usize_wide = omega arith;
  cmsg_len_wide = omega arith;
  controllen_wide = omega arith;
  sol_socket_c_int = omega arith;
  scm_rights_c_int = omega arith;
  scm_credentials_c_int = omega arith;
  rights-ne-pidfd = omega arith;
  rights-ne-credentials = omega arith;
  credentials-ne-pidfd = omega arith;
}
