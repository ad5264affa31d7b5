-- ===== src/Ancillary/Layout.antt =====
-- Sizes of control messages (`header_len`, `cmsg_space`, `buffer_size_for_*` of src/ancillary.rs).
use unix_ancillary.Base.Options.{◌>>=◌, when}
use unix_ancillary.Base.{
  ℕ, ◌+◌, ◌*◌, ◌^◌, ◌≤◌, ◌<◌, ◌≡◌, Option, none, some, leb, ltb, if◌then◌else◌, arith,
}
use unix_ancillary.Target.{Target, i32_max, size_of_raw_fd}

-- `usize::checked_add` and `usize::checked_mul`.
unfoldable pub checked_add : Target → ℕ → ℕ → Option ℕ
checked_add t a b = if ltb (a + b) (2 ^ t.usize_bits) then some (a + b) else none

unfoldable pub checked_mul : Target → ℕ → ℕ → Option ℕ
checked_mul t a b = if ltb (a * b) (2 ^ t.usize_bits) then some (a * b) else none

unfoldable pub header_len : Target → ℕ
header_len t = t.libc_cmsg_len 0

-- `u32::try_from(n).ok()`, then `filter(|&n| n <= i32::MAX as u32)`.
unfoldable pub cmsg_space : Target → ℕ → Option ℕ
cmsg_space t payload_len = do
  n ← when (ltb payload_len (2 ^ 32)) payload_len
  k ← when (leb n i32_max) n
  some (t.libc_cmsg_space k)

-- `none` is the panic of `expect`.
unfoldable pub buffer_size_for_rights : Target → ℕ → Option ℕ
unfolding checked_mul cmsg_space
buffer_size_for_rights t num_fds = checked_mul t num_fds size_of_raw_fd >>= cmsg_space t

-- `ScmCredentials::SIZE`: a `ucred` is three consecutive 32-bit integers.
abbrev pub size_of_ucred : ℕ
size_of_ucred = 12

unfoldable pub buffer_size_for_credentials : Target → Option ℕ
unfolding cmsg_space
buffer_size_for_credentials t = cmsg_space t size_of_ucred

module _ (t : Target) where
  -- `cmsg_space` answers exactly up to `i32::MAX`.
  pub cmsg_space-some : (n : ℕ) → n ≤ i32_max → cmsg_space t n ≡ some (t.libc_cmsg_space n)
  unfolding cmsg_space
  cmsg_space-some n h = ground arith

  pub cmsg_space-none : (n : ℕ) → i32_max < n → cmsg_space t n ≡ none
  unfolding cmsg_space
  cmsg_space-none n h = ground arith

  pub cmsg_space_inv :
      (n s : ℕ) → cmsg_space t n ≡ some s → (n ≤ i32_max) × (s ≡ t.libc_cmsg_space n)
  unfolding cmsg_space
  cmsg_space_inv n s e = ground arith
