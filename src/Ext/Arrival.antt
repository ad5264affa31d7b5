-- ===== src/Ext/Arrival.antt =====
-- A message that `recvmsg` delivers whole, and what src/ancillary.rs reads from its control bytes.
use unix_ancillary.Base.{
  ℕ, ◌+◌, ◌*◌, ◌≤◌, ◌<◌, ◌≡◌, refl, true, false, List, [], ◌∷◌, ◌++◌, take, length, map, arith, All,
  if◌then◌else◌, bit_or, append-nil,
}
use unix_ancillary.Bytes.{Bytes}
use unix_ancillary.Target.{Target, IsTarget, i32_max}
use unix_ancillary.System.{Host, MsgHdr, received}
use unix_ancillary.Platform.{recv_flags}
use unix_ancillary.Ancillary.Layout.{header_len, size_of_ucred}
use unix_ancillary.Ancillary.Raw.{RawMessage, ScmCredentials, is_rights}
use unix_ancillary.Ancillary.Buffer.{to_ucred}
use unix_ancillary.Ancillary.Buffer.Encode.{IsEncodable, encode_all}
use unix_ancillary.Ancillary.Buffer.Refine.{fds_bytes, length-fds_bytes}
use unix_ancillary.Ancillary.Buffer.Append.{rights_message, credentials_message, length-to_ucred}
use unix_ancillary.Ancillary.Buffer.RoundTrip.{IsFd, rights-rights_message}
use unix_ancillary.Ancillary.Take.{is_linux, is_pidfd}
use unix_ancillary.Ancillary.Take.Owned.{delivered, pidfds}
use unix_ancillary.Cmsg.{has_flag}
use unix_ancillary.Cmsg.Retry.{Answers, recv_interrupted}

-- The control messages that a kernel writes: the sender's credentials where they are asked for, and
-- the descriptors that it installed.
abbrev pub message : Target → List ℕ → List ScmCredentials → List RawMessage
message t installed creds = map (credentials_message t) creds ++ (rights_message t installed ∷ [])

-- `CMSG_SPACE` for `count` descriptors, and for credentials on Linux.
abbrev pub room : Target → ℕ → ℕ
room t n =
    t.libc_cmsg_space (n * 4)
    + (if is_linux t.target_os then t.libc_cmsg_space size_of_ucred else 0)

-- After fewer interruptions than the bound on retries `recvmsg` delivers `n` bytes and the control
-- messages `ms`, and reports no truncation.
pub record Arrival (h : Host) (fd : ℕ) (iov : List Bytes) (buf : Bytes) (k : h.Kernel)
    (ms : List RawMessage) (n : ℕ) (filled : List Bytes) : Type 0 where
  pub interruptions : ℕ
  pub hdr : MsgHdr
  pub after : h.Kernel
  pub few : interruptions < h.retries
  pub answers :
      Answers h
        (h.recvmsg fd iov buf (bit_or (recv_flags h.target) 0))
        (recv_interrupted h)
        interruptions
        k
        (received n hdr)
        after
  pub inside : hdr.controllen ≤ length hdr.control
  pub encoded : take hdr.controllen hdr.control ≡ encode_all h.target ms
  pub whole_control : has_flag hdr.flags h.target.msg_ctrunc ≡ false
  pub whole_data : has_flag hdr.flags h.target.msg_trunc ≡ false
  pub payload : hdr.iov ≡ filled

module _ (t : Target) (v : IsTarget t) where
  rights-IsEncodable :
      (fds : List ℕ) → length fds * 4 ≤ i32_max → IsEncodable t (rights_message t fds)
  rights-IsEncodable fds few =
      let n : ℕ = length fds * 4 in
      let size : length (fds_bytes t fds) ≡ n = length-fds_bytes t fds in
      record {
        level_c_int = omega (arith, v.sol_socket_c_int);
        kind_c_int = omega (arith, v.scm_rights_c_int);
        short = omega (arith, size, few);
        len_fits =
            unfold header_len in
            omega (arith, size, v.space_covers_len n few, v.space_c_uint n few, v.cmsg_len_wide);
      }

  credentials-IsEncodable : (creds : ScmCredentials) → IsEncodable t (credentials_message t creds)
  credentials-IsEncodable creds =
      let size : length (to_ucred t creds) ≡ 12 = length-to_ucred t creds in
      record {
        level_c_int = omega (arith, v.sol_socket_c_int);
        kind_c_int = omega (arith, v.scm_credentials_c_int);
        short = omega (arith, size);
        len_fits =
            unfold header_len in
            omega (
              arith,
              size,
              v.space_covers_len 12 (omega arith),
              v.space_c_uint 12 (omega arith),
              v.cmsg_len_wide,
            );
      }

  pub message-IsEncodable :
      (installed : List ℕ) (creds : List ScmCredentials)
      → length installed * 4 ≤ i32_max
      → All (IsEncodable t) (message t installed creds)
  message-IsEncodable installed [] few = (rights-IsEncodable installed few, tt)
  message-IsEncodable installed (c ∷ cs) few =
      (credentials-IsEncodable c, message-IsEncodable installed cs few)

  pub delivered-message :
      (installed : List ℕ) (creds : List ScmCredentials)
      → All IsFd installed
      → delivered t (message t installed creds) ≡ installed
  delivered-message installed [] small =
      let self : is_rights t (rights_message t installed) ≡ true = ground arith in
      rw (self, rights-rights_message t installed small) (append-nil installed)
  delivered-message installed (c ∷ cs) small =
      let other : is_rights t (credentials_message t c) ≡ false =
        ground (arith, v.rights-ne-credentials) in
      rw other (delivered-message installed cs small)

  pub pidfds-message :
      (installed : List ℕ) (creds : List ScmCredentials) → pidfds t (message t installed creds) ≡ []
  pidfds-message installed [] =
      let other : is_pidfd t (rights_message t installed) ≡ false =
        ground (arith, v.rights-ne-pidfd) in
      rw other refl
  pidfds-message installed (c ∷ cs) =
      let other : is_pidfd t (credentials_message t c) ≡ false =
        ground (arith, v.credentials-ne-pidfd) in
      rw other (pidfds-message installed cs)
