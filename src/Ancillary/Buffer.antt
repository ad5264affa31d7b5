-- ===== src/Ancillary/Buffer.antt =====
-- `SocketAncillary` of src/ancillary.rs: caller storage in which control messages are built for a
-- send, or whose received messages are kept until they are drained.
pub mod Header
pub mod Encode
pub mod Refine
pub mod Append
pub mod Capacity
pub mod Fits
pub mod RoundTrip
use unix_ancillary.Base.{
  ℕ, zero, suc, ◌+◌, ◌*◌, ◌^◌, Bool, true, false, not, List, [], ◌∷◌, ◌++◌, length, replicate, ltb,
  leb, ◌==◌, if◌then◌else◌,
}
use unix_ancillary.Base.Options.{when}
use unix_ancillary.Base.Results.{Result, ok, err, ◌>>=◌, ◌>>◌, ok_or, guard}
use unix_ancillary.Bytes.{Bytes, to_ne_bytes, write_at}
use unix_ancillary.Target.{Target, size_of_raw_fd}
use unix_ancillary.Ancillary.Layout.{
  header_len, cmsg_space, checked_add, checked_mul, size_of_ucred,
}
use unix_ancillary.Ancillary.Raw.{ScmCredentials}

pub data AncillaryError : Type 0 where
  ancillary_error : AncillaryError

pub data ReceivedMessage : Type 0 where
  rights : List ℕ → ReceivedMessage
  credentials : ScmCredentials → ReceivedMessage

-- `ReceivedMessage::fds`
abbrev pub fds : ReceivedMessage → List ℕ
fds (rights owned) = owned
fds (credentials creds) = []

pub record SocketAncillary : Type 0 where
  pub buffer : Bytes
  pub filled : ℕ
  pub truncated : Bool
  pub received : List ReceivedMessage
  pub receive_mode : Bool

-- The source's field `length` is `filled`.
unfoldable pub new : Bytes → SocketAncillary
new buffer = record {
  buffer = buffer;
  filled = 0;
  truncated = false;
  received = [];
  receive_mode = false;
}

-- `bytes.fill(0)` over `space` bytes, and the header's fields written one by one.
unfoldable pub header_bytes : Target → ℕ → ℕ → ℕ → ℕ → Bytes
header_bytes t space level kind cmsg_len =
    let zeroed = replicate space 0 in
    let leveled = write_at t.level_at (to_ne_bytes t.big_endian 4 level) zeroed in
    let typed = write_at t.type_at (to_ne_bytes t.big_endian 4 kind) leveled in
    write_at t.len_at (to_ne_bytes t.big_endian t.len_width cmsg_len) typed

-- Returns the offset of the payload in the buffer in place of the slice.
unfoldable pub reserve_cmsg :
    Target → SocketAncillary → ℕ → ℕ → ℕ → Result (SocketAncillary × ℕ) AncillaryError
reserve_cmsg t a level kind payload_len = do
  guard (not a.receive_mode) ancillary_error
  space ← ok_or (cmsg_space t payload_len) ancillary_error
  end ← ok_or (checked_add t a.filled space) ancillary_error
  guard (leb end (length a.buffer)) ancillary_error
  message_len ← ok_or (checked_add t (header_len t) payload_len) ancillary_error
  cmsg_len ← ok_or (when (ltb message_len (256 ^ t.len_width)) message_len) ancillary_error
  ok (
    record a {
      filled = end;
      buffer = write_at a.filled (header_bytes t space level kind cmsg_len) a.buffer;
    },
    a.filled + header_len t,
  )

-- The loop over `chunks_exact_mut` of the payload, zipped with the descriptors.
unfoldable pub write_fds : Target → ℕ → List ℕ → Bytes → Bytes
write_fds t at [] buffer = buffer
write_fds t at (fd ∷ rest) buffer =
    write_fds t (at + size_of_raw_fd) rest (write_at at (to_ne_bytes t.big_endian 4 fd) buffer)

unfoldable pub encode_rights :
    Target → SocketAncillary → List ℕ → Result SocketAncillary AncillaryError
encode_rights t a raw_fds = do
  len ← ok_or (checked_mul t (length raw_fds) size_of_raw_fd) ancillary_error
  (reserved, at) ← reserve_cmsg t a t.sol_socket t.scm_rights len
  ok (record reserved { buffer = write_fds t at raw_fds reserved.buffer })

unfoldable pub add_rights :
    Target → SocketAncillary → List ℕ → Result SocketAncillary AncillaryError
add_rights t a raw_fds =
    if a.receive_mode
    then err ancillary_error
    else if length raw_fds == 0
    then ok a
    else encode_rights t a raw_fds

-- `add_fds` reads the descriptor numbers off the borrowed descriptors, which are numbers here.
unfoldable pub add_fds : Target → SocketAncillary → List ℕ → Result SocketAncillary AncillaryError
unfolding add_rights
add_fds t a borrowed = add_rights t a borrowed

-- `to_ucred`, as the bytes of the struct.
unfoldable pub to_ucred : Target → ScmCredentials → Bytes
to_ucred t creds =
    to_ne_bytes t.big_endian 4 creds.pid
    ++ (to_ne_bytes t.big_endian 4 creds.uid ++ to_ne_bytes t.big_endian 4 creds.gid)

unfoldable pub add_credentials :
    Target → SocketAncillary → ScmCredentials → Result SocketAncillary AncillaryError
add_credentials t a creds = do
  (reserved, at) ← reserve_cmsg t a t.sol_socket t.scm_credentials size_of_ucred
  ok (record reserved { buffer = write_at at (to_ucred t creds) reserved.buffer })

abbrev pub is_truncated : SocketAncillary → Bool
is_truncated a = a.truncated
