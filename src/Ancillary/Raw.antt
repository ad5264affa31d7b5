-- ===== src/Ancillary/Raw.antt =====
-- The byte parser of src/ancillary.rs: `RawMessage` and the iterator `RawMessages`.
pub mod Parse
use unix_ancillary.Base.{
  ℕ, zero, suc, ◌+◌, ◌^◌, Bool, true, false, ◌&&◌, ◌||◌, not, Option, none, some, List, [], ◌∷◌,
  map, filter, length, take, drop, min, ltb, leb, ◌==◌, if◌then◌else◌, dec_lt,
}
use unix_ancillary.Bytes.{Bytes, from_ne_bytes, read_at}
use unix_ancillary.Target.{Target}
use unix_ancillary.Ancillary.Layout.{header_len, cmsg_space, size_of_ucred}

pub record RawMessage : Type 0 where
  pub level : ℕ
  pub kind : ℕ
  pub payload : Bytes

-- The credentials of src/credentials.rs, with the `ucred` conversions of `from_ucred`.
pub record ScmCredentials : Type 0 where
  pub pid : ℕ
  pub uid : ℕ
  pub gid : ℕ

-- `chunks_exact(size_of::<RawFd>())`: the bytes that fill no chunk are left out.
unfoldable pub chunks_exact : Bytes → List Bytes
chunks_exact (a ∷ b ∷ c ∷ d ∷ rest) = (a ∷ b ∷ c ∷ d ∷ []) ∷ chunks_exact rest
chunks_exact _ = []

-- A `RawFd` is kept as its 32-bit pattern, so `fd >= 0` is that the top bit is clear.
abbrev pub non_negative : List ℕ → List ℕ
non_negative = filter (λ fd. dec_lt fd (2 ^ 31))

unfoldable pub rights : Target → RawMessage → List ℕ
unfolding chunks_exact from_ne_bytes
rights t m = non_negative (map (from_ne_bytes t.big_endian) (chunks_exact m.payload))

unfoldable pub from_ucred : Target → Bytes → ScmCredentials
from_ucred t bytes = record {
  pid = from_ne_bytes t.big_endian (read_at 0 4 bytes);
  uid = from_ne_bytes t.big_endian (read_at 4 4 bytes);
  gid = from_ne_bytes t.big_endian (read_at 8 4 bytes);
}

unfoldable pub credentials : Target → RawMessage → Option ScmCredentials
credentials t m =
    if not (m.level == t.sol_socket)
      || not (m.kind == t.scm_credentials)
      || ltb (length m.payload) size_of_ucred
    then none
    else some (from_ucred t m.payload)

-- `cmsg_space(len).filter(|&next| next <= bytes.len())`, and the bytes from there on.
unfoldable pub remaining_after : Option ℕ → Bytes → Bytes
remaining_after none bytes = []
remaining_after (some next) bytes = if leb next (length bytes) then drop next bytes else []

-- `RawMessages::next`. The state of the iterator is `remaining`.
unfoldable pub raw_next : Target → Bytes → Option RawMessage × Bytes
raw_next t bytes =
    if ltb (length bytes) t.size_of_cmsghdr
    then (none, [])
    else let total = from_ne_bytes t.big_endian (read_at t.len_at t.len_width bytes) in
      let end = min total (length bytes) in
      if ltb end (header_len t)
      then (none, [])
      else let payload = drop (header_len t) (take end bytes) in
        (
          some (record {
            level = from_ne_bytes t.big_endian (read_at t.level_at 4 bytes);
            kind = from_ne_bytes t.big_endian (read_at t.type_at 4 bytes);
            payload = payload;
          }),
          remaining_after (cmsg_space t (length payload)) bytes,
        )

abbrev pub is_rights : Target → RawMessage → Bool
is_rights t m = (m.level == t.sol_socket) && (m.kind == t.scm_rights)
