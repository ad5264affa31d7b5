-- ===== src/Ancillary/Buffer/Fits.antt =====
-- The room that `add_rights` of src/ancillary.rs asks for, and the size that `buffer_size_for_rights`
-- computes.
use unix_ancillary.Base.{
  ℕ, ◌+◌, ◌*◌, ◌^◌, ◌≤◌, ◌<◌, ◌≡◌, refl, List, ◌∷◌, length, replicate, arith, some, false, ◌↔◌,
  length-replicate,
}
use unix_ancillary.Base.Results.{ok}
use unix_ancillary.Bytes.{write_at}
use unix_ancillary.Target.{Target, IsTarget, i32_max}
use unix_ancillary.Ancillary.Layout.{
  header_len, cmsg_space, checked_add, checked_mul, buffer_size_for_rights,
}
use unix_ancillary.Ancillary.Buffer.{
  SocketAncillary, new, reserve_cmsg, encode_rights, add_rights, header_bytes, write_fds,
}
use unix_ancillary.Ancillary.Buffer.Refine.{reserve_cmsg-Reserved}
use unix_ancillary.Ancillary.Buffer.Append.{encode_rights-inv}

-- The message has room behind what is already there, and `CMSG_SPACE` can measure it.
pub record Fits (t : Target) (a : SocketAncillary) (n : ℕ) : Type 0 where
  pub short : n ≤ i32_max
  pub room : a.filled + t.libc_cmsg_space n ≤ length a.buffer

-- The buffer after a message of `n` payload bytes is reserved.
abbrev reserved : Target → SocketAncillary → ℕ → ℕ → ℕ → SocketAncillary
reserved t a level kind n =
    let space = t.libc_cmsg_space n in
    record a {
      filled = a.filled + space;
      buffer = write_at a.filled (header_bytes t space level kind (header_len t + n)) a.buffer;
    }

module _ (t : Target) (v : IsTarget t) (a : SocketAncillary) (sending : a.receive_mode ≡ false)
    (addressable : length a.buffer < 2 ^ t.usize_bits) where
  reserve_cmsg_accepts :
      (level kind n : ℕ)
      → Fits t a n
      → reserve_cmsg t a level kind n ≡ ok (reserved t a level kind n, a.filled + header_len t)
  unfolding reserve_cmsg checked_add cmsg_space header_len
  reserve_cmsg_accepts level kind n f = ground (
    arith,
    f.short,
    f.room,
    v.space_covers_len n f.short,
    v.space_c_uint n f.short,
    v.usize_wide,
    v.cmsg_len_wide,
  )

  -- On a target whose constants obey IsTarget, for a buffer in send mode that usize can address,
  -- add_rights of at least one descriptor succeeds exactly when the payload is at most i32::MAX
  -- bytes long and its CMSG_SPACE fits behind what the buffer already holds.
  pub add_rights_iff :
      (fd : ℕ) (rest : List ℕ)
      → ((b : SocketAncillary) × (add_rights t a (fd ∷ rest) ≡ ok b))
        ↔ Fits t a (length (fd ∷ rest) * 4)
  unfolding add_rights encode_rights checked_mul
  add_rights_iff fd rest =
      let n : ℕ = length (fd ∷ rest) * 4 in
      (
        λ s.
            let inv = encode_rights-inv t a (fd ∷ rest) s.0 (ground (arith, s.1, sending)) in
            let r = reserve_cmsg-Reserved t a t.sol_socket t.scm_rights n inv.0 inv.1 inv.2 in
            record { short = r.short; room = r.fits },
        λ f.
            let b = reserved t a t.sol_socket t.scm_rights n in
            (
              record b { buffer = write_fds t (a.filled + header_len t) (fd ∷ rest) b.buffer },
              ground (
                arith,
                sending,
                f.short,
                reserve_cmsg_accepts t.sol_socket t.scm_rights n f,
                v.usize_wide,
              ),
            ),
      )

-- On a target whose constants obey IsTarget, when buffer_size_for_rights answers a size for at
-- least one descriptor, add_rights of that many descriptors to a fresh zeroed buffer of that size
-- succeeds.
pub buffer_size_for_rights_enough :
    (t : Target) (fd : ℕ) (rest : List ℕ) (size : ℕ)
    → IsTarget t
    → buffer_size_for_rights t (length (fd ∷ rest)) ≡ some size
    → (b : SocketAncillary) × (add_rights t (new (replicate size 0)) (fd ∷ rest) ≡ ok b)
unfolding buffer_size_for_rights checked_mul cmsg_space new
buffer_size_for_rights_enough t fd rest size v e =
    let n : ℕ = length (fd ∷ rest) * 4 in
    let short : n ≤ i32_max = ground arith in
    let is_size : size ≡ t.libc_cmsg_space n = ground arith in
    (add_rights_iff t v (new (replicate size 0)) refl
        (omega (arith, length-replicate {A = ℕ} size 0, v.space_c_uint n short, v.usize_wide)) fd
        rest).1
      (record { short = short; room = omega (arith, length-replicate {A = ℕ} size 0) })
