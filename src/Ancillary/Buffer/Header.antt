-- ===== src/Ancillary/Buffer/Header.antt =====
-- The header that `reserve_cmsg` of src/ancillary.rs writes, read field by field.
use unix_ancillary.Base.{ℕ, ◌≤◌, ◌≡◌, ◌∙◌, length, replicate, arith, length-replicate}
use unix_ancillary.Bytes.{Bytes, to_ne_bytes, write_at, read_at}
use unix_ancillary.Bytes.Laws.{
  length-write_at, length-to_ne_bytes, read_at-write_at, read_at-write_before, read_at-write_after,
}
use unix_ancillary.Target.{Target, IsTarget}
use unix_ancillary.Ancillary.Layout.{header_len}
use unix_ancillary.Ancillary.Buffer.{header_bytes}

pub length-header_bytes :
    (t : Target) (space level kind cmsg_len : ℕ)
    → length (header_bytes t space level kind cmsg_len) ≡ space
unfolding header_bytes
length-header_bytes t space level kind cmsg_len =
    length-write_at t.len_at _ _
    ∙ length-write_at t.type_at _ _
    ∙ length-write_at t.level_at _ _
    ∙ length-replicate space 0

module _ (t : Target) (v : IsTarget t) (space level kind cmsg_len : ℕ)
    (h : header_len t ≤ space) where
  abbrev leveled : Bytes
  leveled = write_at t.level_at (to_ne_bytes t.big_endian 4 level) (replicate space 0)

  abbrev typed : Bytes
  typed = write_at t.type_at (to_ne_bytes t.big_endian 4 kind) leveled

  abbrev header : Bytes
  header = header_bytes t space level kind cmsg_len

  pub header_len_field :
      read_at t.len_at t.len_width header ≡ to_ne_bytes t.big_endian t.len_width cmsg_len
  unfolding header_bytes header_len
  header_len_field =
      read_at-write_at t.len_at t.len_width _ typed
        (length-to_ne_bytes t.big_endian t.len_width cmsg_len)
        (omega (
          arith,
          v.len_before_level,
          v.level_before_type,
          v.type_inside,
          v.len_covers_header,
          length-write_at t.type_at (to_ne_bytes t.big_endian 4 kind) leveled,
          length-write_at t.level_at (to_ne_bytes t.big_endian 4 level) (replicate space 0),
          length-replicate {A = ℕ} space 0,
        ))

  pub header_level_field : read_at t.level_at 4 header ≡ to_ne_bytes t.big_endian 4 level
  unfolding header_bytes header_len
  header_level_field =
      read_at-write_after t.level_at 4 t.len_at (to_ne_bytes t.big_endian t.len_width cmsg_len)
        typed
        (omega (arith, v.len_before_level, length-to_ne_bytes t.big_endian t.len_width cmsg_len))
      ∙ read_at-write_before t.level_at 4 t.type_at (to_ne_bytes t.big_endian 4 kind) leveled
          v.level_before_type
      ∙ read_at-write_at t.level_at 4 _ (replicate space 0)
          (length-to_ne_bytes t.big_endian 4 level)
          (omega (
            arith,
            v.level_before_type,
            v.type_inside,
            v.len_covers_header,
            length-replicate {A = ℕ} space 0,
          ))

  pub header_type_field : read_at t.type_at 4 header ≡ to_ne_bytes t.big_endian 4 kind
  unfolding header_bytes header_len
  header_type_field =
      read_at-write_after t.type_at 4 t.len_at (to_ne_bytes t.big_endian t.len_width cmsg_len) typed
        (omega (
          arith,
          v.len_before_level,
          v.level_before_type,
          length-to_ne_bytes t.big_endian t.len_width cmsg_len,
        ))
      ∙ read_at-write_at t.type_at 4 _ leveled (length-to_ne_bytes t.big_endian 4 kind) (
          omega (
            arith,
            v.type_inside,
            v.len_covers_header,
            length-write_at t.level_at (to_ne_bytes t.big_endian 4 level) (replicate space 0),
            length-replicate {A = ℕ} space 0,
          ))
