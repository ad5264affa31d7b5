-- ===== src/Ancillary/Buffer/Encode.antt =====
-- The bytes of a control message described from outside, for `reserve_cmsg` and `RawMessages` of
-- src/ancillary.rs.
use unix_ancillary.Base.{
  ℕ, ◌+◌, ◌^◌, ◌≤◌, ◌<◌, ◌≡◌, refl, ap, ◌∙◌, List, [], ◌∷◌, ◌++◌, take, drop, length, arith,
  length-append, length-take, take-append, drop-append, drop_all, All, some, min,
}
use unix_ancillary.Bytes.{Bytes, from_ne_bytes, write_at, read_at}
use unix_ancillary.Bytes.Laws.{
  length-write_at, from_ne_bytes-to_ne_bytes, read_at-write_before, read_at-append,
}
use unix_ancillary.Bytes.Nested.{take-write_at_end}
use unix_ancillary.Target.{Target, IsTarget, i32_max}
use unix_ancillary.Ancillary.Layout.{header_len, cmsg_space, cmsg_space-some}
use unix_ancillary.Ancillary.Raw.{RawMessage, raw_next, remaining_after}
use unix_ancillary.Ancillary.Raw.Parse.{
  Parses, stop, more, raw_messages, raw_messages-Parses, Parses-unique,
}
use unix_ancillary.Ancillary.Buffer.{header_bytes}
use unix_ancillary.Ancillary.Buffer.Header.{
  length-header_bytes, header_len_field, header_level_field, header_type_field,
}

-- A message that a header can describe.
pub record IsEncodable (t : Target) (m : RawMessage) : Type 0 where
  pub level_c_int : m.level < 256 ^ 4
  pub kind_c_int : m.kind < 256 ^ 4
  pub short : length m.payload ≤ i32_max
  pub len_fits : header_len t + length m.payload < 256 ^ t.len_width

-- The message in `CMSG_SPACE` zeroed bytes: its header, and its payload behind the header.
unfoldable pub encode_cmsg : Target → RawMessage → Bytes
encode_cmsg t m = write_at (header_len t) m.payload (
    header_bytes t (t.libc_cmsg_space (length m.payload)) m.level m.kind
      (header_len t + length m.payload))

abbrev pub encode_all : Target → List RawMessage → Bytes
encode_all t [] = []
encode_all t (m ∷ ms) = encode_cmsg t m ++ encode_all t ms

pub length-encode_cmsg :
    (t : Target) (m : RawMessage) → length (encode_cmsg t m) ≡ t.libc_cmsg_space (length m.payload)
unfolding encode_cmsg
length-encode_cmsg t m =
    length-write_at (header_len t) m.payload _ ∙ length-header_bytes t _ m.level m.kind _

-- One step of the parser on a buffer that holds a whole message.
raw_next_whole :
    (t : Target) (bytes : Bytes) (total level kind : ℕ) (payload : Bytes)
    → t.size_of_cmsghdr ≤ length bytes
    → from_ne_bytes t.big_endian (read_at t.len_at t.len_width bytes) ≡ total
    → header_len t ≤ total
    → total ≤ length bytes
    → from_ne_bytes t.big_endian (read_at t.level_at 4 bytes) ≡ level
    → from_ne_bytes t.big_endian (read_at t.type_at 4 bytes) ≡ kind
    → drop (header_len t) (take total bytes) ≡ payload
    → raw_next t bytes ≡ (
      some (record { level = level; kind = kind; payload = payload }),
      remaining_after (cmsg_space t (length payload)) bytes,
    )
unfolding raw_next
raw_next_whole t bytes total level kind payload big len_is lo hi level_is kind_is payload_is =
    rw (len_is, level_is, kind_is, whole, payload_is) (ground arith)
  where
    whole : min total (length bytes) ≡ total
    whole = omega arith

module _ (t : Target) (v : IsTarget t) (m : RawMessage) (w : IsEncodable t m) where
  abbrev space : ℕ
  space = t.libc_cmsg_space (length m.payload)

  abbrev total : ℕ
  total = header_len t + length m.payload

  abbrev plain : Bytes
  plain = header_bytes t space m.level m.kind total

  total-le-space : total ≤ space
  unfolding header_len
  total-le-space = v.space_covers_len (length m.payload) w.short

  -- A field of the header, read from the message with anything behind it.
  encode_cmsg_field :
      (o k : ℕ) (rest : Bytes)
      → o + k ≤ t.size_of_cmsghdr
      → read_at o k (encode_cmsg t m ++ rest) ≡ read_at o k plain
  unfolding encode_cmsg
  encode_cmsg_field o k rest h =
      let inside : o + k ≤ header_len t = unfold header_len in omega (arith, v.len_covers_header) in
      read_at-append o k (encode_cmsg t m) rest
        (omega (arith, length-encode_cmsg t m, total-le-space))
      ∙ read_at-write_before o k (header_len t) m.payload plain inside

  encode_cmsg_payload :
      (rest : Bytes) → drop (header_len t) (take total (encode_cmsg t m ++ rest)) ≡ m.payload
  unfolding encode_cmsg
  encode_cmsg_payload rest =
      let front : Bytes = take (header_len t) plain in
      let front_len : length front ≡ header_len t = omega (
        arith,
        length-take (header_len t) plain,
        length-header_bytes t space m.level m.kind total,
        total-le-space,
      ) in
      ap (drop (header_len t)) (
        take-append total (encode_cmsg t m) rest
          (omega (arith, length-encode_cmsg t m, total-le-space))
        ∙ take-write_at_end (header_len t) total m.payload plain refl
            (omega (arith, length-header_bytes t space m.level m.kind total, total-le-space)))
      ∙ drop-append (header_len t) front m.payload (omega arith)
      ∙ ap (λ bs. bs ++ m.payload) (drop_all (header_len t) front (omega arith))

  remaining_after-encode_cmsg :
      (rest : Bytes)
      → remaining_after (cmsg_space t (length m.payload)) (encode_cmsg t m ++ rest) ≡ rest
  unfolding remaining_after
  remaining_after-encode_cmsg rest =
      rw (cmsg_space-some t (length m.payload) w.short, remaining_after)
        (ground (
          arith,
          length-append (encode_cmsg t m) rest,
          length-encode_cmsg t m,
          drop-append space (encode_cmsg t m) rest,
          drop_all space (encode_cmsg t m),
        ))

  -- The parser takes exactly the message off the front.
  pub raw_next-encode_cmsg : (rest : Bytes) → raw_next t (encode_cmsg t m ++ rest) ≡ (some m, rest)
  raw_next-encode_cmsg rest =
      raw_next_whole t (encode_cmsg t m ++ rest) total m.level m.kind m.payload
        (unfold header_len in
          omega (
            arith,
            v.len_covers_header,
            length-append (encode_cmsg t m) rest,
            length-encode_cmsg t m,
            total-le-space,
          ))
        (ap (from_ne_bytes t.big_endian) (
            encode_cmsg_field t.len_at t.len_width rest
              (omega (arith, v.len_before_level, v.level_before_type, v.type_inside))
            ∙ header_len_field t v space m.level m.kind total (omega (arith, total-le-space)))
          ∙ from_ne_bytes-to_ne_bytes t.big_endian t.len_width total w.len_fits)
        (omega arith)
        (omega
          (arith, length-append (encode_cmsg t m) rest, length-encode_cmsg t m, total-le-space))
        (ap (from_ne_bytes t.big_endian) (
            encode_cmsg_field t.level_at 4 rest (omega (arith, v.level_before_type, v.type_inside))
            ∙ header_level_field t v space m.level m.kind total (omega (arith, total-le-space)))
          ∙ from_ne_bytes-to_ne_bytes t.big_endian 4 m.level w.level_c_int)
        (ap (from_ne_bytes t.big_endian) (
            encode_cmsg_field t.type_at 4 rest v.type_inside
            ∙ header_type_field t v space m.level m.kind total (omega (arith, total-le-space)))
          ∙ from_ne_bytes-to_ne_bytes t.big_endian 4 m.kind w.kind_c_int)
        (encode_cmsg_payload rest)
      ∙ ap (λ r. (some m, r)) (remaining_after-encode_cmsg rest)

-- On a target whose constants obey IsTarget, the iterator yields back any list of messages whose
-- header fields fit their widths from their encoding one behind the other.
pub raw_messages-encode_all :
    (t : Target) (ms : List RawMessage)
    → IsTarget t
    → All (IsEncodable t) ms
    → raw_messages t (encode_all t ms) ≡ ms
raw_messages-encode_all t ms v h =
    Parses-unique t (encode_all t ms) (raw_messages t (encode_all t ms)) ms
      (raw_messages-Parses t (encode_all t ms) v) (encoded ms h)
  where
    encoded : (ns : List RawMessage) → All (IsEncodable t) ns → Parses t (encode_all t ns) ns
    encoded [] g = stop {bytes = []} {rest = []} (unfold raw_next in ground (arith, v.type_inside))
    encoded (n ∷ ns) g = more (raw_next-encode_cmsg t v n g.0 (encode_all t ns)) (encoded ns g.1)
