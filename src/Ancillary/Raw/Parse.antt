-- ===== src/Ancillary/Raw/Parse.antt =====
-- The messages that the iterator `RawMessages` of src/ancillary.rs yields, as a relation and as a
-- function.
use unix_ancillary.Base.{
  ℕ, zero, suc, ◌+◌, ◌≤◌, ◌<◌, ◌≡◌, refl, ap, sym, subst, ◌∙◌, ◌⊎◌, inl, inr, Option, none, some,
  List, [], ◌∷◌, length, length-drop, length-take, take, drop, arith, Option-cases, min,
}
use unix_ancillary.Bytes.{Bytes, from_ne_bytes, read_at}
use unix_ancillary.Target.{Target, IsTarget}
use unix_ancillary.Ancillary.Layout.{header_len, cmsg_space, cmsg_space_inv}
use unix_ancillary.Ancillary.Raw.{RawMessage, raw_next, remaining_after}

-- `bytes` yields the messages `ms` and then `None`.
pub data Parses (t : Target) : Bytes → List RawMessage → Type 0 where
  stop : {bytes rest : Bytes} → raw_next t bytes ≡ (none, rest) → Parses t bytes []
  more :
      {bytes rest : Bytes} {m : RawMessage} {ms : List RawMessage}
      → raw_next t bytes ≡ (some m, rest)
      → Parses t rest ms
      → Parses t bytes (m ∷ ms)

abbrev pub yielded : (Bytes → List RawMessage) → Option RawMessage × Bytes → List RawMessage
yielded later (none, rest) = []
yielded later (some m, rest) = m ∷ later rest

unfoldable pub collect : Target → ℕ → Bytes → List RawMessage
collect t zero bytes = []
collect t (suc fuel) bytes = yielded (collect t fuel) (raw_next t bytes)

unfoldable pub raw_messages : Target → Bytes → List RawMessage
unfolding collect
raw_messages t bytes = collect t (suc (length bytes)) bytes

remaining_after-shrinks :
    (t : Target) (n : ℕ) (bytes : Bytes)
    → IsTarget t
    → header_len t + n ≤ length bytes
    → header_len t + n + length (remaining_after (cmsg_space t n) bytes) ≤ length bytes
unfolding remaining_after header_len
remaining_after-shrinks t n bytes v h = elim (Option-cases (cmsg_space t n)) [
  | inl e ↦ rw (e, remaining_after) (omega arith)
  | inr (s, e) ↦
      let (small, at) = cmsg_space_inv t n s e in
      rw (e, remaining_after) (ground (arith, length-drop s bytes, at, small, v.space_covers_len n))
]

-- On a target whose constants obey IsTarget, when next yields a message, its header, its payload
-- and the bytes left for the next call together are no longer than the bytes it was given.
pub raw_next-fits :
    (t : Target) (bytes rest : Bytes) (m : RawMessage)
    → IsTarget t
    → raw_next t bytes ≡ (some m, rest)
    → header_len t + length m.payload + length rest ≤ length bytes
unfolding raw_next
raw_next-fits t bytes rest m v e =
    let total = from_ne_bytes t.big_endian (read_at t.len_at t.len_width bytes) in
    let end = min total (length bytes) in
    let payload = drop (header_len t) (take end bytes) in
    ground (
      arith,
      remaining_after-shrinks t (length payload) bytes v,
      length-drop (header_len t) (take end bytes),
      length-take end bytes,
    )

pub header_len_pos : (t : Target) → IsTarget t → 0 < header_len t
unfolding header_len
header_len_pos t v = omega (arith, v.len_covers_header, v.type_inside)

raw_next-cases :
    (t : Target) (bytes : Bytes)
    → ((rest : Bytes) × (raw_next t bytes ≡ (none, rest)))
      ⊎ ((m : RawMessage) × (rest : Bytes) × (raw_next t bytes ≡ (some m, rest)))
raw_next-cases t bytes = go (raw_next t bytes) refl
  where
    go :
        (r : Option RawMessage × Bytes)
        → raw_next t bytes ≡ r
        → ((rest : Bytes) × (raw_next t bytes ≡ (none, rest)))
          ⊎ ((m : RawMessage) × (rest : Bytes) × (raw_next t bytes ≡ (some m, rest)))
    go (none, rest) e = inl (rest, e)
    go (some m, rest) e = inr (m, rest, e)

collect-Parses :
    (t : Target) (fuel : ℕ) (bytes : Bytes)
    → IsTarget t
    → length bytes < fuel
    → Parses t bytes (collect t fuel bytes)
unfolding collect
collect-Parses t zero bytes v h = elim h [ ]
collect-Parses t (suc fuel) bytes v h = elim (raw_next-cases t bytes) [
  | inl (rest, e) ↦ rw (e, collect) (stop e)
  | inr (m, rest, e) ↦
      rw (e, collect)
        (more e (
          collect-Parses t fuel rest v
            (omega (arith, raw_next-fits t bytes rest m v e, header_len_pos t v))))
]

-- On a target whose constants obey IsTarget and on every byte string, calling next again and again
-- yields the messages of raw_messages and then None.
pub raw_messages-Parses :
    (t : Target) (bytes : Bytes) → IsTarget t → Parses t bytes (raw_messages t bytes)
unfolding raw_messages
raw_messages-Parses t bytes v = collect-Parses t (suc (length bytes)) bytes v (omega arith)

-- It yields one list only.
pub Parses-unique :
    (t : Target) (bytes : Bytes) (ms ns : List RawMessage)
    → Parses t bytes ms
    → Parses t bytes ns
    → ms ≡ ns
Parses-unique t bytes ms ns (stop e) (stop d) = refl
Parses-unique t bytes ms ns (stop e) (more d q) = cc
Parses-unique t bytes ms ns (more e p) (stop d) = cc
Parses-unique t bytes ms ns (more {rest = rest} {m = m} {ms = ms'} e p)
      (more {rest = rest'} {m = m'} {ms = ns'} d q) =
    let same : rest' ≡ rest = ap (λ r. r.1) (sym d ∙ e) in
    cc (sym e ∙ d, Parses-unique t rest ms' ns' p (subst (λ r. Parses t r ns') same q))

-- The bytes that messages take in a buffer, alignment aside.
abbrev pub taken : Target → List RawMessage → ℕ
taken t [] = 0
taken t (m ∷ ms) = header_len t + length m.payload + taken t ms

pub Parses-taken :
    (t : Target) (bytes : Bytes) (ms : List RawMessage)
    → IsTarget t
    → Parses t bytes ms
    → taken t ms ≤ length bytes
Parses-taken t bytes ms v (stop e) = omega arith
Parses-taken t bytes ms v (more {rest = rest} {m = m} {ms = ns} e p) =
    omega (arith, raw_next-fits t bytes rest m v e, Parses-taken t rest ns v p)
