-- ===== src/Bytes.antt =====
-- Byte buffers as lists of numbers below 256: integers in native byte order, and reads and writes
-- at an offset. They stand for the pointer accesses and slices of src/ancillary.rs.
pub mod Laws
pub mod Nested
pub mod Octets
use mathlib.Core.List.{reverse}
use unix_ancillary.Base.{
  ℕ, zero, suc, ◌+◌, ◌*◌, ◌/◌, ◌%◌, ◌<◌, Bool, List, [], ◌∷◌, ◌++◌, take, drop, if◌then◌else◌,
}

abbrev pub Bytes : Type 0
Bytes = List ℕ

-- The `w` low bytes of `v`, lowest first, and the number that such bytes spell.
unfoldable pub le_bytes : ℕ → ℕ → Bytes
le_bytes zero v = []
le_bytes (suc w) v = (v % 256) ∷ le_bytes w (v / 256)

unfoldable pub le_value : Bytes → ℕ
le_value [] = 0
le_value (b ∷ bs) = b + 256 * le_value bs

-- `to_ne_bytes` and `from_ne_bytes` of a `w`-byte integer, by the byte order of the target.
unfoldable pub to_ne_bytes : Bool → ℕ → ℕ → Bytes
unfolding le_bytes
to_ne_bytes big w v = if big then reverse (le_bytes w v) else le_bytes w v

unfoldable pub from_ne_bytes : Bool → Bytes → ℕ
unfolding le_value
from_ne_bytes big bs = if big then le_value (reverse bs) else le_value bs

-- `bs` over the first bytes of a buffer; what does not fit is not written.
unfoldable pub overlay : Bytes → Bytes → Bytes
overlay [] buf = buf
overlay (b ∷ bs) [] = []
overlay (b ∷ bs) (x ∷ buf) = b ∷ overlay bs buf

unfoldable pub write_at : ℕ → Bytes → Bytes → Bytes
unfolding overlay
write_at zero bs buf = overlay bs buf
write_at (suc o) bs [] = []
write_at (suc o) bs (x ∷ buf) = x ∷ write_at o bs buf

abbrev pub read_at : ℕ → ℕ → Bytes → Bytes
read_at o w buf = take w (drop o buf)
