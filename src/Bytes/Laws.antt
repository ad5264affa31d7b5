-- ===== src/Bytes/Laws.antt =====
-- Laws of the byte buffers: integers survive a round trip through their bytes, a write is read back
-- where it was made and nowhere else.
use mathlib.Core.List.{reverse, reverse-reverse, reverse-cons}
use unix_ancillary.Base.{
  ℕ, zero, suc, ◌+◌, ◌/◌, ◌^◌, ◌≤◌, ◌<◌, ◌≡◌, refl, ap, ◌∙◌, Bool, true, false, List, [], ◌∷◌, ◌++◌,
  take, drop, length, length-append, length-drop, arith, take-append, drop-append,
}
use unix_ancillary.Bytes.{
  Bytes, le_bytes, le_value, to_ne_bytes, from_ne_bytes, overlay, write_at, read_at,
}

pub length-reverse {ℓ} : {A : Type ℓ} (xs : List A) → length (reverse xs) ≡ length xs
length-reverse [] = refl
length-reverse (x ∷ xs) =
    omega
      (arith, ap length (reverse-cons x xs), length-append (reverse xs) (x ∷ []), length-reverse xs)

length-le_bytes : (w v : ℕ) → length (le_bytes w v) ≡ w
unfolding le_bytes
length-le_bytes zero v = refl
length-le_bytes (suc w) v = ap suc (length-le_bytes w (v / 256))

pub length-to_ne_bytes : (big : Bool) (w v : ℕ) → length (to_ne_bytes big w v) ≡ w
unfolding to_ne_bytes
length-to_ne_bytes true w v = length-reverse (le_bytes w v) ∙ length-le_bytes w v
length-to_ne_bytes false w v = length-le_bytes w v

le_value-le_bytes : (w v : ℕ) → v < 256 ^ w → le_value (le_bytes w v) ≡ v
unfolding le_bytes le_value
le_value-le_bytes zero v h = omega arith
le_value-le_bytes (suc w) v h = omega (arith, le_value-le_bytes w (v / 256) (omega arith))

-- An integer that fits `w` bytes survives the trip through them, in either byte order.
pub from_ne_bytes-to_ne_bytes :
    (big : Bool) (w v : ℕ) → v < 256 ^ w → from_ne_bytes big (to_ne_bytes big w v) ≡ v
unfolding to_ne_bytes from_ne_bytes
from_ne_bytes-to_ne_bytes true w v h = rw reverse-reverse (le_value-le_bytes w v h)
from_ne_bytes-to_ne_bytes false w v h = le_value-le_bytes w v h

length-overlay : (bs buf : Bytes) → length (overlay bs buf) ≡ length buf
unfolding overlay
length-overlay [] buf = refl
length-overlay (b ∷ bs) [] = refl
length-overlay (b ∷ bs) (x ∷ buf) = ap suc (length-overlay bs buf)

pub length-write_at : (o : ℕ) (bs buf : Bytes) → length (write_at o bs buf) ≡ length buf
unfolding write_at
length-write_at zero bs buf = length-overlay bs buf
length-write_at (suc o) bs [] = refl
length-write_at (suc o) bs (x ∷ buf) = ap suc (length-write_at o bs buf)

take-overlay : (bs buf : Bytes) → length bs ≤ length buf → take (length bs) (overlay bs buf) ≡ bs
unfolding overlay
take-overlay [] buf h = refl
take-overlay (b ∷ bs) [] h = elim h [ ]
take-overlay (b ∷ bs) (x ∷ buf) h = ap (◌∷◌ b) (take-overlay bs buf (omega arith))

drop-overlay : (k : ℕ) (bs buf : Bytes) → length bs ≤ k → drop k (overlay bs buf) ≡ drop k buf
unfolding overlay
drop-overlay k [] buf h = refl
drop-overlay k (b ∷ bs) [] h = refl
drop-overlay zero (b ∷ bs) (x ∷ buf) h = elim h [ ]
drop-overlay (suc k) (b ∷ bs) (x ∷ buf) h = drop-overlay k bs buf (omega arith)

pub read_at-write_at :
    (o w : ℕ) (bs buf : Bytes)
    → length bs ≡ w
    → o + w ≤ length buf
    → read_at o w (write_at o bs buf) ≡ bs
unfolding write_at
read_at-write_at zero w bs buf e h = rw (← e) (take-overlay bs buf (omega arith))
read_at-write_at (suc o) w bs [] e h = absurd (omega arith)
read_at-write_at (suc o) w bs (x ∷ buf) e h = read_at-write_at o w bs buf e (omega arith)

-- A read that ends where the write begins, or before.
pub take-write_at : (k o : ℕ) (bs buf : Bytes) → k ≤ o → take k (write_at o bs buf) ≡ take k buf
unfolding write_at
take-write_at zero o bs buf h = refl
take-write_at (suc k) zero bs buf h = elim h [ ]
take-write_at (suc k) (suc o) bs [] h = refl
take-write_at (suc k) (suc o) bs (x ∷ buf) h = ap (◌∷◌ x) (take-write_at k o bs buf (omega arith))

pub read_at-write_before :
    (p w o : ℕ) (bs buf : Bytes) → p + w ≤ o → read_at p w (write_at o bs buf) ≡ read_at p w buf
unfolding write_at
read_at-write_before zero w o bs buf h = take-write_at w o bs buf (omega arith)
read_at-write_before (suc p) w zero bs buf h = absurd (omega arith)
read_at-write_before (suc p) w (suc o) bs [] h = refl
read_at-write_before (suc p) w (suc o) bs (x ∷ buf) h =
    read_at-write_before p w o bs buf (omega arith)

-- A read that begins where the write ends, or after.
pub drop-write_at :
    (k o : ℕ) (bs buf : Bytes) → o + length bs ≤ k → drop k (write_at o bs buf) ≡ drop k buf
unfolding write_at
drop-write_at k zero bs buf h = drop-overlay k bs buf (omega arith)
drop-write_at k (suc o) bs [] h = refl
drop-write_at zero (suc o) bs (x ∷ buf) h = absurd (omega arith)
drop-write_at (suc k) (suc o) bs (x ∷ buf) h = drop-write_at k o bs buf (omega arith)

pub read_at-write_after :
    (p w o : ℕ) (bs buf : Bytes)
    → o + length bs ≤ p
    → read_at p w (write_at o bs buf) ≡ read_at p w buf
read_at-write_after p w o bs buf h = ap (take w) (drop-write_at p o bs buf h)

pub read_at-append :
    (o w : ℕ) (buf rest : Bytes) → o + w ≤ length buf → read_at o w (buf ++ rest) ≡ read_at o w buf
read_at-append o w buf rest h =
    ap (take w) (drop-append o buf rest (omega arith))
    ∙ take-append w (drop o buf) rest (omega (arith, length-drop o buf))
