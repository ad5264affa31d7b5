-- ===== src/Bytes/Octets.antt =====
-- The lists of numbers that stand for byte buffers hold bytes: what is encoded does, and what is
-- decoded from them fits its width.
use mathlib.Core.List.{reverse, reverse-cons}
use unix_ancillary.Base.{
  ℕ, zero, suc, ◌/◌, ◌^◌, ◌≤◌, ◌<◌, sym, subst, Bool, true, false, [], ◌∷◌, take, drop, replicate,
  length, All, All-append, arith,
}
use unix_ancillary.Bytes.{Bytes, le_bytes, le_value, to_ne_bytes, from_ne_bytes, overlay, write_at}
use unix_ancillary.Bytes.Laws.{length-reverse}

abbrev pub IsByte : ℕ → Type 0
IsByte b = b < 256

abbrev pub AreBytes : Bytes → Type 0
AreBytes bs = All IsByte bs

reverse-AreBytes : (xs : Bytes) → AreBytes xs → AreBytes (reverse xs)
reverse-AreBytes [] all = tt
reverse-AreBytes (x ∷ xs) all =
    subst AreBytes (sym (reverse-cons x xs))
      (All-append _ (reverse xs) (x ∷ []) (reverse-AreBytes xs all.1) (all.0, tt))

pub replicate-AreBytes : (n : ℕ) → AreBytes (replicate n 0)
replicate-AreBytes zero = tt
replicate-AreBytes (suc n) = (omega arith, replicate-AreBytes n)

pub take-AreBytes : (n : ℕ) (xs : Bytes) → AreBytes xs → AreBytes (take n xs)
take-AreBytes zero xs all = tt
take-AreBytes (suc n) [] all = tt
take-AreBytes (suc n) (x ∷ xs) all = (all.0, take-AreBytes n xs all.1)

pub drop-AreBytes : (n : ℕ) (xs : Bytes) → AreBytes xs → AreBytes (drop n xs)
drop-AreBytes zero xs all = all
drop-AreBytes (suc n) [] all = tt
drop-AreBytes (suc n) (x ∷ xs) all = drop-AreBytes n xs all.1

le_bytes-AreBytes : (w v : ℕ) → AreBytes (le_bytes w v)
unfolding le_bytes
le_bytes-AreBytes zero v = tt
le_bytes-AreBytes (suc w) v = (omega arith, le_bytes-AreBytes w (v / 256))

pub to_ne_bytes-AreBytes : (big : Bool) (w v : ℕ) → AreBytes (to_ne_bytes big w v)
unfolding to_ne_bytes
to_ne_bytes-AreBytes true w v = reverse-AreBytes (le_bytes w v) (le_bytes-AreBytes w v)
to_ne_bytes-AreBytes false w v = le_bytes-AreBytes w v

overlay-AreBytes : (bs buf : Bytes) → AreBytes bs → AreBytes buf → AreBytes (overlay bs buf)
unfolding overlay
overlay-AreBytes [] buf new old = old
overlay-AreBytes (b ∷ bs) [] new old = tt
overlay-AreBytes (b ∷ bs) (x ∷ buf) new old = (new.0, overlay-AreBytes bs buf new.1 old.1)

pub write_at-AreBytes :
    (o : ℕ) (bs buf : Bytes) → AreBytes bs → AreBytes buf → AreBytes (write_at o bs buf)
unfolding write_at
write_at-AreBytes zero bs buf new old = overlay-AreBytes bs buf new old
write_at-AreBytes (suc o) bs [] new old = tt
write_at-AreBytes (suc o) bs (x ∷ buf) new old = (old.0, write_at-AreBytes o bs buf new old.1)

power_pos : (w : ℕ) → 0 < 256 ^ w
power_pos zero = omega arith
power_pos (suc w) = omega (arith, power_pos w)

le_value_fits : (bs : Bytes) (w : ℕ) → AreBytes bs → length bs ≤ w → le_value bs < 256 ^ w
unfolding le_value
le_value_fits [] w all h = power_pos w
le_value_fits (b ∷ bs) zero all h = absurd (omega (arith, h))
le_value_fits (b ∷ bs) (suc w) all h =
    omega (arith, all.0, le_value_fits bs w all.1 (omega (arith, h)))

-- An integer read from at most `w` bytes fits `w` bytes, in either byte order.
pub from_ne_bytes_fits :
    (big : Bool) (bs : Bytes) (w : ℕ) → AreBytes bs → length bs ≤ w → from_ne_bytes big bs < 256 ^ w
unfolding from_ne_bytes
from_ne_bytes_fits true bs w all h =
    le_value_fits (reverse bs) w (reverse-AreBytes bs all) (omega (arith, h, length-reverse bs))
from_ne_bytes_fits false bs w all h = le_value_fits bs w all h
