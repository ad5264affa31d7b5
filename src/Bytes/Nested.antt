-- ===== src/Bytes/Nested.antt =====
-- A write at an offset seen from outside: what the buffer holds before, in and behind it, and a
-- second write inside the first.
use unix_ancillary.Base.{
  ℕ, zero, suc, ◌+◌, ◌≤◌, ◌≡◌, refl, ap, sym, [], ◌∷◌, ◌++◌, take, length, arith,
}
use unix_ancillary.Bytes.{Bytes, overlay, write_at}

overlay-append :
    (bs cs buf : Bytes) → overlay (bs ++ cs) buf ≡ write_at (length bs) cs (overlay bs buf)
unfolding overlay write_at
overlay-append [] cs buf = refl
overlay-append (b ∷ bs) cs [] = refl
overlay-append (b ∷ bs) cs (x ∷ buf) = ap (◌∷◌ b) (overlay-append bs cs buf)

-- Two writes, one behind the other, are one.
pub write_at-append :
    (o k : ℕ) (bs cs buf : Bytes)
    → o + length bs ≡ k
    → write_at k cs (write_at o bs buf) ≡ write_at o (bs ++ cs) buf
unfolding write_at
write_at-append zero k bs cs buf e =
    let e' : k ≡ length bs = omega arith in rw e' (sym (overlay-append bs cs buf))
write_at-append (suc o) zero bs cs buf e = absurd (omega arith)
write_at-append (suc o) (suc k) bs cs [] e = refl
write_at-append (suc o) (suc k) bs cs (x ∷ buf) e =
    ap (◌∷◌ x) (write_at-append o k bs cs buf (omega arith))

-- Up to its end, a write that fits leaves what was before it and then what it wrote.
take-overlay_end :
    (bs buf : Bytes) → length bs ≤ length buf → take (length bs) (overlay bs buf) ≡ bs
unfolding overlay
take-overlay_end [] buf h = refl
take-overlay_end (b ∷ bs) [] h = elim h [ ]
take-overlay_end (b ∷ bs) (x ∷ buf) h = ap (◌∷◌ b) (take-overlay_end bs buf (omega arith))

pub take-write_at_end :
    (o k : ℕ) (bs buf : Bytes)
    → o + length bs ≡ k
    → k ≤ length buf
    → take k (write_at o bs buf) ≡ take o buf ++ bs
unfolding write_at
take-write_at_end zero k bs buf e h =
    let e' : k ≡ length bs = omega arith in rw e' (take-overlay_end bs buf (omega arith))
take-write_at_end (suc o) zero bs buf e h = absurd (omega arith)
take-write_at_end (suc o) (suc k) bs [] e h = elim h [ ]
take-write_at_end (suc o) (suc k) bs (x ∷ buf) e h =
    ap (◌∷◌ x) (take-write_at_end o k bs buf (omega arith) (omega arith))

overlay-inside :
    (p : ℕ) (bs cs buf : Bytes)
    → p + length cs ≤ length bs
    → length bs ≤ length buf
    → write_at p cs (overlay bs buf) ≡ overlay (write_at p cs bs) buf
unfolding overlay write_at
overlay-inside zero bs [] buf h g = refl
overlay-inside zero [] (c ∷ cs) buf h g = absurd (omega arith)
overlay-inside zero (b ∷ bs) (c ∷ cs) [] h g = absurd (omega arith)
overlay-inside zero (b ∷ bs) (c ∷ cs) (x ∷ buf) h g =
    ap (◌∷◌ c) (overlay-inside zero bs cs buf (omega arith) (omega arith))
overlay-inside (suc p) [] cs buf h g = absurd (omega arith)
overlay-inside (suc p) (b ∷ bs) cs [] h g = absurd (omega arith)
overlay-inside (suc p) (b ∷ bs) cs (x ∷ buf) h g =
    ap (◌∷◌ b) (overlay-inside p bs cs buf (omega arith) (omega arith))

-- A write inside what was just written could have been made before.
pub write_at-inside :
    (o p k : ℕ) (bs cs buf : Bytes)
    → o + p ≡ k
    → p + length cs ≤ length bs
    → o + length bs ≤ length buf
    → write_at k cs (write_at o bs buf) ≡ write_at o (write_at p cs bs) buf
unfolding write_at
write_at-inside zero p k bs cs buf e h g =
    let e' : k ≡ p = omega arith in rw e' (overlay-inside p bs cs buf h (omega arith))
write_at-inside (suc o) p zero bs cs buf e h g = absurd (omega arith)
write_at-inside (suc o) p (suc k) bs cs [] e h g = refl
write_at-inside (suc o) p (suc k) bs cs (x ∷ buf) e h g =
    ap (◌∷◌ x) (write_at-inside o p k bs cs buf (omega arith) h (omega arith))

pub write_at-nil : (o : ℕ) (buf : Bytes) → write_at o [] buf ≡ buf
unfolding write_at
write_at-nil zero buf = refl
write_at-nil (suc o) [] = refl
write_at-nil (suc o) (x ∷ buf) = ap (◌∷◌ x) (write_at-nil o buf)
