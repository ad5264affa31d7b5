-- ===== src/System/Quiet.antt =====
-- Runs that close no descriptor and send nothing, and how such facts pass through a bind.
use unix_ancillary.Base.{ℕ, ◌≡◌, refl, List, inl, inr, ◌⊎◌}
use unix_ancillary.System.{
  Host, World, Run, Exit, ok, err, panic, out_of_fuel, SysRet, ret, errno, Sent, IoError, and_then,
  sys, settled,
}

module _ {h : Host} where
  abbrev pub Quiet : {A : Type 0} → (closed : List ℕ) → (sent : List Sent) → Exit h A → Type 0
  Quiet closed sent (ok a w) = (w.closed ≡ closed) × (w.sent ≡ sent)
  Quiet closed sent (err e w) = (w.closed ≡ closed) × (w.sent ≡ sent)
  Quiet closed sent (panic w) = ⊥
  Quiet closed sent out_of_fuel = ⊥

  pub and_then-Quiet :
      {A B : Type 0} (closed : List ℕ) (sent : List Sent) (r : Exit h A) (f : A → Run h B)
      → Quiet closed sent r
      → ((a : A) (w : World h) → w.closed ≡ closed → w.sent ≡ sent → Quiet closed sent (f a w))
      → Quiet closed sent (and_then r f)
  and_then-Quiet closed sent (ok a w) f q g = g a w q.0 q.1
  and_then-Quiet closed sent (err e w) f q g = q
  and_then-Quiet closed sent (panic w) f q g = q
  and_then-Quiet closed sent out_of_fuel f q g = q

  -- Inversion of a successful bind.
  pub and_then-eq-ok :
      {A B : Type 0} (r : Exit h A) (f : A → Run h B) {b : B} {w : World h}
      → and_then r f ≡ ok b w
      → (a : A) × (v : World h) × (r ≡ ok a v) × (f a v ≡ ok b w)
  and_then-eq-ok (ok a v) f e = (a, v, refl, e)
  and_then-eq-ok (err x v) f e = cc
  and_then-eq-ok (panic v) f e = cc
  and_then-eq-ok out_of_fuel f e = cc

  pub ok-world : {A : Type 0} {a b : A} {v w : World h} → ok a v ≡ ok b w → v ≡ w
  ok-world e = cc

  -- A quiet run comes to a value or to an error.
  pub Quiet-cases :
      {A : Type 0} (closed : List ℕ) (sent : List Sent) (r : Exit h A)
      → Quiet closed sent r
      → ((a : A) × (w : World h) × (r ≡ ok a w) × (w.closed ≡ closed) × (w.sent ≡ sent))
        ⊎ ((e : IoError) × (w : World h) × (r ≡ err e w) × (w.closed ≡ closed) × (w.sent ≡ sent))
  Quiet-cases closed sent (ok a w) q = inl (a, w, refl, q.0, q.1)
  Quiet-cases closed sent (err e w) q = inr (e, w, refl, q.0, q.1)
  Quiet-cases closed sent (panic w) q = absurd q
  Quiet-cases closed sent out_of_fuel q = absurd q

  pub sys-Quiet :
      (call : h.Kernel → SysRet × h.Kernel) (closed : List ℕ) (sent : List Sent) (w : World h)
      → w.closed ≡ closed
      → w.sent ≡ sent
      → Quiet closed sent (sys call w)
  sys-Quiet call closed sent w c s = go (call w.kernel)
    where
      go : (a : SysRet × h.Kernel) → Quiet closed sent (settled a w)
      go (ret n, k) = (c, s)
      go (errno e, k) = (c, s)

  -- A call that came to a value answered it, and its state is the kernel's.
  pub sys-ok :
      (call : h.Kernel → SysRet × h.Kernel) (n : ℕ) (w v : World h)
      → sys call w ≡ ok n v
      → call w.kernel ≡ (ret n, v.kernel)
  sys-ok call n w v e = go (call w.kernel) e
    where
      go : (a : SysRet × h.Kernel) → settled a w ≡ ok n v → a ≡ (ret n, v.kernel)
      go (ret m, k) d = cc d
      go (errno x, k) d = cc d

  pub and_then_assoc :
      {A B C : Type 0} (r : Exit h A) (f : A → Run h B) (g : B → Run h C)
      → and_then (and_then r f) g ≡ and_then r (λ a w. and_then (f a w) g)
  and_then_assoc (ok a w) f g = refl
  and_then_assoc (err e w) f g = refl
  and_then_assoc (panic w) f g = refl
  and_then_assoc out_of_fuel f g = refl
