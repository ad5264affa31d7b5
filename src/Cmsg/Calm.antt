-- ===== src/Cmsg/Calm.antt =====
-- Runs of src/cmsg.rs and src/ext.rs that close and send nothing.
use unix_ancillary.Base.{ℕ, ◌≡◌, List, Option, none, some}
use unix_ancillary.System.{Host, World, Exit, ok, err, panic, out_of_fuel, Sent, or_panic}
use unix_ancillary.System.Quiet.{Quiet}
use unix_ancillary.Cmsg.Retry.{RecvEnds}

module _ {h : Host} where
  -- Nothing closed and nothing sent, however the run ends.
  abbrev pub Calm : {A : Type 0} → (closed : List ℕ) → (sent : List Sent) → Exit h A → Type 0
  Calm closed sent (ok a w) = (w.closed ≡ closed) × (w.sent ≡ sent)
  Calm closed sent (err e w) = (w.closed ≡ closed) × (w.sent ≡ sent)
  Calm closed sent (panic w) = (w.closed ≡ closed) × (w.sent ≡ sent)
  Calm closed sent out_of_fuel = Unit {0}

  pub Quiet-Calm :
      {A : Type 0} (closed : List ℕ) (sent : List Sent) (r : Exit h A)
      → Quiet closed sent r
      → Calm closed sent r
  Quiet-Calm closed sent (ok a w) q = q
  Quiet-Calm closed sent (err e w) q = q
  Quiet-Calm closed sent (panic w) q = absurd q
  Quiet-Calm closed sent out_of_fuel q = absurd q

  pub RecvEnds-Calm :
      {A : Type 0} (closed : List ℕ) (sent : List Sent) (r : Exit h A)
      → RecvEnds h closed sent r
      → Calm closed sent r
  RecvEnds-Calm closed sent (ok a w) q = q
  RecvEnds-Calm closed sent (err e w) q = (q.1, q.2)
  RecvEnds-Calm closed sent (panic w) q = absurd q
  RecvEnds-Calm closed sent out_of_fuel q = tt

  pub or_panic-Calm :
      {A : Type 0} (closed : List ℕ) (sent : List Sent) (o : Option A) (w : World h)
      → w.closed ≡ closed
      → w.sent ≡ sent
      → Calm closed sent (or_panic o w)
  or_panic-Calm closed sent none w c s = (c, s)
  or_panic-Calm closed sent (some a) w c s = (c, s)
