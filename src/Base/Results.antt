-- ===== src/Base/Results.antt =====
-- Rust's `Result`, with `?` as the bind of a `do` block, and `Option::ok_or`.
use mathlib.Core.Bool.{Bool, true, false}
use mathlib.Core.Option.{Option, none, some}
use mathlib.Core.Path.{◌≡◌, refl}

pub data Result {ℓ κ} (A : Type ℓ) (E : Type κ) : Type (ℓ ⊔ κ) where
  ok : A → Result A E
  err : E → Result A E

abbrev pub ok_or {ℓ κ} : {A : Type ℓ} {E : Type κ} → Option A → E → Result A E
ok_or none e = err e
ok_or (some a) e = ok a

module _ {ℓ κ ι} {A : Type ℓ} {B : Type κ} {E : Type ι} where
  infixl 5 ◌>>=◌
  abbrev pub ◌>>=◌ : Result A E → (A → Result B E) → Result B E
  err e >>= next = err e
  ok a >>= next = next a

  infixl 5 ◌>>◌
  abbrev pub ◌>>◌ : Result A E → Result B E → Result B E
  err e >> next = err e
  ok a >> next = next

-- `if !test { return Err(e) }`
abbrev pub guard {κ} : {E : Type κ} → Bool → E → Result (Unit {0}) E
guard false e = err e
guard true e = ok tt

-- A successful chain has a successful first link.
pub >>=-eq-ok {ℓ κ ι} :
    {A : Type ℓ} {B : Type κ} {E : Type ι} (first : Result A E) (next : A → Result B E) {last : B}
    → (first >>= next) ≡ ok last
    → (x : A) × (first ≡ ok x) × (next x ≡ ok last)
>>=-eq-ok (err e) next is_ok = cc
>>=-eq-ok (ok x) next is_ok = (x, refl, is_ok)

pub ok-injective {ℓ κ} :
    {A : Type ℓ} {E : Type κ} {a b : A} → ◌≡◌ {A = Result A E} (ok a) (ok b) → a ≡ b
ok-injective e = cc
