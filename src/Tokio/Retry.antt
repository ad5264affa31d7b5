-- ===== src/Tokio/Retry.antt =====
-- An operation under `async_io`: what holds of each attempt holds of the whole.
use unix_ancillary.Base.{ℕ, ◌≡◌, refl, true, List}
use unix_ancillary.System.{
  Host, World, Run, Exit, ok, err, panic, out_of_fuel, Sent, IoError, error_kind,
}
use unix_ancillary.Tokio.{
  Poll, ready, cancelled, Attempts, answered, blocked, shut_down, dropped, Runtime, Interest,
  is_would_block, await_then,
}

-- An operation that may be tried again: every attempt ends in `P`, an attempt that would block has
-- closed and sent nothing, and an error that has done neither is in `P`.
pub record Retryable {h : Host} {A : Type 0} (closed : List ℕ) (sent : List Sent) (op : Run h A)
    (P : Exit h A → Type 0) : Type 0 where
  pub ends : (w : World h) → w.closed ≡ closed → w.sent ≡ sent → P (op w)
  pub bounces :
      (w u : World h) (e : IoError)
      → w.closed ≡ closed
      → w.sent ≡ sent
      → op w ≡ err e u
      → is_would_block (error_kind h.target e) ≡ true
      → (u.closed ≡ closed) × (u.sent ≡ sent)
  pub untouched : (u : World h) (e : IoError) → u.closed ≡ closed → u.sent ≡ sent → P (err e u)

-- A future that is polled to its end satisfies `P`; one that is dropped has done nothing.
abbrev pub Concludes :
    {h : Host} {A : Type 0}
    → (closed : List ℕ) → (sent : List Sent) → (Exit h A → Type 0)
    → Poll h A
    → Type 0
Concludes closed sent P (ready r) = P r
Concludes closed sent P (cancelled w) = (w.closed ≡ closed) × (w.sent ≡ sent)

module _ {h : Host} {A : Type 0} (closed : List ℕ) (sent : List Sent) (op : Run h A)
    (P : Exit h A → Type 0) (q : Retryable closed sent op P) where
  Attempts-Concludes :
      (w : World h) (r : Poll h A)
      → w.closed ≡ closed
      → w.sent ≡ sent
      → Attempts h op w r
      → Concludes closed sent P r
  Attempts-Concludes w r c s (answered k final is) = rw is (q.ends (record w { kernel = k }) c s)
  Attempts-Concludes w r c s (blocked k e u is would more) =
      let calm = q.bounces (record w { kernel = k }) u e c s is would in
      Attempts-Concludes u r calm.0 calm.1 more
  Attempts-Concludes w r c s (shut_down k e is) =
      rw is (q.untouched (record w { kernel = k }) e c s)
  Attempts-Concludes w r c s (dropped k is) = rw is (c, s)

  pub async_io-Concludes :
      (rt : Runtime h) (fd : ℕ) (interest : Interest) (w : World h)
      → w.closed ≡ closed
      → w.sent ≡ sent
      → Concludes closed sent P (rt.async_io fd interest op w)
  async_io-Concludes rt fd interest w c s =
      Attempts-Concludes w _ c s (rt.documented fd interest op w)

pub await_then_assoc :
    {h : Host} {A B D : Type 0} (p : Poll h A) (f : A → World h → Poll h B)
    (g : B → World h → Poll h D)
    → await_then (await_then p f) g ≡ await_then p (λ a w. await_then (f a w) g)
await_then_assoc (ready (ok a w)) f g = refl
await_then_assoc (ready (err e w)) f g = refl
await_then_assoc (ready (panic w)) f g = refl
await_then_assoc (ready out_of_fuel) f g = refl
await_then_assoc (cancelled w) f g = refl
