-- ===== src/Multiprocess/Parent/Ledger/Accepts.antt =====
-- The accept loop of the parent of examples/multiprocess.rs.
use unix_ancillary.Base.{
  ℕ, zero, suc, ◌≡◌, refl, List, Bool, Option, none, some, inl, inr, Bool-cases, if◌then◌else◌, leb,
}
use unix_ancillary.Base.Results.{Result}
use unix_ancillary.Target.{ErrorKind}
use unix_ancillary.System.{
  Host, World, Run, Exit, ok, err, panic, out_of_fuel, IoError, custom, error_kind, Sent, and_then,
}
use unix_ancillary.Tokio.{is_would_block}
use unix_ancillary.Std.{Std, answered}
use unix_ancillary.Multiprocess.Parent.{given_up, slept, accept_step, accept_loop}
use unix_ancillary.Multiprocess.Parent.Ledger.{Answered}

module _ (h : Host) (std : Std h) (closed : List ℕ) (sent : List Sent) where
  -- The accept loop closes and sends nothing, and a socket comes from the listener.
  abbrev pub Accepts : (listener : ℕ) → Exit h ℕ → Type 0
  Accepts listener (ok socket w) =
      Answered h (std.accept listener) socket × (w.closed ≡ closed) × (w.sent ≡ sent)
  Accepts listener (err e w) = (w.closed ≡ closed) × (w.sent ≡ sent)
  Accepts listener (panic w) = ⊥
  Accepts listener out_of_fuel = Unit {0}

  pub accept_loop-Accepts :
      (fuel listener worker deadline : ℕ) (w : World h)
      → w.closed ≡ closed
      → w.sent ≡ sent
      → Accepts listener (accept_loop h std fuel listener worker deadline w)
  unfolding accept_loop
  accept_loop-Accepts zero listener worker deadline w c s = tt
  accept_loop-Accepts (suc fuel) listener worker deadline w c s =
      answer (std.accept listener w.kernel) refl
        λ k. accept_loop-Accepts fuel listener worker deadline (record w { kernel = k }) c s
    where
      again : Run h ℕ
      again = accept_loop h std fuel listener worker deadline

      looked :
          (before : h.Kernel) (a : Result (Option Bool) IoError × h.Kernel)
          → ((k : h.Kernel) → Accepts listener (again (record w { kernel = k })))
          → Accepts listener (
              and_then (answered a (record w { kernel = before })) λ status u.
                and_then (given_up h std deadline status u) λ gone v.
                  if gone then err (custom ErrorKind.timed_out) v else again (slept h std v))
      looked before (Result.err e, k) later = (c, s)
      looked before (Result.ok (some status), k) later = (c, s)
      looked before (Result.ok none, k) later = elim (Bool-cases (leb deadline (std.now k).0)) [
        | inl late ↦ rw late (c, s)
        | inr early ↦ rw early (later _)
      ]

      answer :
          (a : Result ℕ IoError × h.Kernel)
          → std.accept listener w.kernel ≡ a
          → ((k : h.Kernel) → Accepts listener (again (record w { kernel = k })))
          → Accepts listener (accept_step h std again worker deadline (answered a w))
      answer (Result.ok socket, k) is later = ((w.kernel, k, is), c, s)
      answer (Result.err e, k) is later =
          elim (Bool-cases (is_would_block (error_kind h.target e))) [
            | inr final ↦ rw final (c, s)
            | inl block ↦ rw block (looked k (std.try_wait worker k) later)
          ]
