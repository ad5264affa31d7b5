-- ===== src/Multiprocess/Parent/Returns.antt =====
-- The programs of examples/multiprocess.rs come to an end.
use unix_ancillary.Base.{
  ℕ, zero, suc, ◌+◌, ◌*◌, ◌≤◌, List, [], ◌∷◌, Bool, true, false, Option, none, some, leb, arith,
  Bool-cases, inl, inr, if◌then◌else◌,
}
use unix_ancillary.Base.Results.{Result}
use unix_ancillary.Bytes.{Bytes}
use unix_ancillary.Target.{IsTarget, ErrorKind}
use unix_ancillary.System.{
  Host, World, Run, Exit, ok, err, panic, out_of_fuel, IoError, custom, error_kind, and_then, fail,
}
use unix_ancillary.Tokio.{is_would_block}
use unix_ancillary.Cmsg.Fits.{ControlFits}
use unix_ancillary.Cmsg.Returns.{Settles, Returns, and_then-Returns}
use unix_ancillary.Ext.Returns.{send_fds_all-Returns}
use unix_ancillary.Std.{Std, answered}
use unix_ancillary.Std.Laws.{call-Returns, scoped-Returns, cleaned-Returns}
use unix_ancillary.Multiprocess.{same_bytes, timeout, contents}
use unix_ancillary.Multiprocess.Returns.{child-Returns}
use unix_ancillary.Multiprocess.Parent.{
  pause, given_up, slept, not_yet, accept_step, accept_loop, hand_over, attempt_handoff, reaped,
  supervise, with_worker, with_original, with_listener, in_directory, parent, main, child_flag,
}

-- The monotonic clock, as the accept loop relies on it: `Instant::now` reads it, `sleep` lasts, and the
-- calls of the loop do not turn it back.
pub record Clock (h : Host) (std : Std h) : Type 0 where
  pub ticks : h.Kernel → ℕ
  pub now_reads : (k : h.Kernel) → ticks k ≤ (std.now k).0
  pub now_read : (k : h.Kernel) → (std.now k).0 ≤ ticks (std.now k).1
  pub sleep_lasts : (millis : ℕ) (k : h.Kernel) → ticks k + millis ≤ ticks (std.sleep millis k)
  pub accept_keeps : (fd : ℕ) (k : h.Kernel) → ticks k ≤ ticks (std.accept fd k).1
  pub try_wait_keeps : (worker : ℕ) (k : h.Kernel) → ticks k ≤ ticks (std.try_wait worker k).1

module _ (h : Host) (std : Std h) (clock : Clock h std) (listener worker deadline : ℕ) where
  not_yet-Returns :
      (fuel : ℕ) (again : Run h ℕ) (w : World h)
      → deadline ≤ clock.ticks w.kernel + pause * fuel
      → ((k : h.Kernel)
          → clock.ticks w.kernel + pause ≤ clock.ticks k
          → 1 ≤ fuel
          → Returns (again (record w { kernel = k })))
      → Returns (not_yet h std again worker deadline w)
  not_yet-Returns fuel again w near later =
      looked (std.try_wait worker w.kernel) (clock.try_wait_keeps worker w.kernel)
    where
      looked :
          (a : Result (Option Bool) IoError × h.Kernel)
          → clock.ticks w.kernel ≤ clock.ticks a.1
          → Returns (
              and_then (answered a w) λ status u.
                and_then (given_up h std deadline status u) λ gone v.
                  if gone then err (custom ErrorKind.timed_out) v else again (slept h std v))
      looked (Result.err e, k) kept = tt
      looked (Result.ok (some status), k) kept = tt
      looked (Result.ok none, k) kept =
          let after : h.Kernel = (std.now k).1 in
          elim (Bool-cases (leb deadline (std.now k).0)) [
            | inl late ↦ rw late tt
            | inr early ↦
                let reads = clock.now_reads k in
                rw early (
                  later (std.sleep pause after)
                    (omega (
                      arith,
                      kept,
                      clock.now_reads k,
                      clock.now_read k,
                      clock.sleep_lasts pause after,
                    ))
                    (ground arith))
          ]

  accept_round-Returns :
      (fuel : ℕ) (w : World h)
      → deadline ≤ clock.ticks w.kernel + pause * fuel
      → ((k : h.Kernel)
          → clock.ticks w.kernel + pause ≤ clock.ticks k
          → 1 ≤ fuel
          → Returns (accept_loop h std fuel listener worker deadline (record w { kernel = k })))
      → Returns (accept_loop h std (suc fuel) listener worker deadline w)
  unfolding accept_loop
  accept_round-Returns fuel w near later =
      answer (std.accept listener w.kernel) (clock.accept_keeps listener w.kernel)
    where
      answer :
          (a : Result ℕ IoError × h.Kernel)
          → clock.ticks w.kernel ≤ clock.ticks a.1
          → Returns (
              accept_step h std
                (accept_loop h std fuel listener worker deadline)
                worker
                deadline
                (answered a w))
      answer (Result.ok socket, k) kept = tt
      answer (Result.err e, k) kept = elim (Bool-cases (is_would_block (error_kind h.target e))) [
        | inr final ↦ rw final tt
        | inl block ↦ rw block (
            not_yet-Returns fuel (accept_loop h std fuel listener worker deadline)
              (record w { kernel = k }) (omega (arith, near, kept))
              λ k' lasted positive. later k' (omega (arith, lasted, kept)) positive)
      ]

  accept_loop-Returns :
      (fuel : ℕ) (w : World h)
      → deadline ≤ clock.ticks w.kernel + pause * fuel
      → Returns (accept_loop h std (suc fuel) listener worker deadline w)
  accept_loop-Returns zero w near =
      accept_round-Returns zero w near λ k lasted positive. absurd (omega (arith, positive))
  accept_loop-Returns (suc fuel) w near =
      accept_round-Returns (suc fuel) w near λ k lasted positive.
        accept_loop-Returns fuel (record w { kernel = k }) (omega (arith, near, lasted))

module _ (h : Host) (std : Std h) (s : Settles h) where
  hand_over-Returns :
      (socket read_only : ℕ) (w : World h) → Returns (hand_over h std socket read_only w)
  unfolding hand_over
  hand_over-Returns socket read_only w =
      and_then-Returns _ _ (call-Returns (std.set_nonblocking socket false) w) λ _ w₁ _.
        and_then-Returns _ _ (call-Returns (std.set_read_timeout socket timeout) w₁) λ _ w₂ _.
          and_then-Returns _ _ (call-Returns (std.set_write_timeout socket timeout) w₂) λ _ w₃ _.
            and_then-Returns _ _ (send_fds_all-Returns h s socket (70 ∷ []) (read_only ∷ []) w₃)
              λ _ w₄ _.
                and_then-Returns _ _ (call-Returns (std.read_exact socket 1) w₄)
                  λ ack w₅ _. checked ack w₅
    where
      checked :
          (ack : Bytes) (u : World h)
          → Returns
              ((if same_bytes ack (89 ∷ []) then ok tt else fail (custom ErrorKind.invalid_data)) u)
      checked ack u = elim (Bool-cases (same_bytes ack (89 ∷ []))) [
        | inl e ↦ rw e tt
        | inr e ↦ rw e tt
      ]

  reaped-Returns :
      (worker : ℕ) (r : Result (Unit {0}) IoError) (w : World h) → Returns (reaped h std worker r w)
  reaped-Returns worker (Result.err e) w =
      and_then-Returns _ _ (call-Returns (std.wait worker) w) λ _ u _. tt
  reaped-Returns worker (Result.ok x) w =
      and_then-Returns _ _ (call-Returns (std.wait worker) w) λ success u _. status success u
    where
      status :
          (success : Bool) (u : World h)
          → Returns ((if success then ok tt else fail (custom ErrorKind.other_kind)) u)
      status true u = tt
      status false u = tt

  supervise-Returns :
      (worker : ℕ) (r : Exit h (Unit {0})) → Returns r → Returns (supervise h std worker r)
  unfolding supervise
  supervise-Returns worker (ok u w) q = reaped-Returns worker (Result.ok u) w
  supervise-Returns worker (err e w) q = reaped-Returns worker (Result.err e) _
  supervise-Returns worker (panic w) q = tt
  supervise-Returns worker out_of_fuel q = q

  module _ (clock : Clock h std) where
    attempt_handoff-Returns :
        (listener worker read_only : ℕ) (w : World h)
        → Returns (attempt_handoff h std listener worker read_only w)
    unfolding attempt_handoff
    attempt_handoff-Returns listener worker read_only w =
        let (time, k) = std.now w.kernel in
        and_then-Returns _ _
          (accept_loop-Returns h std clock listener worker ((std.now w.kernel).0 + timeout) 1000
            (record w { kernel = (std.now w.kernel).1 }) (omega (arith, clock.now_read w.kernel)))
          λ socket u _. scoped-Returns (socket ∷ []) _ (hand_over-Returns socket read_only u)

    with_original-Returns :
        (path : Bytes) (listener original : ℕ) (name : Bytes) (w : World h)
        → Returns (with_original h std path listener original name w)
    unfolding with_original with_worker
    with_original-Returns path listener original name w =
        and_then-Returns _ _
          (and_then-Returns _ _ (call-Returns (std.write_all original contents) w)
            λ _ w₁ _. call-Returns (std.open_file name) w₁)
          λ read_only w₂ _. scoped-Returns (read_only ∷ []) _ (
            and_then-Returns _ _ (call-Returns std.current_exe w₂) λ program w₃ _.
              and_then-Returns _ _ (call-Returns (std.spawn program (child_flag ∷ path ∷ [])) w₃)
                λ worker w₄ _.
                  supervise-Returns worker _ (attempt_handoff-Returns listener worker read_only w₄))

    parent-Returns : (w : World h) → Returns (parent h std w)
    unfolding parent in_directory with_listener
    parent-Returns w = and_then-Returns _ _ (call-Returns std.tempdir w) λ directory w₁ _.
        cleaned-Returns (std.remove_dir directory) _ (
          and_then-Returns _ _ (call-Returns (std.bind _) w₁) λ listener w₂ _.
            scoped-Returns (listener ∷ []) _ (
              and_then-Returns _ _
                (and_then-Returns _ _ (call-Returns (std.set_nonblocking listener true) w₂)
                  λ _ w₃ _. call-Returns (std.new_in directory) w₃)
                λ temporary w₄ _. scoped-Returns (temporary.0 ∷ []) _ (
                  cleaned-Returns (std.remove_file temporary.1) _
                    (with_original-Returns _ listener temporary.0 temporary.1 w₄))))

-- On a target whose constants obey IsTarget, with a kernel that reports no more control bytes than
-- the buffer holds and that interrupts a call less often in a row than the bound on retries, and
-- with a clock that sleep moves on by its argument and that the calls of the accept loop do not
-- turn back, both programs of the multiprocess example return, for all arguments: the deadline of
-- ten seconds ends the accept loop within 1001 rounds, and the bounds of the receive and the send
-- are not exceeded.
pub main-Returns :
    (h : Host) (std : Std h) (args : List Bytes) (w : World h)
    → IsTarget h.target
    → ControlFits h
    → Settles h
    → Clock h std
    → Returns (main h std args w)
unfolding main
main-Returns h std [] w v law s clock = parent-Returns h std s clock w
main-Returns h std (flag ∷ []) w v law s clock = elim (Bool-cases (same_bytes flag child_flag)) [
  | inl e ↦ rw e tt
  | inr e ↦ rw e (parent-Returns h std s clock w)
]
main-Returns h std (flag ∷ path ∷ more) w v law s clock =
    elim (Bool-cases (same_bytes flag child_flag)) [
      | inl e ↦ rw e (child-Returns h std path w v law s)
      | inr e ↦ rw e (parent-Returns h std s clock w)
    ]
