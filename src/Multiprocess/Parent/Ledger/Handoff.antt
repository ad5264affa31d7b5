-- ===== src/Multiprocess/Parent/Ledger/Handoff.antt =====
-- The handoff of the parent of examples/multiprocess.rs: the send and the wait.
use unix_ancillary.Base.{
  ℕ, ◌+◌, ◌≡◌, refl, ap, sym, subst, ◌∙◌, List, [], ◌∷◌, ◌++◌, append-nil, All, Bool, true, false,
  arith, inl, inr, Bool-cases, if◌then◌else◌,
}
use unix_ancillary.Base.Results.{Result}
use unix_ancillary.Bytes.{Bytes}
use unix_ancillary.Target.{IsTarget, ErrorKind}
use unix_ancillary.System.{
  Host, World, Exit, ok, err, panic, out_of_fuel, IoError, custom, Sent, and_then, fail,
}
use unix_ancillary.Ancillary.Buffer.RoundTrip.{IsFd}
use unix_ancillary.Ext.Stream.{send_fds_all}
use unix_ancillary.Ext.Stream.Complete.{Completes, send_fds_all-Completes}
use unix_ancillary.Std.{Std, call, answered, scoped}
use unix_ancillary.Multiprocess.{same_bytes, timeout}
use unix_ancillary.Multiprocess.Session.{same_bytes-eq}
use unix_ancillary.Multiprocess.Parent.{
  child_flag, accept_rounds, hand_over, attempt_handoff, supervise,
}
use unix_ancillary.Multiprocess.Parent.Ledger.{
  Answered, IsAcquired, Handed, Served, Reaped, Broken, Ends, failed-Ends, after_call-Ends,
  scoped-Ends,
}
use unix_ancillary.Multiprocess.Parent.Ledger.Accepts.{Accepts, accept_loop-Accepts}

module _ (h : Host) (std : Std h) (closed : List ℕ) (sent : List Sent) where
  -- Over this socket, with nothing to close.
  abbrev Sends : (socket read_only : ℕ) → List ℕ → List Sent → Type 0
  Sends socket read_only fds new = (fds ≡ []) × Handed h std socket read_only new

  from_send :
      (socket read_only : ℕ) (r : Exit h (Unit {0}))
      → Completes h socket (70 ∷ []) (read_only ∷ []) 0 closed sent r
      → Ends h std (Sends socket read_only) closed sent (
          and_then r λ _ u.
            and_then (call (std.read_exact socket 1) u) λ ack.
              if same_bytes ack (89 ∷ []) then ok tt else fail (custom ErrorKind.invalid_data))
  from_send socket read_only (ok x w) (new, s, carried, whole, c) =
      go (std.read_exact socket 1 w.kernel) refl
    where
      broken : (k : h.Kernel) → Broken h std closed sent (record w { kernel = k })
      broken k = ([], new, socket, read_only, tt, carried, c ∙ sym (append-nil closed), s)

      go :
          (a : Result Bytes IoError × h.Kernel)
          → std.read_exact socket 1 w.kernel ≡ a
          → Ends h std (Sends socket read_only) closed sent (
              and_then (answered a w) λ ack.
                if same_bytes ack (89 ∷ []) then ok tt else fail (custom ErrorKind.invalid_data))
      go (Result.err e, k) is = broken k
      go (Result.ok ack, k) is = elim (Bool-cases (same_bytes ack (89 ∷ []))) [
        | inr other ↦ rw other (broken k)
        | inl same ↦ rw same (
          [],
          new,
          (
            refl,
            record {
              carried = carried;
              whole = omega (arith, whole);
              acknowledged =
                  subst (λ bs. Answered h (std.read_exact socket 1) bs)
                    (same_bytes-eq ack (89 ∷ []) same) (w.kernel, k, is);
            },
          ),
          c ∙ sym (append-nil closed),
          s,
        )
      ]
  from_send socket read_only (err e w) (new, s, carried, c) =
      ([], new, socket, read_only, tt, carried, c ∙ sym (append-nil closed), s)
  from_send socket read_only (panic w) (new, s, carried, c) =
      ([], new, socket, read_only, tt, carried, c ∙ sym (append-nil closed), s)
  from_send socket read_only out_of_fuel q = tt

  hand_over-Ends :
      (socket read_only : ℕ) (w : World h)
      → IsTarget h.target
      → IsFd read_only
      → w.closed ≡ closed
      → w.sent ≡ sent
      → Ends h std (Sends socket read_only) closed sent (hand_over h std socket read_only w)
  unfolding hand_over
  hand_over-Ends socket read_only w v small is_closed is_sent =
      let D : List ℕ → List Sent → Type 0 = Sends socket read_only in
      after_call-Ends h std D closed sent (std.set_nonblocking socket false) _ w is_closed is_sent
        λ _ w₁ _ c₁ s₁.
          after_call-Ends h std D closed sent (std.set_read_timeout socket timeout) _ w₁ c₁ s₁
            λ _ w₂ _ c₂ s₂.
              after_call-Ends h std D closed sent (std.set_write_timeout socket timeout) _ w₂ c₂ s₂
                λ _ w₃ _ c₃ s₃. from_send socket read_only _ (
                  subst
                    (λ ds.
                      Completes h socket (70 ∷ []) (read_only ∷ []) 0 ds sent
                        (send_fds_all h socket (70 ∷ []) (read_only ∷ []) w₃))
                    c₃
                    (subst
                      (λ ss.
                        Completes h socket (70 ∷ []) (read_only ∷ []) 0 w₃.closed ss
                          (send_fds_all h socket (70 ∷ []) (read_only ∷ []) w₃))
                      s₃
                      (send_fds_all-Completes h socket (70 ∷ []) (read_only ∷ []) w₃ v
                        (small, tt))))

  pub attempt_handoff-Ends :
      (listener worker read_only : ℕ) (w : World h)
      → IsTarget h.target
      → IsFd read_only
      → w.closed ≡ closed
      → w.sent ≡ sent
      → Ends h std
          (Served h std listener read_only [])
          closed
          sent
          (attempt_handoff h std listener worker read_only w)
  unfolding attempt_handoff
  attempt_handoff-Ends listener worker read_only w v small c s = go _ (
      accept_loop-Accepts h std closed sent accept_rounds listener worker
        ((std.now w.kernel).0 + timeout) (record w { kernel = (std.now w.kernel).1 }) c s)
    where
      go :
          (r : Exit h ℕ)
          → Accepts h std closed sent listener r
          → Ends h std
              (Served h std listener read_only [])
              closed
              sent
              (and_then r λ socket u. scoped (socket ∷ []) (hand_over h std socket read_only u))
      go (ok socket u) (from_listener, c', s') =
          scoped-Ends h std (Sends socket read_only) (Served h std listener read_only []) closed
            sent socket (hand_over h std socket read_only u)
            (IsAcquired.accepted listener from_listener)
            (λ fds new d. (socket, from_listener, ap (λ ds. ds ++ (socket ∷ [])) d.0, d.1))
            (hand_over-Ends socket read_only u v small c' s')
      go (err e u) (c', s') =
          failed-Ends h std (Served h std listener read_only []) closed sent e u c' s'
      go (panic u) q = absurd q
      go out_of_fuel q = tt

  pub supervise-Ends :
      (program path : Bytes) (listener worker read_only : ℕ) (r : Exit h (Unit {0}))
      → Answered h (std.spawn program (child_flag ∷ path ∷ [])) worker
      → Ends h std (Served h std listener read_only []) closed sent r
      → Ends h std (Reaped h std listener read_only []) closed sent (supervise h std worker r)
  unfolding supervise
  supervise-Ends program path listener worker read_only (ok x w) spawned
        (fds, new, (socket, from_listener, is_fds, handed), c, s) =
      go (std.wait worker w.kernel) refl
    where
      broken : (k : h.Kernel) → Broken h std closed sent (record w { kernel = k })
      broken k = (
        fds,
        new,
        socket,
        read_only,
        subst (All (IsAcquired h std)) (sym is_fds)
            (IsAcquired.accepted listener from_listener, tt),
        handed.carried,
        c,
        s,
      )

      go :
          (a : Result Bool IoError × h.Kernel)
          → std.wait worker w.kernel ≡ a
          → Ends h std (Reaped h std listener read_only []) closed sent (
              and_then
                (answered a w)
                λ success. if success then ok tt else fail (custom ErrorKind.other_kind))
      go (Result.err e, k) is = broken k
      go (Result.ok false, k) is = broken k
      go (Result.ok true, k) is = (
        fds,
        new,
        (
          (socket, from_listener, is_fds, handed),
          program,
          path,
          worker,
          spawned,
          (w.kernel, k, is),
        ),
        c,
        s,
      )
  supervise-Ends program path listener worker read_only (err e w) spawned q = go (std.wait worker _)
    where
      go :
          (a : Result Bool IoError × h.Kernel)
          → Ends h std (Reaped h std listener read_only []) closed sent (
              and_then
                (answered a (record w { kernel = (std.kill worker w.kernel).1 }))
                λ success. fail e)
      go (Result.err x, k) = q
      go (Result.ok success, k) = q
  supervise-Ends program path listener worker read_only (panic w) spawned q = q
  supervise-Ends program path listener worker read_only out_of_fuel spawned q = tt
