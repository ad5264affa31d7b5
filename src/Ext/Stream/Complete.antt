-- ===== src/Ext/Stream/Complete.antt =====
-- The sends of `send_fds_all` of src/ext.rs.
use unix_ancillary.Base.{
  ℕ, zero, suc, ◌+◌, ◌≤◌, ◌≡◌, refl, ap, sym, subst, ◌∙◌, false, not, ◌&&◌, List, [], ◌∷◌, ◌++◌,
  drop, length, Bool-cases, if◌then◌else◌, arith, All, inl, inr, append-nil, append_assoc, ltb,
  ◌==◌,
}
use unix_ancillary.Bytes.{Bytes}
use unix_ancillary.Target.{IsTarget}
use unix_ancillary.System.{Host, World, Run, Exit, ok, err, panic, out_of_fuel, Sent, and_then}
use unix_ancillary.Ancillary.Raw.Parse.{raw_messages}
use unix_ancillary.Ancillary.Take.Owned.{delivered}
use unix_ancillary.Ancillary.Buffer.RoundTrip.{IsFd}
use unix_ancillary.Ancillary.Buffer.Encode.{raw_messages-encode_all}
use unix_ancillary.System.Quiet.{and_then_assoc}
use unix_ancillary.Cmsg.{send_bytes}
use unix_ancillary.Ext.{validate_stream_send, send_fds_impl}
use unix_ancillary.Ext.Send.{Sends, send_fds_vectored_impl-Sends, sendmsg_vectored-Sends}
use unix_ancillary.Ext.Stream.{after_send, write_zero, send_rest, send_first, send_fds_all}

module _ (h : Host) (fd : ℕ) (payload : Bytes) where
  -- Sends that carry the payload from offset `sent` on, one after the other, each from where the
  -- bytes accepted before it end, and that carry the descriptors `fds` in the first one only.
  abbrev pub Carries : (fds : List ℕ) → (sent : ℕ) → List Sent → Type 0
  Carries fds sent [] = Unit {0}
  Carries fds sent (s ∷ rest) =
      (s.socket ≡ fd)
      × (s.payload ≡ drop sent payload ∷ [])
      × (delivered h.target (raw_messages h.target s.control) ≡ fds)
      × Carries [] (sent + s.accepted) rest

  abbrev pub accepted : List Sent → ℕ
  accepted [] = 0
  accepted (s ∷ rest) = s.accepted + accepted rest

  -- Nothing is closed, what was sent carries the payload from `at` on, and a success has sent it all.
  abbrev pub Completes :
      (fds : List ℕ)
      → (at : ℕ) → (closed : List ℕ) → (sent : List Sent) → Exit h (Unit {0})
      → Type 0
  Completes fds at closed sent (ok u w) =
      (new : List Sent) × (w.sent ≡ sent ++ new)
      × Carries fds at new
      × (length payload ≤ at + accepted new)
      × (w.closed ≡ closed)
  Completes fds at closed sent (err e w) =
      (new : List Sent) × (w.sent ≡ sent ++ new) × Carries fds at new × (w.closed ≡ closed)
  Completes fds at closed sent (panic w) =
      (new : List Sent) × (w.sent ≡ sent ++ new) × Carries fds at new × (w.closed ≡ closed)
  Completes fds at closed sent out_of_fuel = Unit {0}

  -- One send in front of the rest.
  module _ (fds : List ℕ) (at : ℕ) (closed : List ℕ) (sent : List Sent) (s : Sent)
      (socket : s.socket ≡ fd) (carried : s.payload ≡ drop at payload ∷ [])
      (control : delivered h.target (raw_messages h.target s.control) ≡ fds) where
    pub in_front :
        (r : Exit h (Unit {0}))
        → Completes [] (at + s.accepted) closed (sent ++ (s ∷ [])) r
        → Completes fds at closed sent r
    in_front (ok u w) (new, is, rest, all, kept) = (
      s ∷ new,
      is ∙ append_assoc sent (s ∷ []) new,
      (socket, carried, control, rest),
      omega (arith, all),
      kept,
    )
    in_front (err e w) (new, is, rest, kept) =
        (s ∷ new, is ∙ append_assoc sent (s ∷ []) new, (socket, carried, control, rest), kept)
    in_front (panic w) (new, is, rest, kept) =
        (s ∷ new, is ∙ append_assoc sent (s ∷ []) new, (socket, carried, control, rest), kept)
    in_front out_of_fuel q = tt

  module _ (fds : List ℕ) (at : ℕ) (closed : List ℕ) (sent : List Sent) where
    -- A send of the rest of the payload, and what follows a successful one.
    then_rest :
        (f : ℕ → Run h (Unit {0})) (r : Exit h ℕ)
        → Sends h fd (drop at payload ∷ []) fds closed sent r
        → ((n : ℕ) (w : World h) (before : List Sent)
            → w.sent ≡ before
            → w.closed ≡ closed
            → Completes [] (at + n) closed before (f n w))
        → Completes fds at closed sent (and_then r f)
    then_rest f (ok n w) (control, is, carried, kept) later =
        let s : Sent = record {
          socket = fd;
          payload = drop at payload ∷ [];
          control = control;
          accepted = n;
        } in
        in_front fds at closed sent s refl refl carried (f n w)
          (later n w (sent ++ (s ∷ [])) is kept)
    then_rest f (err e w) q later = ([], q.1 ∙ sym (append-nil sent), tt, q.0)
    then_rest f (panic w) q later = ([], q.1 ∙ sym (append-nil sent), tt, q.0)
    then_rest f out_of_fuel q later = tt

  pub nonzero : (n : ℕ) → (suc n == 0) ≡ false
  nonzero n = ground arith

  send_rest-Completes :
      (fuel at : ℕ) (w : World h) (closed : List ℕ) (sent : List Sent)
      → IsTarget h.target
      → w.closed ≡ closed
      → w.sent ≡ sent
      → Completes [] at closed sent (send_rest h fuel fd payload at w)
  unfolding send_rest send_bytes
  send_rest-Completes zero at w closed sent v c s = tt
  send_rest-Completes (suc fuel) at w closed sent v c s =
      elim (Bool-cases (ltb at (length payload))) [
        | inr done ↦ rw done ([], s ∙ sym (append-nil sent), tt, ground arith, c)
        | inl more ↦ rw more (
            then_rest [] at closed sent (after_send h (send_rest h fuel fd payload) at)
              (send_bytes h fd (drop at payload) w)
              (subst
                (λ x.
                  Sends h fd (drop at payload ∷ []) [] x sent (send_bytes h fd (drop at payload) w))
                c
                (subst
                  (λ x.
                    Sends h fd (drop at payload ∷ []) [] w.closed x
                      (send_bytes h fd (drop at payload) w))
                  s
                  (sendmsg_vectored-Sends h fd (drop at payload ∷ []) [] [] 0 w
                    (ap (delivered h.target) (raw_messages-encode_all h.target [] v tt)))))
              λ n u before is kept.
                after n u before is kept
                  (send_rest-Completes fuel (at + n) u closed before v kept is))
      ]
    where
      after :
          (n : ℕ) (u : World h) (before : List Sent)
          → u.sent ≡ before
          → u.closed ≡ closed
          → Completes [] (at + n) closed before (send_rest h fuel fd payload (at + n) u)
          → Completes [] (at + n) closed before (after_send h (send_rest h fuel fd payload) at n u)
      after zero u before is kept q = ([], is ∙ sym (append-nil before), tt, kept)
      after (suc n) u before is kept q = rw (nonzero n) q

-- `send_first` on the answer of the send that carries descriptors.
abbrev checked : (h : Host) → ℕ → Run h ℕ
checked h n = if n == 0 then write_zero h else ok n

-- On a target whose constants obey IsTarget, for descriptors that are non-negative i32 values, the
-- sends of send_fds_all carry the payload one behind the other without gap or overlap, the receiver
-- decodes the descriptors from the control bytes of the first and none from the others, nothing is
-- closed, and if it returns Ok at least the length of the payload was accepted. A run that exceeds
-- the bound on retries is not constrained.
pub send_fds_all-Completes :
    (h : Host) (fd : ℕ) (payload : Bytes) (fds : List ℕ) (w : World h)
    → IsTarget h.target
    → All IsFd fds
    → Completes h fd payload fds 0 w.closed w.sent (send_fds_all h fd payload fds w)
unfolding send_fds_all validate_stream_send send_first send_fds_impl
send_fds_all-Completes h fd payload [] w v small = elim (Bool-cases (length payload == 0)) [
  | inl e ↦
      rw e (send_rest-Completes h fd payload (suc (length payload)) 0 w w.closed w.sent v refl refl)
  | inr e ↦
      rw e (send_rest-Completes h fd payload (suc (length payload)) 0 w w.closed w.sent v refl refl)
]
send_fds_all-Completes h fd payload (first ∷ rest) w v small =
    elim (Bool-cases ((length payload == 0) && not (suc (length rest) == 0))) [
      | inl empty ↦ rw empty ([], sym (append-nil w.sent), tt, refl)
      | inr valid ↦
          rw (valid, and_then_assoc (send_fds_impl h fd payload (first ∷ rest) w) (checked h) _)
            (then_rest h fd payload (first ∷ rest) 0 w.closed w.sent _ _
              (send_fds_vectored_impl-Sends h fd (payload ∷ []) (first ∷ rest) w v small)
              λ n u before is kept.
                subst
                  (λ at.
                    Completes h fd payload [] at w.closed before
                      (and_then (checked h n u) (send_rest h (suc (length payload)) fd payload)))
                  (add_zero n) (after n u before is kept))
    ]
  where
    add_zero : (n : ℕ) → n ≡ 0 + n
    add_zero n = omega arith

    after :
        (n : ℕ) (u : World h) (before : List Sent)
        → u.sent ≡ before
        → u.closed ≡ w.closed
        → Completes h fd payload [] n w.closed before
            (and_then (checked h n u) (send_rest h (suc (length payload)) fd payload))
    after zero u before is kept = ([], is ∙ sym (append-nil before), tt, kept)
    after (suc n) u before is kept = rw (nonzero h fd payload n) (
        send_rest-Completes h fd payload (suc (length payload)) (suc n) u w.closed before v kept is)
