-- ===== src/Asyncio/Complete.antt =====
-- The sends of the asynchronous `send_fds_all` of src/asyncio.rs, polled to the end or dropped.
use unix_ancillary.Base.{
  ℕ, zero, suc, ◌+◌, ◌≡◌, refl, ap, sym, subst, ◌∙◌, not, ◌&&◌, List, [], ◌∷◌, ◌++◌, drop, length,
  Bool-cases, if◌then◌else◌, arith, All, inl, inr, append-nil, append_assoc, ltb, ◌==◌,
}
use unix_ancillary.Bytes.{Bytes}
use unix_ancillary.Target.{IsTarget}
use unix_ancillary.System.{Host, World, Run, ok, err, panic, out_of_fuel, Sent}
use unix_ancillary.Ancillary.Take.Owned.{delivered}
use unix_ancillary.Ancillary.Buffer.Encode.{raw_messages-encode_all}
use unix_ancillary.Ancillary.Buffer.RoundTrip.{IsFd}
use unix_ancillary.Cmsg.{send_bytes}
use unix_ancillary.Ext.{validate_stream_send, send_fds_impl}
use unix_ancillary.Ext.Send.{Sends, send_fds_vectored_impl-Sends, sendmsg_vectored-Sends}
use unix_ancillary.Ext.Stream.{write_zero}
use unix_ancillary.Ext.Stream.Complete.{Carries, Completes, in_front, nonzero}
use unix_ancillary.Tokio.{Interest, Poll, ready, cancelled, Async, Runtime, await_then, run}
use unix_ancillary.Tokio.Retry.{Retryable, Concludes, async_io-Concludes, await_then_assoc}
use unix_ancillary.Asyncio.Stream.{
  after_async_send, async_send_rest, async_send_first, send_fds_all,
}

-- A send may be tried again: one that would block has sent nothing.
pub Sends-Retryable :
    (h : Host) (fd : ℕ) (iov : List Bytes) (fds : List ℕ) (op : Run h ℕ)
    → ((w : World h) → Sends h fd iov fds w.closed w.sent (op w))
    → (closed : List ℕ) (sent : List Sent)
    → Retryable closed sent op (Sends h fd iov fds closed sent)
Sends-Retryable h fd iov fds op each closed sent = record {
  ends = λ w c s. at w c s;
  bounces = λ w u e c s is would. subst (λ x. Sends h fd iov fds closed sent x) is (at w c s);
  untouched = λ u e c s. (c, s);
}
  where
    at : (w : World h) → w.closed ≡ closed → w.sent ≡ sent → Sends h fd iov fds closed sent (op w)
    at w c s =
        subst (λ x. Sends h fd iov fds x sent (op w)) c
          (subst (λ x. Sends h fd iov fds w.closed x (op w)) s (each w))

module _ (h : Host) (fd : ℕ) (payload : Bytes) where
  -- A future that is polled to its end completes; one that is dropped has sent a part, in order, and
  -- closed nothing.
  abbrev pub CompletesAsync :
      (fds : List ℕ)
      → (at : ℕ) → (closed : List ℕ) → (sent : List Sent) → Poll h (Unit {0})
      → Type 0
  CompletesAsync fds at closed sent (ready r) = Completes h fd payload fds at closed sent r
  CompletesAsync fds at closed sent (cancelled w) =
      (new : List Sent) × (w.sent ≡ sent ++ new)
      × Carries h fd payload fds at new
      × (w.closed ≡ closed)

  module _ (fds : List ℕ) (at : ℕ) (closed : List ℕ) (sent : List Sent) where
    -- A send of the rest of the payload, and what follows a successful one.
    await_rest :
        (f : ℕ → Async h (Unit {0})) (p : Poll h ℕ)
        → Concludes closed sent (Sends h fd (drop at payload ∷ []) fds closed sent) p
        → ((n : ℕ) (w : World h) (before : List Sent)
            → w.sent ≡ before
            → w.closed ≡ closed
            → CompletesAsync [] (at + n) closed before (f n w))
        → CompletesAsync fds at closed sent (await_then p f)
    await_rest f (ready (ok n w)) (control, is, carried, kept) later =
        join (f n w) (later n w (sent ++ (s ∷ [])) is kept)
      where
        s : Sent
        s = record { socket = fd; payload = drop at payload ∷ []; control = control; accepted = n }

        join :
            (p : Poll h (Unit {0}))
            → CompletesAsync [] (at + n) closed (sent ++ (s ∷ [])) p
            → CompletesAsync fds at closed sent p
        join (ready r) q = in_front h fd payload fds at closed sent s refl refl carried r q
        join (cancelled u) (new, same, rest, closed_same) = (
          s ∷ new,
          same ∙ append_assoc sent (s ∷ []) new,
          (refl, refl, carried, rest),
          closed_same,
        )
    await_rest f (ready (err e w)) q later = ([], q.1 ∙ sym (append-nil sent), tt, q.0)
    await_rest f (ready (panic w)) q later = ([], q.1 ∙ sym (append-nil sent), tt, q.0)
    await_rest f (ready out_of_fuel) q later = tt
    await_rest f (cancelled w) q later = ([], q.1 ∙ sym (append-nil sent), tt, q.0)

  async_send_rest-Completes :
      (rt : Runtime h) (fuel at : ℕ) (w : World h) (closed : List ℕ) (sent : List Sent)
      → IsTarget h.target
      → w.closed ≡ closed
      → w.sent ≡ sent
      → CompletesAsync [] at closed sent (async_send_rest h rt fuel fd payload at w)
  unfolding async_send_rest send_bytes
  async_send_rest-Completes rt zero at w closed sent v c s = tt
  async_send_rest-Completes rt (suc fuel) at w closed sent v c s =
      elim (Bool-cases (ltb at (length payload))) [
        | inr done ↦ rw done ([], s ∙ sym (append-nil sent), tt, ground arith, c)
        | inl more ↦ rw more (
            await_rest [] at closed sent
              (after_async_send h rt (async_send_rest h rt fuel fd payload) at)
              (rt.async_io fd Interest.writable (send_bytes h fd (drop at payload)) w)
              (async_io-Concludes closed sent (send_bytes h fd (drop at payload)) _
                (Sends-Retryable h fd (drop at payload ∷ []) [] _
                  (λ u.
                    sendmsg_vectored-Sends h fd (drop at payload ∷ []) [] [] 0 u
                      (ap (delivered h.target) (raw_messages-encode_all h.target [] v tt)))
                  closed sent)
                rt fd Interest.writable w c s)
              λ n u before is kept.
                after n u before is kept
                  (async_send_rest-Completes rt fuel (at + n) u closed before v kept is))
      ]
    where
      after :
          (n : ℕ) (u : World h) (before : List Sent)
          → u.sent ≡ before
          → u.closed ≡ closed
          → CompletesAsync []
              (at + n)
              closed
              before
              (async_send_rest h rt fuel fd payload (at + n) u)
          → CompletesAsync []
              (at + n)
              closed
              before
              (after_async_send h rt (async_send_rest h rt fuel fd payload) at n u)
      after zero u before is kept q = ([], is ∙ sym (append-nil before), tt, kept)
      after (suc n) u before is kept q = rw (nonzero h fd payload n) q

-- `async_send_first` on the answer of the send that carries descriptors.
abbrev checked : (h : Host) → ℕ → Async h ℕ
checked h n = run (if n == 0 then write_zero h else ok n)

-- On a target whose constants obey IsTarget, for descriptors that are non-negative i32 values, and
-- under a runtime that tries an operation again only when it failed with WouldBlock, the sends of
-- the async send_fds_all carry the payload one behind the other without gap or overlap, only the
-- first of them with the descriptors: all of the payload on success; a part on an error or when the
-- future is dropped at any await. Nothing is closed. A run that exceeds a bound is not constrained.
pub send_fds_all-CompletesAsync :
    (h : Host) (rt : Runtime h) (fd : ℕ) (payload : Bytes) (fds : List ℕ) (w : World h)
    → IsTarget h.target
    → All IsFd fds
    → CompletesAsync h fd payload fds 0 w.closed w.sent (send_fds_all h rt fd payload fds w)
unfolding send_fds_all validate_stream_send async_send_first send_fds_impl
send_fds_all-CompletesAsync h rt fd payload [] w v small = elim (Bool-cases (length payload == 0)) [
  | inl e ↦ rw e (loop w)
  | inr e ↦ rw e (loop w)
]
  where
    loop :
        (u : World h)
        → CompletesAsync h fd payload [] 0 u.closed u.sent
            (async_send_rest h rt (suc (length payload)) fd payload 0 u)
    loop u =
        async_send_rest-Completes h fd payload rt (suc (length payload)) 0 u u.closed u.sent v refl
          refl
send_fds_all-CompletesAsync h rt fd payload (first ∷ rest) w v small =
    elim (Bool-cases ((length payload == 0) && not (suc (length rest) == 0))) [
      | inl empty ↦ rw empty ([], sym (append-nil w.sent), tt, refl)
      | inr valid ↦
          rw (valid, await_then_assoc (rt.async_io fd Interest.writable op w) (checked h) _)
            (await_rest h fd payload (first ∷ rest) 0 w.closed w.sent _ _
              (async_io-Concludes w.closed w.sent op _
                (Sends-Retryable h fd (payload ∷ []) (first ∷ rest) op
                  (λ u. send_fds_vectored_impl-Sends h fd (payload ∷ []) (first ∷ rest) u v small)
                  w.closed w.sent)
                rt fd Interest.writable w refl refl)
              λ n u before is kept.
                subst
                  (λ at. CompletesAsync h fd payload [] at w.closed before (
                    await_then (checked h n u)
                      (async_send_rest h rt (suc (length payload)) fd payload)))
                  (add_zero n) (after n u before is kept))
    ]
  where
    op : Run h ℕ
    op = send_fds_impl h fd payload (first ∷ rest)

    add_zero : (n : ℕ) → n ≡ 0 + n
    add_zero n = omega arith

    after :
        (n : ℕ) (u : World h) (before : List Sent)
        → u.sent ≡ before
        → u.closed ≡ w.closed
        → CompletesAsync h fd payload [] n w.closed before
            (await_then (checked h n u) (async_send_rest h rt (suc (length payload)) fd payload))
    after zero u before is kept = ([], is ∙ sym (append-nil before), tt, kept)
    after (suc n) u before is kept = rw (nonzero h fd payload n) (
        async_send_rest-Completes h fd payload rt (suc (length payload)) (suc n) u w.closed before v
          kept is)
