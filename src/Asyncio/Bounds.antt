-- ===== src/Asyncio/Bounds.antt =====
-- The loops and the retries of src/asyncio.rs within the bounds of the model.
use unix_ancillary.Base.{
  ℕ, zero, suc, ◌+◌, ◌-◌, ◌<◌, ◌≡◌, false, not, ◌&&◌, List, [], ◌∷◌, length, drop, ltb, ◌==◌,
  if◌then◌else◌, Bool-cases, inl, inr, arith,
}
use unix_ancillary.Bytes.{Bytes}
use unix_ancillary.Target.{IsTarget}
use unix_ancillary.System.{Host, World, Run, ok, err, panic, out_of_fuel}
use unix_ancillary.Cmsg.{send_bytes}
use unix_ancillary.Ext.{
  SocketKind, CountMode, iov_len, validate_stream_send, send_fds_impl, recv_fds_into_vectored_impl,
  recv_owned_impl,
}
use unix_ancillary.Ext.Stream.{write_zero}
use unix_ancillary.Cmsg.Fits.{ControlFits}
use unix_ancillary.Ext.Returns.{send_fds_vectored_impl-Returns, recv_core-Returns}
use unix_ancillary.Cmsg.Returns.{Settles, Returns, and_then-Returns, sendmsg_vectored-Returns}
use unix_ancillary.Tokio.{
  Interest, Poll, ready, cancelled, Async, Attempts, answered, blocked, shut_down, dropped, Runtime,
  await_then,
}
use unix_ancillary.Asyncio.Stream
use unix_ancillary.Asyncio.Stream.{after_async_send, async_send_rest, async_send_first}

-- A future that is polled to its end ends within the bounds.
abbrev pub ReturnsAsync : {h : Host} {A : Type 0} → Poll h A → Type 0
ReturnsAsync (ready r) = Returns r
ReturnsAsync (cancelled w) = Unit {0}

Attempts-ReturnsAsync :
    {h : Host} {A : Type 0} (op : Run h A) (w : World h) (r : Poll h A)
    → ((u : World h) → Returns (op u))
    → Attempts h op w r
    → ReturnsAsync r
Attempts-ReturnsAsync op w r each (answered k final is) = rw is (each (record w { kernel = k }))
Attempts-ReturnsAsync op w r each (blocked k e u is would more) =
    Attempts-ReturnsAsync op u r each more
Attempts-ReturnsAsync op w r each (shut_down k e is) = rw is tt
Attempts-ReturnsAsync op w r each (dropped k is) = rw is tt

await_then-ReturnsAsync :
    {h : Host} {A B : Type 0} (p : Poll h A) (f : A → Async h B)
    → ReturnsAsync p
    → ((a : A) (w : World h) → ReturnsAsync (f a w))
    → ReturnsAsync (await_then p f)
await_then-ReturnsAsync (ready (ok a w)) f q g = g a w
await_then-ReturnsAsync (ready (err e w)) f q g = tt
await_then-ReturnsAsync (ready (panic w)) f q g = tt
await_then-ReturnsAsync (ready out_of_fuel) f q g = q
await_then-ReturnsAsync (cancelled w) f q g = tt

module _ (h : Host) (rt : Runtime h) (s : Settles h) where
  pub async_io-ReturnsAsync :
      {A : Type 0} (fd : ℕ) (interest : Interest) (op : Run h A) (w : World h)
      → ((u : World h) → Returns (op u))
      → ReturnsAsync (rt.async_io fd interest op w)
  async_io-ReturnsAsync fd interest op w each =
      Attempts-ReturnsAsync op w _ each (rt.documented fd interest op w)

  pub send_fds_impl-Returns :
      (fd : ℕ) (payload : Bytes) (fds : List ℕ) (w : World h)
      → Returns (send_fds_impl h fd payload fds w)
  unfolding send_fds_impl
  send_fds_impl-Returns fd payload fds w =
      send_fds_vectored_impl-Returns h s fd (payload ∷ []) fds w

  async_send_rest-ReturnsAsync :
      (fuel fd : ℕ) (payload : Bytes) (at : ℕ) (w : World h)
      → length payload - at < fuel
      → ReturnsAsync (async_send_rest h rt fuel fd payload at w)
  unfolding async_send_rest send_bytes
  async_send_rest-ReturnsAsync zero fd payload at w rounds = absurd (omega arith)
  async_send_rest-ReturnsAsync (suc fuel) fd payload at w rounds =
      elim (Bool-cases (ltb at (length payload))) [
        | inr done ↦ rw done tt
        | inl more ↦ rw more (
            await_then-ReturnsAsync _ _
              (async_io-ReturnsAsync fd Interest.writable (send_bytes h fd (drop at payload)) w
                λ u. sendmsg_vectored-Returns h s fd (drop at payload ∷ []) [] 0 u)
              λ n u.
                after n u (ground arith)
                  λ less. async_send_rest-ReturnsAsync fuel fd payload (at + n) u less)
      ]
    where
      after :
          (n : ℕ) (u : World h)
          → at < length payload
          → (length payload - (at + n) < fuel
              → ReturnsAsync (async_send_rest h rt fuel fd payload (at + n) u))
          → ReturnsAsync (after_async_send h rt (async_send_rest h rt fuel fd payload) at n u)
      after zero u more later = tt
      after (suc n) u more later =
          let positive : (suc n == 0) ≡ false = ground arith in
          rw positive (later (omega (arith, rounds)))

  validate_stream_send-Returns :
      (payload : Bytes) (n : ℕ) (w : World h) → Returns (validate_stream_send h payload n w)
  unfolding validate_stream_send
  validate_stream_send-Returns payload n w =
      elim (Bool-cases ((length payload == 0) && not (n == 0))) [
        | inl e ↦ rw e tt
        | inr e ↦ rw e tt
      ]

  async_send_first-ReturnsAsync :
      (fd : ℕ) (payload : Bytes) (fds : List ℕ) (w : World h)
      → ReturnsAsync (async_send_first h rt fd payload fds w)
  unfolding async_send_first
  async_send_first-ReturnsAsync fd payload [] w = tt
  async_send_first-ReturnsAsync fd payload (first ∷ rest) w =
      await_then-ReturnsAsync _ _
        (async_io-ReturnsAsync fd Interest.writable (send_fds_impl h fd payload (first ∷ rest)) w
          (send_fds_impl-Returns fd payload (first ∷ rest)))
        λ n u. nonzero n u
    where
      nonzero : (n : ℕ) (u : World h) → Returns ((if n == 0 then write_zero h else ok n) u)
      nonzero n u = elim (Bool-cases (n == 0)) [ inl e ↦ rw e tt | inr e ↦ rw e tt ]

  pub send_fds_all-ReturnsAsync :
      (fd : ℕ) (payload : Bytes) (fds : List ℕ) (w : World h)
      → ReturnsAsync (Stream.send_fds_all h rt fd payload fds w)
  unfolding Stream.send_fds_all
  send_fds_all-ReturnsAsync fd payload fds w =
      await_then-ReturnsAsync (ready (validate_stream_send h payload (length fds) w)) _
        (validate_stream_send-Returns payload (length fds) w)
        λ u w₁.
          await_then-ReturnsAsync (async_send_first h rt fd payload fds w₁) _
            (async_send_first-ReturnsAsync fd payload fds w₁)
            λ at w₂.
              async_send_rest-ReturnsAsync (suc (length payload)) fd payload at w₂ (omega arith)

  pub send_fds_vectored-ReturnsAsync :
      (fd : ℕ) (iov : List Bytes) (fds : List ℕ) (w : World h)
      → ReturnsAsync (Stream.send_fds_vectored h rt fd iov fds w)
  unfolding Stream.send_fds_vectored
  send_fds_vectored-ReturnsAsync fd iov [] w =
      async_io-ReturnsAsync fd Interest.writable _ w (send_fds_vectored_impl-Returns h s fd iov [])
  send_fds_vectored-ReturnsAsync fd iov (first ∷ rest) w = elim (Bool-cases (iov_len iov == 0)) [
    | inl empty ↦ rw empty tt
    | inr some_byte ↦ rw some_byte (
        async_io-ReturnsAsync fd Interest.writable _ w
          (send_fds_vectored_impl-Returns h s fd iov (first ∷ rest)))
  ]

  pub stream_send_fds-ReturnsAsync :
      (fd : ℕ) (payload : Bytes) (fds : List ℕ) (w : World h)
      → ReturnsAsync (Stream.send_fds h rt fd payload fds w)
  unfolding Stream.send_fds
  stream_send_fds-ReturnsAsync fd payload fds w =
      await_then-ReturnsAsync (ready (validate_stream_send h payload (length fds) w)) _
        (validate_stream_send-Returns payload (length fds) w)
        λ a u. async_io-ReturnsAsync fd Interest.writable _ u (send_fds_impl-Returns fd payload fds)

  module _ (v : IsTarget h.target) (law : ControlFits h) (fd : ℕ) (kind : SocketKind)
      (mode : CountMode) (w : World h) where
    pub owned-ReturnsAsync :
        (data_buf : Bytes)
        → ReturnsAsync
            (rt.async_io fd Interest.readable (recv_owned_impl h fd data_buf kind mode) w)
    owned-ReturnsAsync data_buf = async_io-ReturnsAsync fd Interest.readable _ w λ u.
        unfold recv_owned_impl in
        and_then-Returns _ _ (recv_core-Returns h fd (data_buf ∷ []) kind mode u v law s)
          λ a u' e. tt

    pub vectored-ReturnsAsync :
        (iov : List Bytes)
        → ReturnsAsync
            (rt.async_io fd Interest.readable (recv_fds_into_vectored_impl h fd iov kind mode) w)
    vectored-ReturnsAsync iov = async_io-ReturnsAsync fd Interest.readable _ w λ u.
        unfold recv_fds_into_vectored_impl in
        and_then-Returns _ _ (recv_core-Returns h fd iov kind mode u v law s) λ a u' e. tt
