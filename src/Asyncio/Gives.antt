-- ===== src/Asyncio/Gives.antt =====
-- A receive of src/ext.rs under `async_io`: what its future gives, whatever the receive.
use unix_ancillary.Base.{ℕ, ◌≡◌, refl, true, List, [], subst}
use unix_ancillary.Bytes.{Bytes}
use unix_ancillary.System.{
  Host, World, Run, Exit, ok, err, panic, out_of_fuel, MsgHdr, Sent, IoError, error_kind, and_then,
}
use unix_ancillary.Ext.{CountMode}
use unix_ancillary.Cmsg.{RecvMsgResult}
use unix_ancillary.Ext.Attempt.{attempted}
use unix_ancillary.Cmsg.Recv.{batch}
use unix_ancillary.Tokio.{Interest, Poll, Attempts, Runtime, is_would_block}
use unix_ancillary.Tokio.Retry.{Concludes}
use unix_ancillary.Asyncio.Blocked.{Bounces}
use unix_ancillary.Asyncio.Trials.{bounced, decisive, async_io-Receives}

module _ {h : Host} where
  -- What is done with a success does not block.
  pub map-Bounces :
      {A B : Type 0} (attempt : Exit h (RecvMsgResult × MsgHdr)) (closed : List ℕ)
      (sent : List Sent) (r : Exit h A) (f : A → B)
      → Bounces attempt closed sent r
      → Bounces attempt closed sent (and_then r (λ a. ok (f a)))
  map-Bounces attempt closed sent (ok a w) f q = tt
  map-Bounces attempt closed sent (err e w) f q = q
  map-Bounces attempt closed sent (panic w) f q = tt
  map-Bounces attempt closed sent out_of_fuel f q = tt

  from-Bounces :
      {A : Type 0} (attempt : Exit h (RecvMsgResult × MsgHdr)) (closed : List ℕ) (sent : List Sent)
      (r : Exit h A) (e : IoError) (u : World h)
      → Bounces attempt closed sent r
      → r ≡ err e u
      → is_would_block (error_kind h.target e) ≡ true
      → (batch h attempt ≡ []) × (u.closed ≡ closed) × (u.sent ≡ sent)
  from-Bounces attempt closed sent r e u q is would =
      (subst (λ x. Bounces attempt closed sent x) is q) would

module _ (h : Host) (rt : Runtime h) (fd : ℕ) (w : World h) (mode : CountMode) {A : Type 0}
    (iov : List Bytes) (op : Run h A)
    (P : Exit h (RecvMsgResult × MsgHdr) → List ℕ → List Sent → Exit h A → Type 0) where
  abbrev trial : Attempts h op w (rt.async_io fd Interest.readable op w)
  trial = rt.documented fd Interest.readable op w

  -- The future runs `op` under `async_io`. In none of its attempts but the last a descriptor
  -- arrived, and it ends in `P` of the last one's `recvmsg`, or has done nothing if it is dropped.
  abbrev pub Gives : Poll h A → Type 0
  Gives p =
      (p ≡ rt.async_io fd Interest.readable op w)
      × (bounced (attempted h fd iov mode) op trial ≡ [])
      × Concludes w.closed w.sent (P (decisive (attempted h fd iov mode) op trial) w.closed w.sent)
          p

  -- A receive may be tried again: one that would block has closed nothing.
  pub receives-Gives :
      ((u : World h) → P (attempted h fd iov mode u) u.closed u.sent (op u))
      → ((u : World h) (closed : List ℕ) (sent : List Sent)
          → u.closed ≡ closed
          → u.sent ≡ sent
          → Bounces (attempted h fd iov mode u) closed sent (op u))
      → ((u : World h) (e : IoError)
          → u.closed ≡ w.closed
          → u.sent ≡ w.sent
          → P (err e u) w.closed w.sent (err e u))
      → Gives (rt.async_io fd Interest.readable op w)
  receives-Gives each bounce untouched = (refl, all.0, all.1)
    where
      receive : Run h (RecvMsgResult × MsgHdr)
      receive = attempted h fd iov mode

      all :
          (bounced receive op trial ≡ [])
          × Concludes w.closed w.sent
              (P (decisive receive op trial) w.closed w.sent)
              (rt.async_io fd Interest.readable op w)
      all =
          async_io-Receives receive op w.closed w.sent (λ attempt. P attempt w.closed w.sent)
            (record {
              ends = λ u c s.
                  subst (λ x. P (receive u) x w.sent (op u)) c
                    (subst (λ x. P (receive u) u.closed x (op u)) s (each u));
              bounces = λ u x e c s.
                  from-Bounces (receive u) w.closed w.sent (op u) e x
                    (bounce u w.closed w.sent c s);
              untouched = untouched;
            })
            rt fd Interest.readable w refl refl
