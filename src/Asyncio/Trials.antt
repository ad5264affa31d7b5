-- ===== src/Asyncio/Trials.antt =====
-- A receive under `async_io`: what arrived in the attempts that would block, and in the one that
-- answered.
use unix_ancillary.Base.{ℕ, ◌≡◌, refl, ap₂, true, List, [], ◌++◌}
use unix_ancillary.System.{
  Host, World, Run, Exit, err, out_of_fuel, MsgHdr, Sent, IoError, error_kind,
}
use unix_ancillary.Cmsg.{RecvMsgResult}
use unix_ancillary.Cmsg.Recv.{batch}
use unix_ancillary.Tokio.{
  Poll, Attempts, answered, blocked, shut_down, dropped, Runtime, Interest, is_would_block,
}
use unix_ancillary.Tokio.Retry.{Concludes}

module _ {h : Host} {A : Type 0} (receive : Run h (RecvMsgResult × MsgHdr)) (op : Run h A) where
  -- The descriptors that arrived in the attempts before the last one, each of which would block.
  abbrev pub bounced : {w : World h} → {p : Poll h A} → Attempts h op w p → List ℕ
  bounced (answered k final is) = []
  bounced {w} (blocked k e u is would more) =
      batch h (receive (record w { kernel = k })) ++ bounced more
  bounced (shut_down k e is) = []
  bounced (dropped k is) = []

  -- The `recvmsg` of the attempt that answered. Where the runtime shuts down, its own error.
  abbrev pub decisive :
      {w : World h} → {p : Poll h A} → Attempts h op w p → Exit h (RecvMsgResult × MsgHdr)
  decisive {w} (answered k final is) = receive (record w { kernel = k })
  decisive (blocked k e u is would more) = decisive more
  decisive {w} (shut_down k e is) = err e (record w { kernel = k })
  decisive (dropped k is) = out_of_fuel

  -- Every attempt ends in `P` of its `recvmsg`; one that would block has delivered, closed and sent
  -- nothing; an error without a receive that has done neither is in `P`.
  pub record Receives (closed : List ℕ) (sent : List Sent)
      (P : Exit h (RecvMsgResult × MsgHdr) → Exit h A → Type 0) : Type 0 where
    pub ends : (w : World h) → w.closed ≡ closed → w.sent ≡ sent → P (receive w) (op w)
    pub bounces :
        (w u : World h) (e : IoError)
        → w.closed ≡ closed
        → w.sent ≡ sent
        → op w ≡ err e u
        → is_would_block (error_kind h.target e) ≡ true
        → (batch h (receive w) ≡ []) × (u.closed ≡ closed) × (u.sent ≡ sent)
    pub untouched :
        (u : World h) (e : IoError) → u.closed ≡ closed → u.sent ≡ sent → P (err e u) (err e u)

  module _ (closed : List ℕ) (sent : List Sent)
      (P : Exit h (RecvMsgResult × MsgHdr) → Exit h A → Type 0) (q : Receives closed sent P) where
    Attempts-Receives :
        (w : World h) (p : Poll h A) (d : Attempts h op w p)
        → w.closed ≡ closed
        → w.sent ≡ sent
        → (bounced d ≡ []) × Concludes closed sent (P (decisive d)) p
    Attempts-Receives w p (answered k final is) c s =
        (refl, rw is (q.ends (record w { kernel = k }) c s))
    Attempts-Receives w p (blocked k e u is would more) c s =
        let (none, c', s') = q.bounces (record w { kernel = k }) u e c s is would in
        let later = Attempts-Receives u p more c' s' in
        (ap₂ (λ ds es. ds ++ es) none later.0, later.1)
    Attempts-Receives w p (shut_down k e is) c s =
        (refl, rw is (q.untouched (record w { kernel = k }) e c s))
    Attempts-Receives w p (dropped k is) c s = (refl, rw is (c, s))

    pub async_io-Receives :
        (rt : Runtime h) (fd : ℕ) (interest : Interest) (w : World h)
        → w.closed ≡ closed
        → w.sent ≡ sent
        → (bounced (rt.documented fd interest op w) ≡ [])
          × Concludes closed sent
              (P (decisive (rt.documented fd interest op w)))
              (rt.async_io fd interest op w)
    async_io-Receives rt fd interest w c s =
        Attempts-Receives w _ (rt.documented fd interest op w) c s
