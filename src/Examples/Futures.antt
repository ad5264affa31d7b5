-- ===== src/Examples/Futures.antt =====
-- Witnesses about async methods, on a runtime that tries an operation once and then waits for ever.
use unix_ancillary.Base.{◌≡◌, refl, if◌then◌else◌, Bool-cases, inl, inr, [], ◌∷◌, arith}
use unix_ancillary.Target.Linux.{x86_64_linux-IsTarget}
use unix_ancillary.System.{Host, World, Run, Exit, ok, err, panic, out_of_fuel, error_kind}
use unix_ancillary.Tokio.{
  Poll, ready, cancelled, Attempts, answered, blocked, dropped, Runtime, is_would_block,
}
use unix_ancillary.Asyncio.Stream
use unix_ancillary.Asyncio.Blocked.{FcntlNeverBlocks}
use unix_ancillary.Asyncio.Receive.{ReceivesConclude, async-ReceivesConclude}
use unix_ancillary.Asyncio.Returns.{SendsReturn, ReceivesReturn, async_methods_return}
use unix_ancillary.Asyncio.Complete.{CompletesAsync, send_fds_all-CompletesAsync}
use unix_ancillary.Examples.Machine.{host, start, host-ControlFits, host-Settles}

-- What one attempt ends in, where a second one never comes.
abbrev once : {h : Host} {A : Type 0} → Exit h A → Poll h A
once (ok a w) = ready (ok a w)
once {h} (err e w) = if is_would_block (error_kind h.target e) then cancelled w else ready (err e w)
once (panic w) = ready (panic w)
once out_of_fuel = ready out_of_fuel

once-Attempts :
    {h : Host} {A : Type 0} (op : Run h A) (w : World h) (r : Exit h A)
    → op w ≡ r
    → Attempts h op w (once r)
once-Attempts op w (ok a u) e = answered w.kernel (rw e refl) (rw e refl)
once-Attempts op w (panic u) e = answered w.kernel (rw e refl) (rw e refl)
once-Attempts op w out_of_fuel e = answered w.kernel (rw e refl) (rw e refl)
once-Attempts {h} op w (err x u) e = elim (Bool-cases (is_would_block (error_kind h.target x))) [
  | inl would ↦ blocked w.kernel x u e would (rw would (dropped u.kernel refl))
  | inr other ↦ answered w.kernel (rw (e, other) refl) (rw (e, other) refl)
]

abbrev runtime : (h : Host) → Runtime h
runtime h = record {
  async_io = λ fd interest op w. once (op w);
  documented = λ fd interest op w. once-Attempts op w (op w) refl;
}

host-FcntlNeverBlocks : FcntlNeverBlocks host
host-FcntlNeverBlocks = record { getfd = λ fd x k k' e. cc; setfd = λ fd flags x k k' e. cc }

async-ReceivesConclude_example :
    ReceivesConclude host (runtime host) 2 3 (0 ∷ 0 ∷ []) ((0 ∷ []) ∷ (0 ∷ []) ∷ []) start
async-ReceivesConclude_example =
    async-ReceivesConclude host (runtime host) 2 3 (0 ∷ 0 ∷ []) ((0 ∷ []) ∷ (0 ∷ []) ∷ []) start
      x86_64_linux-IsTarget host-ControlFits host-FcntlNeverBlocks

async_methods_return_example :
    SendsReturn host (runtime host) 3 (104 ∷ 105 ∷ []) ((104 ∷ []) ∷ []) (5 ∷ 6 ∷ []) start
    × ReceivesReturn host (runtime host) 2 3 (104 ∷ 105 ∷ []) ((104 ∷ []) ∷ []) start
async_methods_return_example =
    async_methods_return host (runtime host) 2 3 (104 ∷ 105 ∷ []) ((104 ∷ []) ∷ []) (5 ∷ 6 ∷ [])
      start x86_64_linux-IsTarget host-ControlFits host-Settles

send_fds_all-CompletesAsync_example :
    CompletesAsync host 3
      (104 ∷ 105 ∷ [])
      (5 ∷ 6 ∷ [])
      0
      []
      []
      (Stream.send_fds_all host (runtime host) 3 (104 ∷ 105 ∷ []) (5 ∷ 6 ∷ []) start)
send_fds_all-CompletesAsync_example =
    send_fds_all-CompletesAsync host (runtime host) 3 (104 ∷ 105 ∷ []) (5 ∷ 6 ∷ []) start
      x86_64_linux-IsTarget (omega arith, (omega arith, tt))
