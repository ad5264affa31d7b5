-- ===== src/Api/Lifecycle/Bags.antt =====
-- Every descriptor that a `SocketAncillary` ever owned, counted when the storage is gone.
use mathlib.Core.Quot
use mathlib.Core.Quot.{Quot}
use unix_ancillary.Base.{ℕ, ◌≡◌, ap, List, ◌++◌, length, arith}
use unix_ancillary.Bytes.{Bytes}
use unix_ancillary.Target.{IsTarget}
use unix_ancillary.System.{Host, World}
use unix_ancillary.System.Laws.{closed-drop_fds}
use unix_ancillary.Ancillary.Take.Owned.{fds_of}
use unix_ancillary.Ancillary.Drain.Account.{drop_messages-drop_fds}
use unix_ancillary.Ancillary.Drain.Ledger.{occurrences, occurrences-append}
use unix_ancillary.Cmsg.Fits.{ControlFits, ControlFixed}
use unix_ancillary.Api.Lifecycle.{Life, Ops, born, dropped}
use unix_ancillary.Api.Lifecycle.Sound.{IsSound, Ops-born-IsSound}

-- Two lists hold the same descriptors, each as often.
abbrev pub SameFds : List ℕ → List ℕ → Type 0
SameFds xs ys = (x : ℕ) → occurrences x xs ≡ occurrences x ys

-- Descriptors without their order.
abbrev pub Bag : Type 0
Bag = Quot SameFds

abbrev pub bag : List ℕ → Bag
bag xs = Quot.mk xs

dropped-SameFds :
    (h : Host) (capacity : ℕ) (before : List ℕ) (p : Life h)
    → IsSound h capacity before p
    → SameFds (before ++ p.arrived) (p.taken ++ (dropped h p).closed)
dropped-SameFds h capacity before p s x = omega (
  arith,
  s.accounted x,
  ap (λ w. occurrences x w.closed) (drop_messages-drop_fds h p.storage.received p.world),
  ap (occurrences x) (closed-drop_fds h (fds_of p.storage.received) p.world),
  occurrences-append x p.world.closed (fds_of p.storage.received),
  occurrences-append x p.taken (dropped h p).closed,
)

-- Under the same conditions, when the storage is dropped after any such sequence of calls, what had
-- been closed before and all that the kernel installed is, as a bag, what the caller took and what
-- has been closed: no descriptor leaks, none is closed twice, and none is both taken and closed.
pub dropped-bag :
    (h : Host) (buffer : Bytes) (w : World h) (p : Life h)
    → IsTarget h.target
    → ControlFits h
    → ControlFixed h
    → Ops h (born h buffer w) p
    → bag (w.closed ++ p.arrived) ≡ bag (p.taken ++ (dropped h p).closed)
dropped-bag h buffer w p v fits fixed ops =
    Quot.sound (
      dropped-SameFds h (length buffer) w.closed p (Ops-born-IsSound h buffer w p v fits fixed ops))
