-- ===== src/Tokio.antt =====
-- What the crate takes from tokio: `async_io` of its sockets and of `AsyncFd`, as a parameter with the
-- documented behaviour, and a monad for the async methods. A future that is dropped at an `await`
-- leaves its world as `cancelled`.
pub mod Retry
use unix_ancillary.Base.{ℕ, ◌≡◌, Bool, true, false}
use unix_ancillary.Target.{ErrorKind}
use unix_ancillary.System.{Host, World, Run, Exit, ok, err, panic, out_of_fuel, IoError, error_kind}

pub data Interest : Type 0 where
  readable writable : Interest

-- What becomes of a future: it is polled to its end, or dropped while it waits.
pub data Poll (h : Host) (A : Type 0) : Type 0 where
  ready : Exit h A → Poll h A
  cancelled : World h → Poll h A

abbrev pub Async : Host → Type 0 → Type 0
Async h A = World h → Poll h A

module _ {h : Host} where
  abbrev pub await_then : {A B : Type 0} → Poll h A → (A → Async h B) → Poll h B
  await_then (ready (ok a w)) f = f a w
  await_then (ready (err e w)) f = ready (err e w)
  await_then (ready (panic w)) f = ready (panic w)
  await_then (ready out_of_fuel) f = ready out_of_fuel
  await_then (cancelled w) f = cancelled w

  infixl 5 ◌>>=◌ ◌>>◌
  abbrev pub ◌>>=◌ : {A B : Type 0} → Async h A → (A → Async h B) → Async h B
  ◌>>=◌ m f w = await_then (m w) f

  abbrev pub ◌>>◌ : {A B : Type 0} → Async h A → Async h B → Async h B
  m >> k = m >>= λ _. k

  -- Code between two `await`s.
  abbrev pub run : {A : Type 0} → Run h A → Async h A
  run m w = ready (m w)

abbrev pub is_would_block : ErrorKind → Bool
is_would_block ErrorKind.would_block = true
is_would_block _ = false

-- Whether the operation asks to be tried again when the socket is ready.
abbrev pub blocks : {h : Host} {A : Type 0} → Exit h A → Bool
blocks {h} (err e w) = is_would_block (error_kind h.target e)
blocks _ = false

-- `async_io` waits for readiness, which changes the kernel's state only, and tries the operation;
-- on `WouldBlock` it waits again. It ends with the operation's first other result, with an error
-- of its own when the runtime shuts down, or by being dropped while it waits.
pub data Attempts (h : Host) {A : Type 0} (op : Run h A) : World h → Poll h A → Type 0 where
  answered :
      {w : World h} {r : Poll h A} (k : h.Kernel)
      → blocks (op (record w { kernel = k })) ≡ false
      → r ≡ ready (op (record w { kernel = k }))
      → Attempts h op w r
  blocked :
      {w : World h} {r : Poll h A} (k : h.Kernel) (e : IoError) (u : World h)
      → op (record w { kernel = k }) ≡ err e u
      → is_would_block (error_kind h.target e) ≡ true
      → Attempts h op u r
      → Attempts h op w r
  shut_down :
      {w : World h} {r : Poll h A} (k : h.Kernel) (e : IoError)
      → r ≡ ready (err e (record w { kernel = k }))
      → Attempts h op w r
  dropped :
      {w : World h} {r : Poll h A} (k : h.Kernel)
      → r ≡ cancelled (record w { kernel = k })
      → Attempts h op w r

pub record Runtime (h : Host) : Type 1 where
  -- socket, interest, operation
  pub async_io : {A : Type 0} → ℕ → Interest → Run h A → Async h A
  pub documented :
      {A : Type 0} (fd : ℕ) (interest : Interest) (op : Run h A) (w : World h)
      → Attempts h op w (async_io fd interest op w)
