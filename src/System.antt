-- ===== src/System.antt =====
-- The machine under the crate: the system calls as a parameter, the world that a call moves through,
-- and a monad for `io::Result` with effects. Dropping an `OwnedFd` is a `close`.
pub mod Laws
pub mod Quiet
use unix_ancillary.Base.{ℕ, zero, suc, List, [], ◌∷◌, ◌++◌, Option, none, some, Bool, true, false}
use unix_ancillary.Bytes.{Bytes}
use unix_ancillary.Target.{Target, ErrorKind}

-- What a call that answers an `int` or `ssize_t` leaves: a value from 0 on, or -1 and an `errno`.
-- `setsockopt` and `getsockopt` have no value but 0.
pub data SysRet : Type 0 where
  ret : ℕ → SysRet
  errno : ℕ → SysRet

-- The `msghdr` after `recvmsg`: the iovecs and the control buffer as the kernel left them.
pub record MsgHdr : Type 0 where
  pub iov : List Bytes
  pub control : Bytes
  pub controllen : ℕ
  pub flags : ℕ

pub data RecvRet : Type 0 where
  received : ℕ → MsgHdr → RecvRet
  failed : ℕ → RecvRet

-- The operating system: every call reads and changes a state of the kernel's own.
pub record Os : Type 1 where
  pub Kernel : Type 0
  -- socket, iovecs, control bytes, flags
  pub sendmsg : ℕ → List Bytes → Bytes → ℕ → Kernel → SysRet × Kernel
  -- socket, iovecs, control buffer, flags
  pub recvmsg : ℕ → List Bytes → Bytes → ℕ → Kernel → RecvRet × Kernel
  pub fcntl_getfd : ℕ → Kernel → SysRet × Kernel
  pub fcntl_setfd : ℕ → ℕ → Kernel → SysRet × Kernel
  -- socket, level, option, value
  pub setsockopt : ℕ → ℕ → ℕ → ℕ → Kernel → SysRet × Kernel
  -- socket, level, option; the value beside the result
  pub getsockopt : ℕ → ℕ → ℕ → Kernel → SysRet × ℕ × Kernel
  -- `rlim_cur` of `RLIMIT_NOFILE`, or a failure
  pub getrlimit_nofile : Kernel → Option ℕ × Kernel
  pub close : ℕ → Kernel → Kernel
  -- `getpid`, `getuid` and `getgid`, which cannot fail
  pub getpid : Kernel → ℕ
  pub getuid : Kernel → ℕ
  pub getgid : Kernel → ℕ

-- A target, its operating system, the bound on retries of an interrupted call, and what the
-- uninitialised stack buffer of `with_control` happens to hold.
pub record Host : Type 1 where
  pub target : Target
  pub os : Os
  pub open os use *
  pub retries : ℕ
  pub uninit : Bytes

-- A `sendmsg` that the kernel accepted.
pub record Sent : Type 0 where
  pub socket : ℕ
  pub payload : List Bytes
  pub control : Bytes
  pub accepted : ℕ

pub data IoError : Type 0 where
  os_error : ℕ → IoError
  custom : ErrorKind → IoError

abbrev pub error_kind : Target → IoError → ErrorKind
error_kind t (os_error e) = t.errno_kind e
error_kind t (custom k) = k

abbrev pub is_interrupted : ErrorKind → Bool
is_interrupted ErrorKind.interrupted = true
is_interrupted _ = false

-- `closed` lists the descriptors that dropped owners closed, oldest first; `sent` the accepted sends.
pub record World (h : Host) : Type 0 where
  pub kernel : h.Kernel
  pub closed : List ℕ
  pub sent : List Sent

pub data Exit (h : Host) (A : Type 0) : Type 0 where
  ok : A → World h → Exit h A
  err : IoError → World h → Exit h A
  panic : World h → Exit h A
  out_of_fuel : Exit h A

module _ {h : Host} where
  abbrev pub and_then : {A B : Type 0} → Exit h A → (A → World h → Exit h B) → Exit h B
  and_then (ok a w) f = f a w
  and_then (err e w) f = err e w
  and_then (panic w) f = panic w
  and_then out_of_fuel f = out_of_fuel

abbrev pub Run : Host → Type 0 → Type 0
Run h A = World h → Exit h A

module _ {h : Host} where
  infixl 5 ◌>>=◌ ◌>>◌
  abbrev pub ◌>>=◌ : {A B : Type 0} → Run h A → (A → Run h B) → Run h B
  ◌>>=◌ m f w = and_then (m w) f

  abbrev pub ◌>>◌ : {A B : Type 0} → Run h A → Run h B → Run h B
  m >> k = m >>= λ _. k

  abbrev pub fail : {A : Type 0} → IoError → Run h A
  fail e w = err e w

  -- A call that answers -1 becomes `io::Error::last_os_error()`.
  abbrev pub settled : SysRet × h.Kernel → Run h ℕ
  settled (ret n, k) w = ok n (record w { kernel = k })
  settled (errno e, k) w = err (os_error e) (record w { kernel = k })

  abbrev pub sys : (h.Kernel → SysRet × h.Kernel) → Run h ℕ
  sys call w = settled (call w.kernel) w

  -- `expect` and slicing out of bounds.
  abbrev pub or_panic : {A : Type 0} → Option A → Run h A
  or_panic none w = panic w
  or_panic (some a) w = ok a w

module _ (h : Host) where
  unfoldable pub close_fd : ℕ → World h → World h
  close_fd fd w = record w { kernel = h.close fd w.kernel; closed = w.closed ++ (fd ∷ []) }

  -- Dropping a `Vec<OwnedFd>`: in order.
  unfoldable pub drop_fds : List ℕ → World h → World h
  drop_fds [] w = w
  drop_fds (fd ∷ fds) w = drop_fds fds (close_fd fd w)

  -- An early return of `m` drops the descriptors that the caller still owns.
  abbrev pub dropping : {A : Type 0} → List ℕ → Exit h A → Exit h A
  dropping fds (ok a w) = ok a w
  dropping fds (err e w) = err e (drop_fds fds w)
  dropping fds (panic w) = panic (drop_fds fds w)
  dropping fds out_of_fuel = out_of_fuel
