-- ===== src/Std.antt =====
-- What the programs of examples/ take from std and tempfile: calls on files, sockets, child processes
-- and the clock, as a parameter, and how an owner that goes out of scope closes its descriptor.
-- What std itself writes to a socket is not recorded among the accepted sends.
pub mod Laws
use unix_ancillary.Base.{ℕ, List, Bool, Option, none, some}
use unix_ancillary.Base.Results.{Result}
use unix_ancillary.Bytes.{Bytes}
use unix_ancillary.System.{Host, World, Run, Exit, ok, err, panic, out_of_fuel, IoError, drop_fds}

-- A call that answers an `io::Result`.
abbrev pub Call : Host → Type 0 → Type 0
Call h A = h.Kernel → Result A IoError × h.Kernel

-- Files and sockets are their descriptors, a child process is its number; times are milliseconds.
-- A path is its bytes.
pub record Std (h : Host) : Type 0 where
  pub connect : (path : Bytes) → Call h ℕ
  pub bind : (path : Bytes) → Call h ℕ
  pub accept : ℕ → Call h ℕ
  pub set_nonblocking : ℕ → Bool → Call h (Unit {0})
  pub set_read_timeout : ℕ → (millis : ℕ) → Call h (Unit {0})
  pub set_write_timeout : ℕ → (millis : ℕ) → Call h (Unit {0})
  pub read_exact : ℕ → (len : ℕ) → Call h Bytes
  pub read_to_string : ℕ → Call h Bytes
  pub write_all : ℕ → Bytes → Call h (Unit {0})
  pub open_file : (path : Bytes) → Call h ℕ
  -- `tempfile::tempdir` with its path, and `NamedTempFile::new_in` with its file and path.
  pub tempdir : Call h Bytes
  pub new_in : (directory : Bytes) → Call h (ℕ × Bytes)
  pub join : (directory : Bytes) → (name : Bytes) → Bytes
  -- What dropping a `TempPath` and a `TempDir` does; both ignore errors.
  pub remove_file : (path : Bytes) → h.Kernel → h.Kernel
  pub remove_dir : (path : Bytes) → h.Kernel → h.Kernel
  pub current_exe : Call h Bytes
  pub spawn : (program : Bytes) → (args : List Bytes) → Call h ℕ
  pub try_wait : ℕ → Call h (Option Bool)
  pub kill : ℕ → Call h (Unit {0})
  -- `ExitStatus::success`
  pub wait : ℕ → Call h Bool
  pub now : h.Kernel → ℕ × h.Kernel
  pub sleep : (millis : ℕ) → h.Kernel → h.Kernel

module _ {h : Host} where
  abbrev pub answered : {A : Type 0} → Result A IoError × h.Kernel → Run h A
  answered (Result.ok a, k) w = ok a (record w { kernel = k })
  answered (Result.err e, k) w = err e (record w { kernel = k })

  -- `c?`
  abbrev pub call : {A : Type 0} → Call h A → Run h A
  call c w = answered (c w.kernel) w

  -- A call whose error the program looks at or ignores.
  abbrev pub attempt : {A : Type 0} → Call h A → Run h (Result A IoError)
  attempt c w = let (r, k) = c w.kernel in ok r (record w { kernel = k })

  -- The end of a scope that owns descriptors: they are dropped however the scope is left.
  abbrev pub scoped : {A : Type 0} → List ℕ → Exit h A → Exit h A
  scoped fds (ok a w) = ok a (drop_fds h fds w)
  scoped fds (err e w) = err e (drop_fds h fds w)
  scoped fds (panic w) = panic (drop_fds h fds w)
  scoped fds out_of_fuel = out_of_fuel

  -- The end of a scope that owns a temporary file or directory.
  abbrev pub cleaned : {A : Type 0} → (h.Kernel → h.Kernel) → Exit h A → Exit h A
  cleaned remove (ok a w) = ok a (record w { kernel = remove w.kernel })
  cleaned remove (err e w) = err e (record w { kernel = remove w.kernel })
  cleaned remove (panic w) = panic (record w { kernel = remove w.kernel })
  cleaned remove out_of_fuel = out_of_fuel
