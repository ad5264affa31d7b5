-- ===== src/Multiprocess.antt =====
-- examples/multiprocess.rs: a parent that sends a read-only file to a child process over a socket. Here
-- the child, and what both use. Both print a line when they are done, which is not modelled.
pub mod Session
pub mod Child
pub mod Returns
pub mod Parent
use unix_ancillary.Base.{
  ℕ, zero, suc, ◌+◌, List, [], ◌∷◌, ◌++◌, Bool, true, false, not, ◌&&◌, ◌||◌, Option, none, some,
  leb, ◌==◌, if◌then◌else◌, flatten,
}
use unix_ancillary.Base.Results.{Result}
use unix_ancillary.Bytes.{Bytes}
use unix_ancillary.Target.{ErrorKind}
use unix_ancillary.System.{
  Host, World, Run, Exit, ok, err, panic, out_of_fuel, IoError, custom, error_kind, ◌>>=◌, ◌>>◌,
  and_then, fail,
}
use unix_ancillary.Tokio.{is_would_block}
use unix_ancillary.Ext.Stream
use unix_ancillary.Std.{Std, call, attempt, scoped, cleaned}

-- "read through a descriptor from the parent\n"
abbrev pub contents : Bytes
contents =
    114 ∷ 101 ∷ 97 ∷ 100 ∷ 32 ∷ 116 ∷ 104 ∷ 114 ∷ 111 ∷ 117 ∷ 103 ∷ 104 ∷ 32 ∷ 97 ∷ 32 ∷ 100 ∷ 101
    ∷ 115 ∷ 99 ∷ 114 ∷ 105 ∷ 112 ∷ 116 ∷ 111 ∷ 114 ∷ 32 ∷ 102 ∷ 114 ∷ 111 ∷ 109 ∷ 32 ∷ 116 ∷ 104
    ∷ 101 ∷ 32 ∷ 112 ∷ 97 ∷ 114 ∷ 101 ∷ 110 ∷ 116 ∷ 10 ∷ []

-- "must be denied"
abbrev pub denied : Bytes
denied = 109 ∷ 117 ∷ 115 ∷ 116 ∷ 32 ∷ 98 ∷ 101 ∷ 32 ∷ 100 ∷ 101 ∷ 110 ∷ 105 ∷ 101 ∷ 100 ∷ []

-- 10 seconds, in milliseconds.
abbrev pub timeout : ℕ
timeout = 10000

abbrev pub same_bytes : Bytes → Bytes → Bool
same_bytes [] [] = true
same_bytes [] (y ∷ ys) = false
same_bytes (x ∷ xs) [] = false
same_bytes (x ∷ xs) (y ∷ ys) = (x == y) && same_bytes xs ys

-- `Vec::pop`: the last item, and the others.
abbrev pub pop : List ℕ → Option (ℕ × List ℕ)
pop [] = none
pop (x ∷ xs) = elim (pop xs) [ none ↦ some (x, []) | some (last, rest) ↦ some (last, x ∷ rest) ]

module _ (h : Host) (std : Std h) where
  -- `file.write_all(..)` must fail; then the acknowledgment.
  abbrev pub acknowledge : (socket : ℕ) → Result (Unit {0}) IoError → Run h (Unit {0})
  acknowledge socket (Result.ok u) = fail (custom ErrorKind.invalid_data)
  acknowledge socket (Result.err e) = call (std.write_all socket (89 ∷ []))

  -- What `child` does with the file.
  unfoldable pub inspect : (socket file : ℕ) → Run h (Unit {0})
  inspect socket file = do
    read ← call (std.read_to_string file)
    if same_bytes read contents
        then (attempt (std.write_all file denied) >>= acknowledge socket)
        else fail (custom ErrorKind.invalid_data)

  -- From `fds.pop().expect(..)` on.
  abbrev pub with_file : (socket : ℕ) → Option (ℕ × List ℕ) → Run h (Unit {0})
  with_file socket none w = panic w
  with_file socket (some (file, rest)) w = scoped (file ∷ rest) (inspect socket file w)

  -- After the receive.
  unfoldable pub check_marker : (socket : ℕ) → ℕ × List ℕ × List Bytes → Run h (Unit {0})
  unfolding inspect
  check_marker socket (n, fds, marker) w =
      if not (n == 1) || not (same_bytes (flatten marker) (70 ∷ []))
      then scoped fds (err (custom ErrorKind.invalid_data) w)
      else with_file socket (pop fds) w

  unfoldable pub child_session : (socket : ℕ) → Run h (Unit {0})
  unfolding check_marker
  child_session socket = do
    call (std.set_read_timeout socket timeout)
    call (std.set_write_timeout socket timeout)
    received ← Stream.recv_fds_exact_into h 1 socket (0 ∷ [])
    check_marker socket received

  unfoldable pub child : (path : Bytes) → Run h (Unit {0})
  unfolding child_session
  child path = call (std.connect path) >>= λ socket w. scoped (socket ∷ []) (child_session socket w)
