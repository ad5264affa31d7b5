-- ===== src/Multiprocess/Parent.antt =====
-- The parent of examples/multiprocess.rs, and its `main`.
pub mod Returns
pub mod Ledger
pub mod Closes
use unix_ancillary.Base.{
  ℕ, zero, suc, ◌+◌, List, [], ◌∷◌, ◌++◌, Bool, true, false, not, ◌&&◌, ◌||◌, Option, none, some,
  leb, ◌==◌, if◌then◌else◌, flatten,
}
use unix_ancillary.Base.Results.{Result}
use unix_ancillary.Bytes.{Bytes}
use unix_ancillary.Target.{ErrorKind}
use unix_ancillary.System.{
  Host, World, Run, Exit, ok, err, panic, out_of_fuel, IoError, custom, error_kind, ◌>>=◌, ◌>>◌,
  and_then, fail,
}
use unix_ancillary.Tokio.{is_would_block}
use unix_ancillary.Ext.Stream
use unix_ancillary.Std.{Std, call, attempt, scoped, cleaned}
use unix_ancillary.Multiprocess.{contents, timeout, same_bytes, child}

-- "channel.sock"
abbrev pub channel : Bytes
channel = 99 ∷ 104 ∷ 97 ∷ 110 ∷ 110 ∷ 101 ∷ 108 ∷ 46 ∷ 115 ∷ 111 ∷ 99 ∷ 107 ∷ []

-- "--child"
abbrev pub child_flag : Bytes
child_flag = 45 ∷ 45 ∷ 99 ∷ 104 ∷ 105 ∷ 108 ∷ 100 ∷ []

-- The milliseconds between two looks at the listener.
abbrev pub pause : ℕ
pause = 10

-- The rounds of the accept loop, which has no bound in the source.
abbrev pub accept_rounds : ℕ
accept_rounds = 1001

module _ (h : Host) (std : Std h) where
  -- `worker.try_wait()?.is_some() || Instant::now() >= deadline`
  abbrev pub given_up : (deadline : ℕ) → Option Bool → Run h Bool
  given_up deadline (some status) w = ok true w
  given_up deadline none w =
      let (time, k) = std.now w.kernel in ok (leb deadline time) (record w { kernel = k })

  abbrev pub slept : World h → World h
  slept w = record w { kernel = std.sleep pause w.kernel }

  -- The `WouldBlock` arm of the accept loop.
  abbrev pub not_yet : Run h ℕ → (worker deadline : ℕ) → Run h ℕ
  not_yet again worker deadline = do
    status ← call (std.try_wait worker)
    gone ← given_up deadline status
    λ w. if gone then err (custom ErrorKind.timed_out) w else again (slept w)

  -- One answer of `accept`.
  abbrev pub accept_step : Run h ℕ → (worker deadline : ℕ) → Exit h ℕ → Exit h ℕ
  accept_step again worker deadline (ok socket w) = ok socket w
  accept_step again worker deadline (err e w) =
      if is_would_block (error_kind h.target e) then not_yet again worker deadline w else err e w
  accept_step again worker deadline (panic w) = panic w
  accept_step again worker deadline out_of_fuel = out_of_fuel

  unfoldable pub accept_loop : ℕ → (listener worker deadline : ℕ) → Run h ℕ
  accept_loop zero listener worker deadline w = out_of_fuel
  accept_loop (suc fuel) listener worker deadline w =
      accept_step (accept_loop fuel listener worker deadline) worker deadline
        (call (std.accept listener) w)

  -- The parent's end of the accepted socket.
  unfoldable pub hand_over : (socket read_only : ℕ) → Run h (Unit {0})
  hand_over socket read_only = do
    call (std.set_nonblocking socket false)
    call (std.set_read_timeout socket timeout)
    call (std.set_write_timeout socket timeout)
    Stream.send_fds_all h socket (70 ∷ []) (read_only ∷ [])
    ack ← call (std.read_exact socket 1)
    if same_bytes ack (89 ∷ []) then ok tt else fail (custom ErrorKind.invalid_data)

  -- The closure whose value is `result`.
  unfoldable pub attempt_handoff : (listener worker read_only : ℕ) → Run h (Unit {0})
  unfolding accept_loop hand_over
  attempt_handoff listener worker read_only w =
      let (time, k) = std.now w.kernel in
      and_then
        (accept_loop accept_rounds listener worker (time + timeout) (record w { kernel = k }))
        λ socket u. scoped (socket ∷ []) (hand_over socket read_only u)

  -- `worker.wait()?`, then `result?`, then the status of the child.
  abbrev pub reaped : (worker : ℕ) → Result (Unit {0}) IoError → Run h (Unit {0})
  reaped worker (Result.err e) = call (std.wait worker) >> fail e
  reaped worker (Result.ok u) = do
    success ← call (std.wait worker)
    if success then ok tt else fail (custom ErrorKind.other_kind)

  -- The worker is killed when `result` is an error, and is waited for in both cases.
  unfoldable pub supervise : (worker : ℕ) → Exit h (Unit {0}) → Exit h (Unit {0})
  supervise worker (ok u w) = reaped worker (Result.ok u) w
  supervise worker (err e w) =
      and_then (attempt (std.kill worker) w) λ ignored. reaped worker (Result.err e)
  supervise worker (panic w) = panic w
  supervise worker out_of_fuel = out_of_fuel

  -- `main` once the read-only file is open.
  unfoldable pub with_worker : (path : Bytes) → (listener read_only : ℕ) → Run h (Unit {0})
  unfolding supervise attempt_handoff
  with_worker path listener read_only = do
    program ← call std.current_exe
    worker ← call (std.spawn program (child_flag ∷ path ∷ []))
    λ w. supervise worker (attempt_handoff listener worker read_only w)

  unfoldable pub with_original : (path : Bytes) → (listener original : ℕ) → Bytes → Run h (Unit {0})
  unfolding with_worker
  with_original path listener original name =
      call (std.write_all original contents) >> call (std.open_file name) >>= λ read_only w.
      scoped (read_only ∷ []) (with_worker path listener read_only w)

  unfoldable pub with_listener : (directory path : Bytes) → (listener : ℕ) → Run h (Unit {0})
  unfolding with_original
  with_listener directory path listener =
      call (std.set_nonblocking listener true)
      >> call (std.new_in directory)
      >>= λ (original, name) w.
          scoped (original ∷ [])
            (cleaned (std.remove_file name) (with_original path listener original name w))

  unfoldable pub in_directory : (directory : Bytes) → Run h (Unit {0})
  unfolding with_listener
  in_directory directory =
      let path = std.join directory channel in
      call (std.bind path) >>= λ listener w.
      scoped (listener ∷ []) (with_listener directory path listener w)

  -- `main` without `--child`.
  unfoldable pub parent : Run h (Unit {0})
  unfolding in_directory
  parent = call std.tempdir >>= λ directory w.
      cleaned (std.remove_dir directory) (in_directory directory w)

  -- `args` are those after the program's name.
  unfoldable pub main : (args : List Bytes) → Run h (Unit {0})
  unfolding child parent
  main [] = parent
  main (flag ∷ []) =
      if same_bytes flag child_flag then fail (custom ErrorKind.invalid_input) else parent
  main (flag ∷ path ∷ more) = if same_bytes flag child_flag then child h std path else parent
