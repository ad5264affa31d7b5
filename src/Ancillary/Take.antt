-- ===== src/Ancillary/Take.antt =====
-- How received control bytes become owned descriptors: `close_pidfd`, `take_received_into` and
-- `take_fds` of src/ancillary.rs, and the parse-only loop of `__fuzz_parse`.
pub mod Owned
pub mod Typed
use unix_ancillary.Base.{
  ℕ, zero, suc, ◌+◌, Bool, true, false, ◌&&◌, Option, none, some, List, [], ◌∷◌, ◌++◌, length, ◌==◌,
  if◌then◌else◌, flatten, map,
}
use unix_ancillary.Bytes.{Bytes}
use unix_ancillary.Target.{Target, TargetOs, scm_pidfd}
use unix_ancillary.System.{Host, World, Run, Exit, ok, out_of_fuel, ◌>>=◌, drop_fds}
use unix_ancillary.Ancillary.Raw.{
  RawMessage, ScmCredentials, raw_next, rights, credentials, is_rights,
}
use unix_ancillary.Ancillary.Buffer.{ReceivedMessage, fds}

-- `cfg(any(target_os = "linux", target_os = "android"))`
abbrev pub is_linux : TargetOs → Bool
is_linux TargetOs.linux = true
is_linux _ = false

abbrev pub is_pidfd : Target → RawMessage → Bool
is_pidfd t m = is_linux t.target_os && ((m.level == t.sol_socket) && (m.kind == scm_pidfd))

-- Pushes of one message onto the vectors.
unfoldable pub push_rights : Target → RawMessage → List ReceivedMessage → List ReceivedMessage
push_rights t m messages =
    if is_rights t m then messages ++ (ReceivedMessage.rights (rights t m) ∷ []) else messages

unfoldable pub push_credentials :
    Target → Option ScmCredentials → List ReceivedMessage → List ReceivedMessage
push_credentials t none messages = messages
push_credentials t (some creds) messages =
    if is_linux t.target_os then messages ++ (ReceivedMessage.credentials creds ∷ []) else messages

unfoldable pub extend_fds : Target → RawMessage → List ℕ → List ℕ
extend_fds t m owned = if is_rights t m then owned ++ rights t m else owned

module _ (h : Host) where
  unfoldable pub close_pidfd : RawMessage → World h → World h
  close_pidfd m w = if is_pidfd h.target m then drop_fds h (rights h.target m) w else w

  -- The body of the loop of `take_received_into`, and the loop.
  abbrev pub received_step :
      (Bytes → List ReceivedMessage → Run h (List ReceivedMessage))
      → Option RawMessage × Bytes
      → List ReceivedMessage
      → Run h (List ReceivedMessage)
  received_step later (none, rest) messages w = ok messages w
  received_step later (some m, rest) messages w =
      later rest
        (push_credentials h.target (credentials h.target m) (push_rights h.target m messages))
        (close_pidfd m w)

  unfoldable pub received_loop : ℕ → Bytes → List ReceivedMessage → Run h (List ReceivedMessage)
  received_loop zero bytes messages w = out_of_fuel
  received_loop (suc fuel) bytes messages w =
      received_step (received_loop fuel) (raw_next h.target bytes) messages w

  unfoldable pub take_received_into : Bytes → List ReceivedMessage → Run h (List ReceivedMessage)
  unfolding received_loop
  take_received_into buffer messages = received_loop (suc (length buffer)) buffer messages

  -- The first pass of `take_fds` sums the counts; the second one takes the descriptors.
  abbrev pub count_step : (Bytes → ℕ → Run h ℕ) → Option RawMessage × Bytes → ℕ → Run h ℕ
  count_step later (none, rest) count w = ok count w
  count_step later (some m, rest) count w =
      later rest (if is_rights h.target m then count + length (rights h.target m) else count) w

  unfoldable pub count_loop : ℕ → Bytes → ℕ → Run h ℕ
  count_loop zero bytes count w = out_of_fuel
  count_loop (suc fuel) bytes count w =
      count_step (count_loop fuel) (raw_next h.target bytes) count w

  abbrev pub fds_step :
      (Bytes → List ℕ → Run h (List ℕ)) → Option RawMessage × Bytes → List ℕ → Run h (List ℕ)
  fds_step later (none, rest) owned w = ok owned w
  fds_step later (some m, rest) owned w = later rest (extend_fds h.target m owned) (close_pidfd m w)

  unfoldable pub fds_loop : ℕ → Bytes → List ℕ → Run h (List ℕ)
  fds_loop zero bytes owned w = out_of_fuel
  fds_loop (suc fuel) bytes owned w = fds_step (fds_loop fuel) (raw_next h.target bytes) owned w

  -- The vector and the capacity that it was given.
  unfoldable pub take_fds : Bytes → Run h (List ℕ × ℕ)
  take_fds buffer = do
    capacity ← count_loop (suc (length buffer)) buffer 0
    owned ← fds_loop (suc (length buffer)) buffer []
    ok (owned, capacity)

-- `__fuzz_parse` looks at every message and owns nothing.
abbrev fuzz_step : (Bytes → ℕ → Option ℕ) → Option RawMessage × Bytes → ℕ → Option ℕ
fuzz_step later (none, rest) count = some count
fuzz_step later (some m, rest) count = later rest (count + 1)

unfoldable pub fuzz_loop : Target → ℕ → Bytes → ℕ → Option ℕ
fuzz_loop t zero bytes count = none
fuzz_loop t (suc fuel) bytes count = fuzz_step (fuzz_loop t fuel) (raw_next t bytes) count

-- `none`: the fuel ran out.
unfoldable pub fuzz_parse : Target → Bytes → Option ℕ
unfolding fuzz_loop
fuzz_parse t buf = fuzz_loop t (suc (length buf)) buf 0
