-- ===== src/Ancillary/Take/Owned.antt =====
-- What `take_received_into`, `take_fds` and `__fuzz_parse` of src/ancillary.rs own and close.
use unix_ancillary.Base.{
  ℕ, zero, suc, ◌+◌, ◌≤◌, ◌<◌, ◌≡◌, refl, ap, ap₂, sym, ◌∙◌, Option, none, some, List, [], ◌∷◌,
  ◌++◌, length, length-append, append_assoc, append-nil, arith, if◌then◌else◌, flatten, map,
  Bool-cases, inl, inr,
}
use unix_ancillary.Bytes.{Bytes}
use unix_ancillary.Target.{Target, IsTarget}
use unix_ancillary.System.{Host, World, ok, drop_fds}
use unix_ancillary.System.Laws.{drop_fds-append}
use unix_ancillary.Ancillary.Raw.{RawMessage, ScmCredentials, rights, credentials, is_rights}
use unix_ancillary.Ancillary.Raw.Parse.{
  Parses, stop, more, raw_messages, raw_messages-Parses, Parses-taken, taken, header_len_pos,
}
use unix_ancillary.Ancillary.Buffer.{ReceivedMessage, fds}
use unix_ancillary.Ancillary.Take.{
  is_pidfd, push_rights, push_credentials, extend_fds, close_pidfd, received_loop,
  take_received_into, count_loop, fds_loop, take_fds, fuzz_loop, fuzz_parse,
}

-- The descriptors that the rights messages carry, in order.
abbrev pub delivered : Target → List RawMessage → List ℕ
delivered t [] = []
delivered t (m ∷ ms) = (if is_rights t m then rights t m else []) ++ delivered t ms

-- The descriptors that the kernel installed as pidfds, in order.
abbrev pub pidfds : Target → List RawMessage → List ℕ
pidfds t [] = []
pidfds t (m ∷ ms) = (if is_pidfd t m then rights t m else []) ++ pidfds t ms

-- The messages that a receive keeps: rights and, on Linux, credentials.
abbrev pub kept : Target → List RawMessage → List ReceivedMessage
kept t [] = []
kept t (m ∷ ms) = push_credentials t (credentials t m) (push_rights t m []) ++ kept t ms

length-le-taken : (t : Target) (ms : List RawMessage) → IsTarget t → length ms ≤ taken t ms
length-le-taken t [] v = omega arith
length-le-taken t (m ∷ ms) v = omega (arith, length-le-taken t ms v, header_len_pos t v)

enough_fuel :
    (t : Target) (bytes : Bytes) → IsTarget t → length (raw_messages t bytes) < suc (length bytes)
enough_fuel t bytes v = omega (
  arith,
  length-le-taken t (raw_messages t bytes) v,
  Parses-taken t bytes (raw_messages t bytes) v (raw_messages-Parses t bytes v),
)

push-append :
    (t : Target) (m : RawMessage) (messages : List ReceivedMessage)
    → push_credentials t (credentials t m) (push_rights t m messages)
      ≡ messages ++ push_credentials t (credentials t m) (push_rights t m [])
unfolding push_credentials push_rights
push-append t m messages = go (credentials t m)
  where
    go :
        (c : Option ScmCredentials)
        → push_credentials t c (push_rights t m messages)
          ≡ messages ++ push_credentials t c (push_rights t m [])
    go none = ground (arith, append-nil messages)
    go (some c) = ground (
      arith,
      append-nil messages,
      append_assoc messages (ReceivedMessage.rights (rights t m) ∷ [])
          (ReceivedMessage.credentials c ∷ []),
    )

module _ (h : Host) where
  close_pidfd-drop_fds :
      (m : RawMessage) (ms : List RawMessage) (w : World h)
      → drop_fds h (pidfds h.target ms) (close_pidfd h m w)
        ≡ drop_fds h (pidfds h.target (m ∷ ms)) w
  unfolding close_pidfd drop_fds
  close_pidfd-drop_fds m ms w = elim (Bool-cases (is_pidfd h.target m)) [
    | inl e ↦ rw e (sym (drop_fds-append h (rights h.target m) (pidfds h.target ms) w))
    | inr e ↦ rw e
  ]

  received_loop-kept :
      (ms : List RawMessage) (fuel : ℕ) (bytes : Bytes) (messages : List ReceivedMessage)
      (w : World h)
      → length ms < fuel
      → Parses h.target bytes ms
      → received_loop h fuel bytes messages w
        ≡ ok (messages ++ kept h.target ms) (drop_fds h (pidfds h.target ms) w)
  unfolding received_loop
  received_loop-kept ms zero bytes messages w f p = elim f [ ]
  received_loop-kept [] (suc fuel) bytes messages w f (stop e) =
      rw (e, append-nil) (unfold drop_fds in refl)
  received_loop-kept (m ∷ ms) (suc fuel) bytes messages w f (more {rest = rest} e p) =
      let t = h.target in
      let pushed = push_credentials t (credentials t m) (push_rights t m []) in
      let messages' = push_credentials t (credentials t m) (push_rights t m messages) in
      rw e (
        received_loop-kept ms fuel rest messages' (close_pidfd h m w) (omega arith) p
        ∙ ap₂ ok
            (ap (λ xs. xs ++ kept t ms) (push-append t m messages)
              ∙ append_assoc messages pushed (kept t ms))
            (close_pidfd-drop_fds m ms w))

  -- On a target whose constants obey IsTarget and on every buffer, take_received_into ends and
  -- appends, in order, the rights messages and (on Linux) the credentials of the buffer to the list
  -- it is given, and has closed the descriptors of the pidfd messages in order.
  pub take_received_into-kept :
      (buffer : Bytes) (messages : List ReceivedMessage) (w : World h)
      → IsTarget h.target
      → let ms = raw_messages h.target buffer in
        take_received_into h buffer messages w
        ≡ ok (messages ++ kept h.target ms) (drop_fds h (pidfds h.target ms) w)
  unfolding take_received_into
  take_received_into-kept buffer messages w v =
      received_loop-kept (raw_messages h.target buffer) (suc (length buffer)) buffer messages w
        (enough_fuel h.target buffer v) (raw_messages-Parses h.target buffer v)

  count_loop-delivered :
      (ms : List RawMessage) (fuel : ℕ) (bytes : Bytes) (count : ℕ) (w : World h)
      → length ms < fuel
      → Parses h.target bytes ms
      → count_loop h fuel bytes count w ≡ ok (count + length (delivered h.target ms)) w
  unfolding count_loop
  count_loop-delivered ms zero bytes count w f p = elim f [ ]
  count_loop-delivered [] (suc fuel) bytes count w f (stop e) =
      rw e (ap (λ n. ok n w) (omega arith))
  count_loop-delivered (m ∷ ms) (suc fuel) bytes count w f (more {rest = rest} e p) =
      let t = h.target in
      let count' = if is_rights t m then count + length (rights t m) else count in
      let sum : count' + length (delivered t ms) ≡ count + length (delivered t (m ∷ ms)) =
        ground (arith, length-append (rights t m) (delivered t ms)) in
      rw e (count_loop-delivered ms fuel rest count' w (omega arith) p ∙ ap (λ n. ok n w) sum)

  fds_loop-delivered :
      (ms : List RawMessage) (fuel : ℕ) (bytes : Bytes) (owned : List ℕ) (w : World h)
      → length ms < fuel
      → Parses h.target bytes ms
      → fds_loop h fuel bytes owned w
        ≡ ok (owned ++ delivered h.target ms) (drop_fds h (pidfds h.target ms) w)
  unfolding fds_loop extend_fds
  fds_loop-delivered ms zero bytes owned w f p = elim f [ ]
  fds_loop-delivered [] (suc fuel) bytes owned w f (stop e) =
      rw (e, append-nil) (unfold drop_fds in refl)
  fds_loop-delivered (m ∷ ms) (suc fuel) bytes owned w f (more {rest = rest} e p) =
      let t = h.target in
      let owned' = extend_fds t m owned in
      let taken_on : owned' ++ delivered t ms ≡ owned ++ delivered t (m ∷ ms) =
        ground (arith, append_assoc owned (rights t m) (delivered t ms)) in
      rw e (
        fds_loop-delivered ms fuel rest owned' (close_pidfd h m w) (omega arith) p
        ∙ ap₂ ok taken_on (close_pidfd-drop_fds m ms w))

  -- On a target whose constants obey IsTarget and on every buffer, take_fds ends with the
  -- descriptors of the rights messages in order, in a vector of exactly the capacity its first pass
  -- counted, and has closed the descriptors of the pidfd messages in order.
  pub take_fds-delivered :
      (buffer : Bytes) (w : World h)
      → IsTarget h.target
      → let ms = raw_messages h.target buffer in
        take_fds h buffer w
        ≡ ok
            (delivered h.target ms, length (delivered h.target ms))
            (drop_fds h (pidfds h.target ms) w)
  unfolding take_fds
  take_fds-delivered buffer w v =
      let ms = raw_messages h.target buffer in
      let fuel = enough_fuel h.target buffer v in
      let parses = raw_messages-Parses h.target buffer v in
      let n = length (delivered h.target ms) in
      rw (count_loop-delivered ms (suc (length buffer)) buffer 0 w fuel parses) (
        rw (fds_loop-delivered ms (suc (length buffer)) buffer [] w fuel parses) (
          ap (λ k. ok (delivered h.target ms, k) (drop_fds h (pidfds h.target ms) w))
            (omega arith)))

-- The descriptors that a list of kept messages owns.
abbrev pub fds_of : List ReceivedMessage → List ℕ
fds_of messages = flatten (map fds messages)

pub fds_of-append : (xs ys : List ReceivedMessage) → fds_of (xs ++ ys) ≡ fds_of xs ++ fds_of ys
fds_of-append [] ys = refl
fds_of-append (x ∷ xs) ys =
    ap (◌++◌ (fds x)) (fds_of-append xs ys) ∙ sym (append_assoc (fds x) (fds_of xs) (fds_of ys))

-- For every list of control messages, the descriptors that the messages kept by take_received_into
-- own are, in order, the flat list that take_fds takes.
pub fds-kept : (t : Target) (ms : List RawMessage) → fds_of (kept t ms) ≡ delivered t ms
unfolding push_credentials push_rights
fds-kept t [] = refl
fds-kept t (m ∷ ms) =
    fds_of-append (push_credentials t (credentials t m) (push_rights t m [])) (kept t ms)
    ∙ ap₂ (◌++◌) (pushed (credentials t m)) (fds-kept t ms)
  where
    pushed :
        (c : Option ScmCredentials)
        → fds_of (push_credentials t c (push_rights t m []))
          ≡ (if is_rights t m then rights t m else [])
    pushed none = ground (arith, append-nil (rights t m))
    pushed (some c) = ground (arith, append-nil (rights t m))

fuzz_loop-length :
    (t : Target) (ms : List RawMessage) (fuel : ℕ) (bytes : Bytes) (count : ℕ)
    → length ms < fuel
    → Parses t bytes ms
    → fuzz_loop t fuel bytes count ≡ some (count + length ms)
unfolding fuzz_loop
fuzz_loop-length t ms zero bytes count f p = elim f [ ]
fuzz_loop-length t [] (suc fuel) bytes count f (stop e) = rw e (ap some (omega arith))
fuzz_loop-length t (m ∷ ms) (suc fuel) bytes count f (more {rest = rest} e p) =
    rw e (fuzz_loop-length t ms fuel rest (count + 1) (omega arith) p ∙ ap some (omega arith))

-- On a target whose constants obey IsTarget, __fuzz_parse ends on every byte string and returns the
-- number of messages that the iterator yields.
pub fuzz_parse-length :
    (t : Target) (buf : Bytes) → IsTarget t → fuzz_parse t buf ≡ some (length (raw_messages t buf))
unfolding fuzz_parse
fuzz_parse-length t buf v =
    fuzz_loop-length t (raw_messages t buf) (suc (length buf)) buf 0 (enough_fuel t buf v)
      (raw_messages-Parses t buf v)
    ∙ ap some (omega arith)
