-- ===== src/Ancillary/Take/Typed.antt =====
-- What is read out of received control bytes by src/ancillary.rs fits its type: a descriptor is a
-- non-negative `i32`, and a `pid_t`, `uid_t` or `gid_t` is 32 bits wide.
use unix_ancillary.Base.{
  ℕ, zero, suc, ◌^◌, ◌<◌, Option, none, some, List, [], ◌∷◌, take, drop, length, length-take, min,
  All, All-append, Bool, map, arith, Bool-cases, inl, inr, ltb, leb, not, ◌||◌, ◌==◌,
}
use unix_ancillary.Bytes.{Bytes, from_ne_bytes, read_at}
use unix_ancillary.Bytes.Octets.{AreBytes, take-AreBytes, drop-AreBytes, from_ne_bytes_fits}
use unix_ancillary.Target.{Target}
use unix_ancillary.Ancillary.Layout.{header_len, size_of_ucred}
use unix_ancillary.Ancillary.Raw.{
  RawMessage, ScmCredentials, chunks_exact, non_negative, rights, from_ucred, credentials,
  remaining_after, raw_next, is_rights,
}
use unix_ancillary.Ancillary.Raw.Parse.{yielded, collect, raw_messages}
use unix_ancillary.Ancillary.Buffer.{ReceivedMessage}
use unix_ancillary.Ancillary.Buffer.RoundTrip.{IsFd}
use unix_ancillary.Ancillary.Take.{is_linux, push_rights, push_credentials}
use unix_ancillary.Ancillary.Take.Owned.{kept}

abbrev pub IsTyped : ReceivedMessage → Type 0
IsTyped (ReceivedMessage.rights fds) = All IsFd fds
IsTyped (ReceivedMessage.credentials creds) =
    (creds.pid < 2 ^ 32) × (creds.uid < 2 ^ 32) × (creds.gid < 2 ^ 32)

abbrev PayloadBytes : RawMessage → Type 0
PayloadBytes m = AreBytes m.payload

abbrev StepBytes : Option RawMessage × Bytes → Type 0
StepBytes (none, rest) = Unit {0}
StepBytes (some m, rest) = PayloadBytes m × AreBytes rest

remaining_after-AreBytes :
    (next : Option ℕ) (bytes : Bytes) → AreBytes bytes → AreBytes (remaining_after next bytes)
unfolding remaining_after
remaining_after-AreBytes none bytes all = tt
remaining_after-AreBytes (some next) bytes all = elim (Bool-cases (leb next (length bytes))) [
  | inl e ↦ rw e (drop-AreBytes next bytes all)
  | inr e ↦ rw e tt
]

raw_next-StepBytes : (t : Target) (bytes : Bytes) → AreBytes bytes → StepBytes (raw_next t bytes)
unfolding raw_next
raw_next-StepBytes t bytes all = elim (Bool-cases (ltb (length bytes) t.size_of_cmsghdr)) [
  | inl e ↦ rw e tt
  | inr e ↦ rw e (elim (Bool-cases (ltb end (header_len t))) [
    | inl f ↦ rw f tt
    | inr f ↦ rw f (
      drop-AreBytes (header_len t) (take end bytes) (take-AreBytes end bytes all),
      remaining_after-AreBytes _ bytes all,
    )
  ])
]
  where
    end : ℕ
    end = min (from_ne_bytes t.big_endian (read_at t.len_at t.len_width bytes)) (length bytes)

collect-PayloadBytes :
    (t : Target) (fuel : ℕ) (bytes : Bytes)
    → AreBytes bytes
    → All PayloadBytes (collect t fuel bytes)
unfolding collect
collect-PayloadBytes t zero bytes all = tt
collect-PayloadBytes t (suc fuel) bytes all =
    go (raw_next t bytes) (raw_next-StepBytes t bytes all) (collect-PayloadBytes t fuel)
  where
    go :
        (p : Option RawMessage × Bytes)
        → StepBytes p
        → ((rest : Bytes) → AreBytes rest → All PayloadBytes (collect t fuel rest))
        → All PayloadBytes (yielded (collect t fuel) p)
    go (none, rest) q later = tt
    go (some m, rest) q later = (q.0, later rest q.1)

non_negative-IsFd : (fds : List ℕ) → All IsFd (non_negative fds)
non_negative-IsFd [] = tt
non_negative-IsFd (fd ∷ fds) = ground (arith, non_negative-IsFd fds)

rights-IsFd : (t : Target) (m : RawMessage) → All IsFd (rights t m)
unfolding rights
rights-IsFd t m = non_negative-IsFd (map (from_ne_bytes t.big_endian) (chunks_exact m.payload))

word_fits :
    (t : Target) (at : ℕ) (bytes : Bytes)
    → AreBytes bytes
    → from_ne_bytes t.big_endian (read_at at 4 bytes) < 2 ^ 32
word_fits t at bytes all =
    from_ne_bytes_fits t.big_endian (read_at at 4 bytes) 4
      (take-AreBytes 4 (drop at bytes) (drop-AreBytes at bytes all))
      (omega (arith, length-take 4 (drop at bytes)))

-- The credentials of one message, if there are any.
abbrev CredsTyped : Option ScmCredentials → Type 0
CredsTyped none = Unit {0}
CredsTyped (some creds) = IsTyped (ReceivedMessage.credentials creds)

credentials-CredsTyped :
    (t : Target) (m : RawMessage) → AreBytes m.payload → CredsTyped (credentials t m)
unfolding credentials from_ucred
credentials-CredsTyped t m all = elim (Bool-cases skipped) [
  | inl e ↦ rw e tt
  | inr e ↦
      rw e (word_fits t 0 m.payload all, word_fits t 4 m.payload all, word_fits t 8 m.payload all)
]
  where
    skipped : Bool
    skipped =
        not (m.level == t.sol_socket)
        || not (m.kind == t.scm_credentials)
        || ltb (length m.payload) size_of_ucred

push-IsTyped :
    (t : Target) (m : RawMessage) (c : Option ScmCredentials)
    → CredsTyped c
    → All IsTyped (push_credentials t c (push_rights t m []))
unfolding push_credentials push_rights
push-IsTyped t m c typed = pushed c typed
  where
    owned : All IsTyped (push_rights t m [])
    owned = elim (Bool-cases (is_rights t m)) [
      | inl e ↦ rw e (rights-IsFd t m, tt)
      | inr e ↦ rw e tt
    ]

    pushed :
        (c : Option ScmCredentials)
        → CredsTyped c
        → All IsTyped (push_credentials t c (push_rights t m []))
    pushed none q = owned
    pushed (some creds) q = elim (Bool-cases (is_linux t.target_os)) [
      | inl e ↦ rw e (All-append _ (push_rights t m []) (_ ∷ []) owned (q, tt))
      | inr e ↦ rw e owned
    ]

kept-typed : (t : Target) (ms : List RawMessage) → All PayloadBytes ms → All IsTyped (kept t ms)
kept-typed t [] all = tt
kept-typed t (m ∷ ms) all =
    All-append _ _ (kept t ms)
      (push-IsTyped t m (credentials t m) (credentials-CredsTyped t m all.0))
      (kept-typed t ms all.1)

-- Every message that a receive keeps fits its type.
pub kept-IsTyped :
    (t : Target) (bytes : Bytes) → AreBytes bytes → All IsTyped (kept t (raw_messages t bytes))
unfolding raw_messages
kept-IsTyped t bytes all =
    kept-typed t (raw_messages t bytes) (collect-PayloadBytes t (suc (length bytes)) bytes all)
