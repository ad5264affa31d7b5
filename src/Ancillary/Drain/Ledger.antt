-- ===== src/Ancillary/Drain/Ledger.antt =====
-- The iterators `Messages` and `ScmRights` of src/ancillary.rs as a state machine: one `Messages` and
-- any number of `ScmRights`, read from and dropped in any order.
use unix_ancillary.Base.{
  ℕ, ◌+◌, ◌≡◌, refl, ap, ◌∙◌, List, [], ◌∷◌, ◌++◌, some, flatten, arith, ◌==◌, if◌then◌else◌,
}
use unix_ancillary.System.{Host, World, drop_fds}
use unix_ancillary.System.Laws.{closed-drop_fds}
use unix_ancillary.Ancillary.Raw.{ScmCredentials}
use unix_ancillary.Ancillary.Buffer.{ReceivedMessage}
use unix_ancillary.Ancillary.Take.Owned.{fds_of}
use unix_ancillary.Ancillary.Drain.{
  scm_rights, credentials, rights_next, messages_next, drop_messages,
}
use unix_ancillary.Ancillary.Drain.Account.{drop_messages-drop_fds}

-- What the two kinds of iterators still hold, and the descriptors that the caller took.
pub record Draining (h : Host) : Type 0 where
  pub pending : List ReceivedMessage
  pub opened : List (List ℕ)
  pub handed : List ℕ
  pub world : World h

-- One thing that safe code can do with the iterators.
pub data Step (h : Host) : Draining h → Draining h → Type 0 where
  next_rights :
      {d : Draining h} {owned : List ℕ} {rest : List ReceivedMessage}
      → messages_next d.pending ≡ (some (scm_rights owned), rest)
      → Step h d (record d { pending = rest; opened = owned ∷ d.opened })
  next_credentials :
      {d : Draining h} {creds : ScmCredentials} {rest : List ReceivedMessage}
      → messages_next d.pending ≡ (some (credentials creds), rest)
      → Step h d (record d { pending = rest })
  next_fd :
      {d : Draining h} (before after : List (List ℕ)) (left : List ℕ) {rest : List ℕ} {fd : ℕ}
      → d.opened ≡ before ++ (left ∷ after)
      → rights_next left ≡ (some fd, rest)
      → Step h d (record d { opened = before ++ (rest ∷ after); handed = fd ∷ d.handed })
  drop_rights :
      {d : Draining h} (before after : List (List ℕ)) (left : List ℕ)
      → d.opened ≡ before ++ (left ∷ after)
      → Step h d (record d { opened = before ++ after; world = drop_fds h left d.world })
  drop_iterator :
      {d : Draining h}
      → Step h d (record d { pending = []; world = drop_messages h d.pending d.world })

pub data Steps (h : Host) : Draining h → Draining h → Type 0 where
  done : {d : Draining h} → Steps h d d
  step : {d e f : Draining h} → Step h d e → Steps h e f → Steps h d f

abbrev pub occurrences : ℕ → List ℕ → ℕ
occurrences x [] = 0
occurrences x (y ∷ ys) = (if x == y then 1 else 0) + occurrences x ys

-- How often a descriptor is held by an iterator, handed out, or closed.
abbrev pub held : {h : Host} → ℕ → Draining h → ℕ
held x d =
    occurrences x (fds_of d.pending)
    + occurrences x (flatten d.opened)
    + occurrences x d.handed
    + occurrences x d.world.closed

pub occurrences-append :
    (x : ℕ) (xs ys : List ℕ) → occurrences x (xs ++ ys) ≡ occurrences x xs + occurrences x ys
occurrences-append x [] ys = omega arith
occurrences-append x (y ∷ xs) ys = omega (arith, occurrences-append x xs ys)

occurrences-flatten :
    (x : ℕ) (before after : List (List ℕ)) (left : List ℕ)
    → occurrences x (flatten (before ++ (left ∷ after)))
      ≡ occurrences x left + occurrences x (flatten (before ++ after))
occurrences-flatten x [] after left = occurrences-append x left (flatten after)
occurrences-flatten x (xs ∷ before) after left = omega (
  arith,
  occurrences-append x xs (flatten (before ++ (left ∷ after))),
  occurrences-append x xs (flatten (before ++ after)),
  occurrences-flatten x before after left,
)

messages_next-fds_of :
    (ms rest : List ReceivedMessage) (owned : List ℕ)
    → messages_next ms ≡ (some (scm_rights owned), rest)
    → fds_of ms ≡ owned ++ fds_of rest
unfolding messages_next
messages_next-fds_of [] rest owned e = cc
messages_next-fds_of (ReceivedMessage.rights fds ∷ ms) rest owned e =
    let is_owned : fds ≡ owned = cc in let is_rest : ms ≡ rest = cc in rw (is_owned, is_rest) refl
messages_next-fds_of (ReceivedMessage.credentials creds ∷ ms) rest owned e = cc

messages_next-credentials :
    (ms rest : List ReceivedMessage) (creds : ScmCredentials)
    → messages_next ms ≡ (some (credentials creds), rest)
    → fds_of ms ≡ fds_of rest
unfolding messages_next
messages_next-credentials [] rest creds e = cc
messages_next-credentials (ReceivedMessage.rights fds ∷ ms) rest creds e = cc
messages_next-credentials (ReceivedMessage.credentials c ∷ ms) rest creds e =
    let is_rest : ms ≡ rest = cc in ap fds_of is_rest

pub rights_next-cons :
    (left rest : List ℕ) (fd : ℕ) → rights_next left ≡ (some fd, rest) → left ≡ fd ∷ rest
unfolding rights_next
rights_next-cons [] rest fd e = cc
rights_next-cons (x ∷ xs) rest fd e = cc

module _ {h : Host} (x : ℕ) where
  Step-held : {d e : Draining h} → Step h d e → held x d ≡ held x e
  Step-held (next_rights {d = d} {owned = owned} {rest = rest} e) =
      rw (messages_next-fds_of d.pending rest owned e) (
        omega (
          arith,
          occurrences-append x owned (fds_of rest),
          occurrences-append x owned (flatten d.opened),
        ))
  Step-held (next_credentials {d = d} {creds = creds} {rest = rest} e) =
      rw (messages_next-credentials d.pending rest creds e) refl
  Step-held (next_fd {d = d} before after left {rest = rest} {fd = fd} is e) =
      rw (is, rights_next-cons left rest fd e)
        (omega (
          arith,
          occurrences-flatten x before after (fd ∷ rest),
          occurrences-flatten x before after rest,
        ))
  Step-held (drop_rights {d = d} before after left is) =
      rw (is, closed-drop_fds h left d.world)
        (omega (
          arith,
          occurrences-flatten x before after left,
          occurrences-append x d.world.closed left,
        ))
  Step-held (drop_iterator {d = d}) =
      rw (drop_messages-drop_fds h d.pending d.world, closed-drop_fds h (fds_of d.pending) d.world)
        (omega (arith, occurrences-append x d.world.closed (fds_of d.pending)))

-- However the iterators over received messages are used, that is for every sequence of taking a
-- message, taking a descriptor from any rights iterator that is still alive, and dropping either
-- kind of iterator, the number of times that a descriptor is still held by an iterator, was handed
-- out, or was closed, added up, stays the same: none is lost and none is both handed out and
-- closed.
pub Steps-held : (h : Host) (x : ℕ) (d e : Draining h) → Steps h d e → held x d ≡ held x e
Steps-held h x d e done = refl
Steps-held h x d e (step {e = mid} s rest) = Step-held x s ∙ Steps-held h x mid e rest
