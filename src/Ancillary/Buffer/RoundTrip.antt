-- ===== src/Ancillary/Buffer/RoundTrip.antt =====
-- Send buffers and messages of src/ancillary.rs against its own parser.
use mathlib.Core.Logic.{if_pos}
use unix_ancillary.Base.{
  ℕ, ◌+◌, ◌^◌, ◌<◌, ◌≡◌, refl, ap, sym, ◌∙◌, List, [], ◌∷◌, ◌++◌, take, drop, length, arith, some,
  All, map, dec_lt, take-append, drop-append, drop_all, drop-drop, take_all,
}
use unix_ancillary.Bytes.{Bytes, to_ne_bytes, from_ne_bytes, read_at}
use unix_ancillary.Bytes.Laws.{length-to_ne_bytes, from_ne_bytes-to_ne_bytes}
use unix_ancillary.Target.{Target, IsTarget}
use unix_ancillary.Ancillary.Raw.{
  RawMessage, ScmCredentials, chunks_exact, rights, credentials, from_ucred, non_negative,
}
use unix_ancillary.Ancillary.Raw.Parse.{raw_messages}
use unix_ancillary.Ancillary.Buffer.{SocketAncillary, to_ucred}
use unix_ancillary.Ancillary.Buffer.Encode.{raw_messages-encode_all}
use unix_ancillary.Ancillary.Buffer.Refine.{Holds, fds_bytes}
use unix_ancillary.Ancillary.Buffer.Append.{rights_message, credentials_message, length-to_ucred}

-- A descriptor as `OwnedFd` has it: a non-negative `i32`.
abbrev pub IsFd : ℕ → Type 0
IsFd fd = fd < 2 ^ 31

-- On a target whose constants obey IsTarget, a send buffer that holds the messages ms is parsed
-- back by the iterator as exactly ms.
pub raw_messages-Holds :
    (t : Target) (a : SocketAncillary) (ms : List RawMessage)
    → IsTarget t
    → Holds t a ms
    → raw_messages t (take a.filled a.buffer) ≡ ms
raw_messages-Holds t a ms v g =
    ap (raw_messages t) g.encoded ∙ raw_messages-encode_all t ms v g.encodable

chunks_exact-append :
    (chunk rest : Bytes)
    → length chunk ≡ 4
    → chunks_exact (chunk ++ rest) ≡ chunk ∷ chunks_exact rest
unfolding chunks_exact
chunks_exact-append [] rest e = absurd (omega arith)
chunks_exact-append (a ∷ []) rest e = absurd (omega arith)
chunks_exact-append (a ∷ b ∷ []) rest e = absurd (omega arith)
chunks_exact-append (a ∷ b ∷ c ∷ []) rest e = absurd (omega arith)
chunks_exact-append (a ∷ b ∷ c ∷ d ∷ []) rest e = refl
chunks_exact-append (a ∷ b ∷ c ∷ d ∷ x ∷ xs) rest e = absurd (omega arith)

-- The descriptors of a rights message, each a non-negative i32, are read back from its payload in
-- order.
pub rights-rights_message :
    (t : Target) (raw_fds : List ℕ)
    → All IsFd raw_fds
    → rights t (rights_message t raw_fds) ≡ raw_fds
unfolding rights chunks_exact
rights-rights_message t [] h = refl
rights-rights_message t (fd ∷ rest) h =
    let bytes = to_ne_bytes t.big_endian 4 fd in
    let decode = from_ne_bytes t.big_endian in
    ap (λ chunks. non_negative (map decode chunks))
      (chunks_exact-append bytes (fds_bytes t rest) (length-to_ne_bytes t.big_endian 4 fd))
    ∙ ap (λ value. non_negative (value ∷ map decode (chunks_exact (fds_bytes t rest))))
        (from_ne_bytes-to_ne_bytes t.big_endian 4 fd (omega (arith, h.0)))
    ∙ if_pos (dec_lt fd (2 ^ 31)) h.0 _ _
    ∙ ap (◌∷◌ fd) (rights-rights_message t rest h.1)

-- The three integers of a `ucred`.
pub record IsUcred (creds : ScmCredentials) : Type 0 where
  pub pid_fits : creds.pid < 256 ^ 4
  pub uid_fits : creds.uid < 256 ^ 4
  pub gid_fits : creds.gid < 256 ^ 4

-- The middle part of three, cut out by offset.
cut_parts :
    (k : ℕ) (xs ys zs : Bytes)
    → length xs ≡ k
    → length ys ≡ k
    → length zs ≡ k
    → (read_at 0 k (xs ++ (ys ++ zs)) ≡ xs)
      × (read_at k k (xs ++ (ys ++ zs)) ≡ ys)
      × (read_at (k + k) k (xs ++ (ys ++ zs)) ≡ zs)
cut_parts k xs ys zs ex ey ez =
    let front : drop k (xs ++ (ys ++ zs)) ≡ ys ++ zs =
      drop-append k xs (ys ++ zs) (omega arith)
      ∙ ap (λ bs. bs ++ (ys ++ zs)) (drop_all k xs (omega arith)) in
    let back : drop k (ys ++ zs) ≡ zs =
      drop-append k ys zs (omega arith) ∙ ap (λ bs. bs ++ zs) (drop_all k ys (omega arith)) in
    (
      take-append k xs (ys ++ zs) (omega arith) ∙ take_all k xs (omega arith),
      ap (take k) front ∙ take-append k ys zs (omega arith) ∙ take_all k ys (omega arith),
      ap (take k) (sym (drop-drop k k (k + k) (xs ++ (ys ++ zs)) refl) ∙ ap (drop k) front ∙ back)
          ∙ take_all k zs (omega arith),
    )

from_ucred-to_ucred :
    (t : Target) (creds : ScmCredentials) → IsUcred creds → from_ucred t (to_ucred t creds) ≡ creds
unfolding from_ucred to_ucred
from_ucred-to_ucred t creds u =
    let part = λ (n : ℕ). to_ne_bytes t.big_endian 4 n in
    let len = λ (n : ℕ). length-to_ne_bytes t.big_endian 4 n in
    let cut =
      cut_parts 4 (part creds.pid) (part creds.uid) (part creds.gid) (len creds.pid) (len creds.uid)
        (len creds.gid) in
    let decode = from_ne_bytes t.big_endian in
    let p = ap decode cut.0 ∙ from_ne_bytes-to_ne_bytes t.big_endian 4 creds.pid u.pid_fits in
    let q = ap decode cut.1 ∙ from_ne_bytes-to_ne_bytes t.big_endian 4 creds.uid u.uid_fits in
    let r = ap decode cut.2 ∙ from_ne_bytes-to_ne_bytes t.big_endian 4 creds.gid u.gid_fits in
    λ i. record { pid = p i; uid = q i; gid = r i }

-- Credentials whose three integers have 32 bits are read back from the message that carries them.
pub credentials-credentials_message :
    (t : Target) (creds : ScmCredentials)
    → IsUcred creds
    → credentials t (credentials_message t creds) ≡ some creds
credentials-credentials_message t creds u = whole ∙ ap some (from_ucred-to_ucred t creds u)
  where
    whole : credentials t (credentials_message t creds) ≡ some (from_ucred t (to_ucred t creds))
    whole = unfold credentials in ground (arith, length-to_ucred t creds)
