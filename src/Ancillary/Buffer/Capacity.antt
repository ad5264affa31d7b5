-- ===== src/Ancillary/Buffer/Capacity.antt =====
-- Additions to a `SocketAncillary` of src/ancillary.rs: only in send mode, within its buffer, and of
-- bytes.
use unix_ancillary.Base.{
  ℕ, ◌*◌, ◌≡◌, ap, sym, subst, ◌∙◌, All-append, false, List, [], ◌∷◌, length, arith,
}
use unix_ancillary.Base.Results.{ok, >>=-eq-ok, ok-injective}
use unix_ancillary.Bytes.{Bytes, to_ne_bytes, write_at}
use unix_ancillary.Bytes.Octets.{
  AreBytes, replicate-AreBytes, to_ne_bytes-AreBytes, write_at-AreBytes,
}
use unix_ancillary.Bytes.Laws.{length-write_at}
use unix_ancillary.Target.{Target}
use unix_ancillary.Ancillary.Layout.{size_of_ucred}
use unix_ancillary.Ancillary.Raw.{ScmCredentials}
use unix_ancillary.Ancillary.Buffer.{
  SocketAncillary, reserve_cmsg, header_bytes, add_rights, add_credentials, to_ucred,
}
use unix_ancillary.Ancillary.Buffer.Refine.{
  Reserved, reserve_cmsg-Reserved, fds_bytes, write_fds-fds_bytes,
}
use unix_ancillary.Ancillary.Buffer.Append.{encode_rights-inv}

header_bytes-AreBytes :
    (t : Target) (space level kind cmsg_len : ℕ)
    → AreBytes (header_bytes t space level kind cmsg_len)
unfolding header_bytes
header_bytes-AreBytes t space level kind cmsg_len =
    write_at-AreBytes t.len_at _ _ (to_ne_bytes-AreBytes t.big_endian t.len_width cmsg_len) (
      write_at-AreBytes t.type_at _ _ (to_ne_bytes-AreBytes t.big_endian 4 kind) (
        write_at-AreBytes t.level_at _ _ (to_ne_bytes-AreBytes t.big_endian 4 level)
          (replicate-AreBytes space)))

fds_bytes-AreBytes : (t : Target) (fds : List ℕ) → AreBytes (fds_bytes t fds)
fds_bytes-AreBytes t [] = tt
fds_bytes-AreBytes t (fd ∷ rest) =
    All-append _ (to_ne_bytes t.big_endian 4 fd) (fds_bytes t rest)
      (to_ne_bytes-AreBytes t.big_endian 4 fd) (fds_bytes-AreBytes t rest)

to_ucred-AreBytes : (t : Target) (creds : ScmCredentials) → AreBytes (to_ucred t creds)
unfolding to_ucred
to_ucred-AreBytes t creds = All-append _ _ _ (to_ne_bytes-AreBytes t.big_endian 4 creds.pid) (
    All-append _ _ _ (to_ne_bytes-AreBytes t.big_endian 4 creds.uid)
      (to_ne_bytes-AreBytes t.big_endian 4 creds.gid))

module _ (t : Target) (a b : SocketAncillary) where
  -- The storage was in send mode, and keeps its buffer's length, bytes in it, and what it received.
  pub record Extends : Type 0 where
    pub sending : a.receive_mode ≡ false
    pub same_length : length b.buffer ≡ length a.buffer
    pub same_received : b.received ≡ a.received
    pub keeps_bytes : AreBytes a.buffer → AreBytes b.buffer

  Reserved-Extends :
      (level kind n at : ℕ) (payload : Bytes) (r : SocketAncillary)
      → Reserved t a level kind n r at
      → b ≡ record r { buffer = write_at at payload r.buffer }
      → AreBytes payload
      → Extends
  Reserved-Extends level kind n at payload r reserved is bytes = record {
    sending = reserved.was_sending;
    same_length =
        ap (λ c. length c.buffer) is
        ∙ length-write_at at payload r.buffer
        ∙ ap (λ c. length c.buffer) reserved.result
        ∙ length-write_at a.filled _ a.buffer;
    same_received = ap (λ c. c.received) is ∙ ap (λ c. c.received) reserved.result;
    keeps_bytes = λ old.
        subst (λ c. AreBytes c.buffer) (sym is)
          (write_at-AreBytes at payload r.buffer bytes (
            subst (λ c. AreBytes c.buffer) (sym reserved.result)
              (write_at-AreBytes a.filled _ a.buffer (header_bytes-AreBytes t _ level kind _)
                old)));
  }

  pub add_rights-Extends : (raw_fds : List ℕ) → add_rights t a raw_fds ≡ ok b → Extends
  unfolding add_rights
  add_rights-Extends [] e =
      let same : a ≡ b = ground arith in
      record {
        sending = ground arith;
        same_length = ap (λ c. length c.buffer) (sym same);
        same_received = ap (λ c. c.received) (sym same);
        keeps_bytes = λ old. subst (λ c. AreBytes c.buffer) same old;
      }
  add_rights-Extends (fd ∷ rest) e =
      let (r, at, is_r, is_b) = encode_rights-inv t a (fd ∷ rest) b (ground arith) in
      Reserved-Extends t.sol_socket t.scm_rights (length (fd ∷ rest) * 4) at
        (fds_bytes t (fd ∷ rest)) r
        (reserve_cmsg-Reserved t a t.sol_socket t.scm_rights (length (fd ∷ rest) * 4) r at is_r)
        (is_b ∙ ap (λ bs. record r { buffer = bs }) (write_fds-fds_bytes t (fd ∷ rest) at r.buffer))
        (fds_bytes-AreBytes t (fd ∷ rest))

  pub add_credentials-Extends :
      (creds : ScmCredentials) → add_credentials t a creds ≡ ok b → Extends
  unfolding add_credentials
  add_credentials-Extends creds e =
      let ((r, at), is_r, is_b) =
        >>=-eq-ok (reserve_cmsg t a t.sol_socket t.scm_credentials size_of_ucred) _ e in
      Reserved-Extends t.sol_socket t.scm_credentials size_of_ucred at (to_ucred t creds) r
        (reserve_cmsg-Reserved t a t.sol_socket t.scm_credentials size_of_ucred r at is_r)
        (sym (ok-injective is_b)) (to_ucred-AreBytes t creds)
