-- ===== src/Ancillary/Buffer/Append.antt =====
-- `add_rights` and `add_credentials` of src/ancillary.rs as operations on a list of messages.
use unix_ancillary.Base.{
  ℕ, ◌*◌, ◌^◌, ◌<◌, ◌≡◌, ap, sym, ◌∙◌, subst, List, [], ◌∷◌, ◌++◌, length, arith, append-nil,
  length-append,
}
use unix_ancillary.Base.Results.{ok, ok_or, >>=-eq-ok, ok-injective}
use unix_ancillary.Bytes.{Bytes, to_ne_bytes, write_at}
use unix_ancillary.Bytes.Laws.{length-to_ne_bytes}
use unix_ancillary.Target.{Target, IsTarget}
use unix_ancillary.Ancillary.Layout.{checked_mul, size_of_ucred}
use unix_ancillary.Ancillary.Raw.{RawMessage, ScmCredentials}
use unix_ancillary.Ancillary.Buffer.{
  SocketAncillary, ancillary_error, reserve_cmsg, write_fds, encode_rights, add_rights,
  add_credentials, to_ucred,
}
use unix_ancillary.Ancillary.Buffer.Refine.{
  Holds, Reserved, reserve_cmsg-Reserved, appended-Holds, fds_bytes, length-fds_bytes,
  write_fds-fds_bytes,
}

abbrev pub rights_message : Target → List ℕ → RawMessage
rights_message t raw_fds = record {
  level = t.sol_socket;
  kind = t.scm_rights;
  payload = fds_bytes t raw_fds;
}

abbrev pub credentials_message : Target → ScmCredentials → RawMessage
credentials_message t creds = record {
  level = t.sol_socket;
  kind = t.scm_credentials;
  payload = to_ucred t creds;
}

-- What `add_rights` appends: nothing for no descriptors.
abbrev pub appended : Target → List ℕ → List RawMessage
appended t [] = []
appended t (fd ∷ rest) = rights_message t (fd ∷ rest) ∷ []

pub length-to_ucred :
    (t : Target) (creds : ScmCredentials) → length (to_ucred t creds) ≡ size_of_ucred
unfolding to_ucred
length-to_ucred t creds =
    let tail : Bytes =
      to_ne_bytes t.big_endian 4 creds.uid ++ to_ne_bytes t.big_endian 4 creds.gid in
    omega (
      arith,
      length-append (to_ne_bytes t.big_endian 4 creds.pid) tail,
      length-append (to_ne_bytes t.big_endian 4 creds.uid) (to_ne_bytes t.big_endian 4 creds.gid),
      length-to_ne_bytes t.big_endian 4 creds.pid,
      length-to_ne_bytes t.big_endian 4 creds.uid,
      length-to_ne_bytes t.big_endian 4 creds.gid,
    )

pub encode_rights-inv :
    (t : Target) (a : SocketAncillary) (raw_fds : List ℕ) (b : SocketAncillary)
    → encode_rights t a raw_fds ≡ ok b
    → (r : SocketAncillary) × (at : ℕ) × (reserve_cmsg t a t.sol_socket t.scm_rights
          (length raw_fds * 4)
        ≡ ok (r, at))
      × (b ≡ record r { buffer = write_fds t at raw_fds r.buffer })
unfolding encode_rights checked_mul
encode_rights-inv t a raw_fds b e =
    let sized = >>=-eq-ok (ok_or (checked_mul t (length raw_fds) 4) ancillary_error) _ e in
    let is_len : sized.0 ≡ length raw_fds * 4 = ground (arith, sized.1) in
    let bound = >>=-eq-ok (reserve_cmsg t a t.sol_socket t.scm_rights sized.0) _ sized.2 in
    (
      bound.0.0,
      bound.0.1,
      subst (λ n. reserve_cmsg t a t.sol_socket t.scm_rights n ≡ ok (bound.0.0, bound.0.1)) is_len
          bound.1,
      sym (ok-injective bound.2),
    )

module _ (t : Target) (v : IsTarget t) (a : SocketAncillary) (ms : List RawMessage)
    (g : Holds t a ms) where
  -- A reservation filled with its payload appends the message.
  Reserved-Holds :
      (m : RawMessage) (b : SocketAncillary) (at : ℕ)
      → m.level < 256 ^ 4
      → m.kind < 256 ^ 4
      → Reserved t a m.level m.kind (length m.payload) b at
      → Holds t (record b { buffer = write_at at m.payload b.buffer }) (ms ++ (m ∷ []))
  Reserved-Holds m b at hl hk r =
      subst (λ c. Holds t (record c { buffer = write_at at m.payload c.buffer }) (ms ++ (m ∷ [])))
        (sym r.result)
        (rw r.payload_at (
          appended-Holds t v a ms m g
            (record { level_c_int = hl; kind_c_int = hk; short = r.short; len_fits = r.len_fits })
            r.fits))

  encode_rights-Holds :
      (raw_fds : List ℕ) (b : SocketAncillary)
      → encode_rights t a raw_fds ≡ ok b
      → Holds t b (ms ++ (rights_message t raw_fds ∷ []))
  encode_rights-Holds raw_fds b e =
      let (r, at, is_r, is_b) = encode_rights-inv t a raw_fds b e in
      let m : RawMessage = rights_message t raw_fds in
      let size : length raw_fds * 4 ≡ length m.payload = sym (length-fds_bytes t raw_fds) in
      subst (λ c. Holds t c (ms ++ (m ∷ [])))
        (sym
          (is_b ∙ ap (λ bs. record r { buffer = bs }) (write_fds-fds_bytes t raw_fds at r.buffer)))
        (Reserved-Holds m r at (omega (arith, v.sol_socket_c_int))
          (omega (arith, v.scm_rights_c_int))
          (subst (λ n. Reserved t a m.level m.kind n r at) size
            (reserve_cmsg-Reserved t a m.level m.kind (length raw_fds * 4) r at is_r)))

  -- On a target whose constants obey IsTarget, if a send buffer holds the messages ms and
  -- add_rights succeeds, the buffer then holds ms followed by one SCM_RIGHTS message with the
  -- descriptors, or ms alone if there are none to add.
  pub add_rights-Holds :
      (raw_fds : List ℕ) (b : SocketAncillary)
      → add_rights t a raw_fds ≡ ok b
      → Holds t b (ms ++ appended t raw_fds)
  unfolding add_rights
  add_rights-Holds [] b e =
      let same : a ≡ b = ground (arith, g.sending) in
      subst (Holds t b) (sym (append-nil ms)) (subst (λ c. Holds t c ms) same g)
  add_rights-Holds (fd ∷ rest) b e = encode_rights-Holds (fd ∷ rest) b (ground (arith, g.sending))

  -- On a target whose constants obey IsTarget, if a send buffer holds the messages ms and
  -- add_credentials succeeds, the buffer then holds ms followed by one SCM_CREDENTIALS message with
  -- the bytes of the credentials.
  pub add_credentials-Holds :
      (creds : ScmCredentials) (b : SocketAncillary)
      → add_credentials t a creds ≡ ok b
      → Holds t b (ms ++ (credentials_message t creds ∷ []))
  unfolding add_credentials
  add_credentials-Holds creds b e =
      let m : RawMessage = credentials_message t creds in
      let bound = >>=-eq-ok (reserve_cmsg t a t.sol_socket t.scm_credentials size_of_ucred) _ e in
      let r = bound.0.0 in
      let at = bound.0.1 in
      subst (λ c. Holds t c (ms ++ (m ∷ []))) (ok-injective bound.2)
        (Reserved-Holds m r at (omega (arith, v.sol_socket_c_int))
          (omega (arith, v.scm_credentials_c_int))
          (subst (λ n. Reserved t a m.level m.kind n r at) (sym (length-to_ucred t creds))
            (reserve_cmsg-Reserved t a m.level m.kind size_of_ucred r at bound.1)))
