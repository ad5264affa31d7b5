-- ===== src/Ext/Exchange.antt =====
-- A whole message from a peer, received by `recv_owned_impl` of src/ext.rs with the count that was
-- sent.
use unix_ancillary.Base.{
  ℕ, ◌+◌, ◌*◌, ◌^◌, ◌≤◌, ◌<◌, ◌≡◌, refl, ap, true, false, List, [], ◌∷◌, take, length, flatten, max,
  ltb, arith, All, some, ◌==◌, ◌&&◌, leb, Bool-cases, inl, inr, bit_or, length-replicate, replicate,
}
use unix_ancillary.Bytes.{Bytes}
use unix_ancillary.Target.{Target, IsTarget, i32_max}
use unix_ancillary.System.{Host, World, ok, MsgHdr, received, drop_fds}
use unix_ancillary.Platform.{has_cmsg_cloexec, recv_flags}
use unix_ancillary.Ancillary.Layout.{
  cmsg_space-some, checked_add, checked_mul, buffer_size_for_rights, buffer_size_for_credentials,
}
use unix_ancillary.Ancillary.Raw.{ScmCredentials}
use unix_ancillary.Ancillary.Raw.Parse.{raw_messages}
use unix_ancillary.Ancillary.Buffer.Encode.{encode_all, raw_messages-encode_all}
use unix_ancillary.Ancillary.Buffer.RoundTrip.{IsFd}
use unix_ancillary.Ancillary.Take.{is_linux}
use unix_ancillary.Ancillary.Take.Owned.{take_fds-delivered}
use unix_ancillary.Cmsg.{recv_result, recvmsg_raw, own_fds, recv_fds}
use unix_ancillary.Cmsg.Retry.{recv_loop-Answers}
use unix_ancillary.Ext.{
  SocketKind, exact, recv_core, recv_owned_impl, add_credentials_size, apply_policy, apply_mode,
  is_datagram,
}
use unix_ancillary.Platform.Fallback.{hard_ceiling}
use unix_ancillary.Platform.Obliging.{Obliging, cloexec_fds_succeeds, max_recv_fds_succeeds}
use unix_ancillary.Ext.Control.{control_storage-replicate}
use unix_ancillary.Ext.Arrival.{
  message, room, Arrival, message-IsEncodable, delivered-message, pidfds-message,
}

module _ (h : Host) (v : IsTarget h.target)
    (oblige : has_cmsg_cloexec h.target.target_os ≡ false → Obliging h) where
  rights_room :
      (m : ℕ)
      → m * 4 ≤ i32_max
      → buffer_size_for_rights h.target m ≡ some (h.target.libc_cmsg_space (m * 4))
  unfolding buffer_size_for_rights checked_mul
  rights_room m small =
      let wide : ltb (m * 4) (2 ^ h.target.usize_bits) ≡ true = ground (arith, v.usize_wide) in
      rw wide (cmsg_space-some h.target (m * 4) small)

  add_credentials_size-room :
      (m : ℕ) (w : World h)
      → room h.target m < 2 ^ h.target.usize_bits
      → add_credentials_size h (h.target.libc_cmsg_space (m * 4)) w ≡ ok (room h.target m) w
  unfolding add_credentials_size buffer_size_for_credentials checked_add
  add_credentials_size-room m w fits = elim (Bool-cases (is_linux h.target.target_os)) [
    | inl linux ↦
        let whole : ltb (h.target.libc_cmsg_space (m * 4) + h.target.libc_cmsg_space 12)
              (2 ^ h.target.usize_bits)
            ≡ true =
          ground (arith, rw linux at fits) in
        rw (linux, whole) refl
    | inr other ↦ rw other (ap (λ n. ok n w) (omega arith))
  ]

  -- The descriptors of a delivered message are owned as they stand; nothing is closed.
  own_fds-message :
      (n : ℕ) (hdr : MsgHdr) (installed : List ℕ) (creds : List ScmCredentials) (w : World h)
      → length installed * 4 ≤ i32_max
      → All IsFd installed
      → hdr.controllen ≤ length hdr.control
      → take hdr.controllen hdr.control ≡ encode_all h.target (message h.target installed creds)
      → (k : h.Kernel) × (own_fds h (recv_result h n hdr).0 hdr w
          ≡ ok ((recv_result h n hdr).0, installed, hdr.iov) (record w { kernel = k }))
  unfolding own_fds drop_fds
  own_fds-message n hdr installed creds w few small inside encoded =
      let t : Target = h.target in
      let bytes : Bytes = encode_all t (message t installed creds) in
      let fits : leb hdr.controllen (length hdr.control) ≡ true = ground arith in
      let parsed : raw_messages t bytes ≡ message t installed creds =
        raw_messages-encode_all t (message t installed creds) v
          (message-IsEncodable t v installed creds few) in
      let (k, sets) = cloexec_fds_succeeds h oblige installed w in
      (
        k,
        rw
            (
              fits,
              encoded,
              take_fds-delivered h bytes w v,
              parsed,
              delivered-message t v installed creds small,
              pidfds-message t v installed creds,
              sets,
            )
            refl,
      )

  recv_fds-message :
      (fd n : ℕ) (iov filled : List Bytes) (buf : Bytes) (installed : List ℕ)
      (creds : List ScmCredentials) (w : World h)
      → length installed * 4 ≤ i32_max
      → All IsFd installed
      → (a : Arrival h fd iov buf w.kernel (message h.target installed creds) n filled)
      → (k : h.Kernel) × (recv_fds h fd iov buf w
          ≡ ok ((recv_result h n a.hdr).0, installed, a.hdr.iov) (record w { kernel = k }))
  unfolding recv_fds recvmsg_raw
  recv_fds-message fd n iov filled buf installed creds w few small a =
      let u : World h = record w { kernel = a.after } in
      let called =
        recv_loop-Answers h fd iov buf (bit_or (recv_flags h.target) 0) h.retries a.interruptions
          w.kernel a.after (received n a.hdr) w refl a.few a.answers in
      let (k, owned) = own_fds-message n a.hdr installed creds u few small a.inside a.encoded in
      (k, rw called owned)

  -- On a target whose constants obey IsTarget and that has MSG_CMSG_CLOEXEC or a kernel whose fcntl
  -- succeeds and whose getrlimit changes nothing, for descriptors that are non-negative i32 values,
  -- whose 4-byte numbers together fit i32::MAX bytes and for which, and for the ceiling of the
  -- receive budget, CMSG_SPACE with that of credentials on Linux fits usize: when recvmsg, given
  -- any control buffer with room for them (and for credentials on Linux), delivers after fewer
  -- interruptions than the bound on retries an untruncated message with these descriptors and any
  -- list of credentials, recv_owned_impl asked for exactly that many descriptors succeeds with the
  -- bytes read and these descriptors in order, no surplus, and nothing closed or sent.
  pub recv_owned_impl-exact :
      (kind : SocketKind) (fd n : ℕ) (data_buf : Bytes) (filled : List Bytes) (installed : List ℕ)
      (creds : List ScmCredentials) (w : World h)
      → length installed * 4 ≤ i32_max
      → All IsFd installed
      → room h.target (max (length installed) hard_ceiling) < 2 ^ h.target.usize_bits
      → ((buf : Bytes)
          → room h.target (length installed) ≤ length buf
          → Arrival h fd (data_buf ∷ []) buf w.kernel (message h.target installed creds) n filled)
      → (u : World h) × (recv_owned_impl h fd data_buf kind (exact (length installed)) w
          ≡ ok
              (record { payload = take n (flatten filled); owned = installed; surplus_closed = 0 })
              u)
        × (u.closed ≡ w.closed)
        × (u.sent ≡ w.sent)
  unfolding recv_owned_impl recv_core apply_policy apply_mode
  recv_owned_impl-exact kind fd n data_buf filled installed creds w few small fits arrives =
      let t : Target = h.target in
      let N : ℕ = length installed in
      let (b, below, sized) = max_recv_fds_succeeds h oblige w in
      let m : ℕ = max N b in
      let size : ℕ = room t m in
      let buf : Bytes = replicate size 0 in
      let top : ℕ = max N hard_ceiling in
      let top_bound : top * 4 ≤ i32_max = omega (arith, few) in
      let bound : m * 4 ≤ i32_max = omega (arith, few, below) in
      let fits' : size < 2 ^ t.usize_bits =
        omega (arith, fits, v.space_grows (m * 4) (top * 4) (omega (arith, below)) top_bound) in
      let grows : room t N ≤ length buf = omega (
        arith,
        length-replicate {A = ℕ} size 0,
        v.space_grows (N * 4) (m * 4) (omega arith) bound,
      ) in
      let a = arrives buf grows in
      let (k, called) =
        recv_fds-message fd n (data_buf ∷ []) filled buf installed creds w few small a in
      let counted : (N == N) ≡ true = ground arith in
      let quiet : (is_datagram kind && false) ≡ false = ground arith in
      (
        record w { kernel = k },
        rw
            (
              sized,
              rights_room m bound,
              add_credentials_size-room m w fits',
              control_storage-replicate h.uninit size,
              called,
              a.whole_control,
              a.whole_data,
              quiet,
              counted,
              a.payload,
            )
            refl,
        refl,
        refl,
      )
