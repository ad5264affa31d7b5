-- ===== src/Api/Arrived.antt =====
-- A low-level receive of src/lib.rs, of a message that arrives whole.
use unix_ancillary.Base.{
  ℕ, ◌*◌, ◌≤◌, ◌≡◌, refl, true, false, List, [], ◌∷◌, ◌++◌, take, length, map, arith, All, none,
  leb, bit_or,
}
use unix_ancillary.Base.Results.{Result}
use unix_ancillary.Bytes.{Bytes}
use unix_ancillary.Target.{Target, IsTarget, TargetOs, i32_max}
use unix_ancillary.System.{Host, World, ok, MsgHdr, received, drop_fds}
use unix_ancillary.Platform.{recv_flags, cloexec_received}
use unix_ancillary.Ancillary.Raw.{ScmCredentials, credentials, is_rights}
use unix_ancillary.Ancillary.Raw.Parse.{raw_messages}
use unix_ancillary.Ancillary.Buffer.{SocketAncillary, ReceivedMessage, is_truncated}
use unix_ancillary.Ancillary.Buffer.Encode.{encode_all, raw_messages-encode_all}
use unix_ancillary.Ancillary.Buffer.Append.{rights_message, credentials_message}
use unix_ancillary.Ancillary.Buffer.RoundTrip.{
  IsFd, IsUcred, rights-rights_message, credentials-credentials_message,
}
use unix_ancillary.Ancillary.Take.{push_rights, push_credentials}
use unix_ancillary.Ancillary.Take.Owned.{kept, fds_of, take_received_into-kept}
use unix_ancillary.Ancillary.Drain.{clear, messages}
use unix_ancillary.Cmsg.{has_flag, recv_result, recvmsg_raw}
use unix_ancillary.Cmsg.Retry.{recv_loop-Answers}
use unix_ancillary.Ext.Arrival.{Arrival, message, message-IsEncodable, pidfds-message}
use unix_ancillary.Api.Modes.{clear-Holds}
use unix_ancillary.Api.{Outcome, taken_over, recv_into_ancillary, cmsg_recvmsg}

module _ (t : Target) (v : IsTarget t) (linux : t.target_os ≡ TargetOs.linux) where
  kept-message :
      (installed : List ℕ) (creds : List ScmCredentials)
      → All IsFd installed
      → All IsUcred creds
      → kept t (message t installed creds)
        ≡ map ReceivedMessage.credentials creds ++ (ReceivedMessage.rights installed ∷ [])
  unfolding push_credentials push_rights
  kept-message installed [] small fit =
      let self : is_rights t (rights_message t installed) ≡ true = ground arith in
      let no_creds : credentials t (rights_message t installed) ≡ none =
        unfold credentials in ground (arith, v.rights-ne-credentials) in
      rw (no_creds, self, rights-rights_message t installed small) refl
  kept-message installed (c ∷ cs) small fit =
      let other : is_rights t (credentials_message t c) ≡ false =
        ground (arith, v.rights-ne-credentials) in
      rw
        (
          credentials-credentials_message t c fit.0,
          linux,
          other,
          kept-message installed cs small fit.1,
        )
        refl

module _ (h : Host) (v : IsTarget h.target) (linux : h.target.target_os ≡ TargetOs.linux) where
  abbrev received_outcome : ℕ → MsgHdr → SocketAncillary → List ℕ → List ScmCredentials → Outcome
  received_outcome n hdr a installed creds = record {
    result = Result.ok (record {
      bytes_read = n;
      truncated = has_flag hdr.flags h.target.msg_ctrunc;
      data_truncated = has_flag hdr.flags h.target.msg_trunc;
    });
    ancillary = record a {
      buffer = hdr.control;
      received = map ReceivedMessage.credentials creds ++ (ReceivedMessage.rights installed ∷ []);
      filled = hdr.controllen;
      truncated = has_flag hdr.flags h.target.msg_ctrunc;
    };
    iov = hdr.iov;
  }

  taken_over-message :
      (n : ℕ) (hdr : MsgHdr) (iov : List Bytes) (a : SocketAncillary) (installed : List ℕ)
      (creds : List ScmCredentials) (w : World h)
      → length installed * 4 ≤ i32_max
      → All IsFd installed
      → All IsUcred creds
      → a.received ≡ []
      → hdr.controllen ≤ length hdr.control
      → take hdr.controllen hdr.control ≡ encode_all h.target (message h.target installed creds)
      → taken_over h iov a (ok (recv_result h n hdr) w)
        ≡ ok (received_outcome n hdr a installed creds) w
  unfolding cloexec_received drop_fds
  taken_over-message n hdr iov a installed creds w few small fit empty inside encoded =
      let t : Target = h.target in
      let bytes : Bytes = encode_all t (message t installed creds) in
      let fits : leb hdr.controllen (length hdr.control) ≡ true = ground arith in
      let parsed : raw_messages t bytes ≡ message t installed creds =
        raw_messages-encode_all t (message t installed creds) v
          (message-IsEncodable t v installed creds few) in
      rw
        (
          fits,
          encoded,
          empty,
          take_received_into-kept h bytes [] w v,
          parsed,
          kept-message t v linux installed creds small fit,
          pidfds-message t v installed creds,
          linux,
        )
        refl

  -- On Linux, on a target whose constants obey IsTarget: when recvmsg, after the storage was
  -- cleared and after fewer interruptions than the bound on retries, delivers an untruncated
  -- message of n bytes with any list of credentials of 32-bit integers and then descriptors that
  -- are non-negative i32 values and whose 4-byte numbers together fit i32::MAX bytes, cmsg_recvmsg
  -- succeeds with n bytes and no truncation, messages then drains these credentials and one rights
  -- message with these descriptors in order, the caller's buffers are as recvmsg left them, and
  -- exactly the descriptors that the storage owned before have been closed; nothing is sent.
  pub messages-cmsg_recvmsg :
      (fd n : ℕ) (iov filled : List Bytes) (a : SocketAncillary) (installed : List ℕ)
      (creds : List ScmCredentials) (w : World h)
      → length installed * 4 ≤ i32_max
      → All IsFd installed
      → All IsUcred creds
      → Arrival h fd iov a.buffer (clear h a w).1.kernel (message h.target installed creds) n filled
      → (o : Outcome) × (u : World h) × (cmsg_recvmsg h fd iov a w ≡ ok o u)
        × (o.result
            ≡ Result.ok (record { bytes_read = n; truncated = false; data_truncated = false }))
        × ((messages o.ancillary).0
            ≡ map ReceivedMessage.credentials creds ++ (ReceivedMessage.rights installed ∷ []))
        × (is_truncated o.ancillary ≡ false)
        × (o.iov ≡ filled)
        × (u.closed ≡ w.closed ++ fds_of a.received)
        × (u.sent ≡ w.sent)
  unfolding cmsg_recvmsg recv_into_ancillary recvmsg_raw messages clear
  messages-cmsg_recvmsg fd n iov filled a installed creds w few small fit arrival =
      let t : Target = h.target in
      let cleared : World h = (clear h a w).1 in
      let u : World h = record cleared { kernel = arrival.after } in
      let called =
        recv_loop-Answers h fd iov a.buffer (bit_or (recv_flags t) 0) h.retries
          arrival.interruptions cleared.kernel arrival.after (received n arrival.hdr) cleared refl
          arrival.few arrival.answers in
      let storage : SocketAncillary = record (clear h a w).0 { receive_mode = true } in
      let taken =
        taken_over-message n arrival.hdr iov storage installed creds u few small fit refl
          arrival.inside arrival.encoded in
      let ledger = clear-Holds h a w in
      (
        received_outcome n arrival.hdr storage installed creds,
        u,
        rw called taken,
        rw (arrival.whole_control, arrival.whole_data) refl,
        refl,
        arrival.whole_control,
        arrival.payload,
        ledger.1,
        ledger.2,
      )
