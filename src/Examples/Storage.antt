-- ===== src/Examples/Storage.antt =====
-- Witness about a low-level receive into storage that still owns a descriptor.
use unix_ancillary.Base.{◌≡◌, refl, true, false, [], ◌∷◌, arith, replicate}
use unix_ancillary.Base.Results.{Result}
use unix_ancillary.Bytes.{to_ne_bytes, le_bytes, overlay, write_at}
use unix_ancillary.Target.Linux.{x86_64_linux, x86_64_linux-IsTarget}
use unix_ancillary.System.{Host, World, ok, MsgHdr, received}
use unix_ancillary.Cmsg.Retry.{now}
use unix_ancillary.Ancillary.Layout.{header_len}
use unix_ancillary.Ancillary.Raw.{ScmCredentials}
use unix_ancillary.Ancillary.Buffer.{
  SocketAncillary, ReceivedMessage, header_bytes, to_ucred, is_truncated,
}
use unix_ancillary.Ancillary.Buffer.Encode.{encode_cmsg}
use unix_ancillary.Ancillary.Drain.{clear, messages}
use unix_ancillary.Ext.Arrival.{Arrival, message}
use unix_ancillary.Api.{Outcome, cmsg_recvmsg}
use unix_ancillary.Api.Arrived.{messages-cmsg_recvmsg}
use unix_ancillary.Examples.Machine.{machine, three_rights}

abbrev peer : ScmCredentials
peer = record { pid = 300; uid = 2; gid = 3 }

-- One `SCM_CREDENTIALS` message in front of the descriptors.
abbrev signed : MsgHdr
signed = record {
  iov = (104 ∷ []) ∷ [];
  control =
      28 ∷ 0 ∷ 0 ∷ 0 ∷ 0 ∷ 0 ∷ 0 ∷ 0 ∷ 1 ∷ 0 ∷ 0 ∷ 0 ∷ 2 ∷ 0 ∷ 0 ∷ 0 ∷ 44 ∷ 1 ∷ 0 ∷ 0 ∷ 2 ∷ 0 ∷ 0
      ∷ 0 ∷ 3 ∷ 0 ∷ 0 ∷ 0 ∷ 0 ∷ 0 ∷ 0 ∷ 0 ∷ three_rights;
  controllen = 64;
  flags = 0;
}

abbrev signed_host : Host
signed_host = record {
  target = x86_64_linux;
  os = record machine { recvmsg = λ fd iov buf flags k. (received 1 signed, k) };
  retries = 1;
  uninit = [];
}

abbrev at_rest : World signed_host
at_rest = record { kernel = 0; closed = []; sent = [] }

abbrev owning : SocketAncillary
owning = record {
  buffer = replicate 64 0;
  filled = 0;
  truncated = true;
  received = ReceivedMessage.rights (8 ∷ []) ∷ [];
  receive_mode = true;
}

signed_host-Arrival :
    Arrival signed_host 3
      ((0 ∷ []) ∷ [])
      owning.buffer
      (clear signed_host owning at_rest).1.kernel
      (message x86_64_linux (5 ∷ 6 ∷ 7 ∷ []) (peer ∷ []))
      1
      ((104 ∷ []) ∷ [])
unfolding encode_cmsg header_bytes header_len to_ne_bytes le_bytes overlay write_at to_ucred
signed_host-Arrival = record {
  interruptions = 0;
  hdr = signed;
  after = _;
  few = omega arith;
  answers = now refl refl;
  inside = omega arith;
  encoded = refl;
  whole_control = refl;
  whole_data = refl;
  payload = refl;
}

messages-cmsg_recvmsg_example :
    (o : Outcome) × (u : World signed_host) × (cmsg_recvmsg signed_host 3
        ((0 ∷ []) ∷ [])
        owning
        at_rest
      ≡ ok o u)
    × (o.result ≡ Result.ok (record { bytes_read = 1; truncated = false; data_truncated = false }))
    × ((messages o.ancillary).0
        ≡ ReceivedMessage.credentials peer ∷ ReceivedMessage.rights (5 ∷ 6 ∷ 7 ∷ []) ∷ [])
    × (is_truncated o.ancillary ≡ false)
    × (o.iov ≡ (104 ∷ []) ∷ [])
    × (u.closed ≡ 8 ∷ [])
    × (u.sent ≡ [])
messages-cmsg_recvmsg_example =
    messages-cmsg_recvmsg signed_host x86_64_linux-IsTarget refl 3 1 ((0 ∷ []) ∷ [])
      ((104 ∷ []) ∷ []) owning (5 ∷ 6 ∷ 7 ∷ []) (peer ∷ []) at_rest (omega arith)
      (omega arith, (omega arith, (omega arith, tt)))
      (record { pid_fits = omega arith; uid_fits = omega arith; gid_fits = omega arith }, tt)
      signed_host-Arrival
