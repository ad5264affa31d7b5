-- ===== src/Examples/Transfers.antt =====
-- Witness about a send and the receive of what it carried.
use unix_ancillary.Base.{some, ◌+◌, ◌≡◌, refl, List, [], ◌∷◌, arith, ◌∙◌, ap}
use unix_ancillary.Bytes.{Bytes, to_ne_bytes, le_bytes, overlay, write_at}
use unix_ancillary.Target.Linux.{x86_64_linux, x86_64_linux-IsTarget}
use unix_ancillary.System.{Host, World, ok, Sent, MsgHdr, received}
use unix_ancillary.Platform.{prepare_send}
use unix_ancillary.Cmsg.{send_loop, sendmsg_vectored}
use unix_ancillary.Platform.Obliging.{Obliging}
use unix_ancillary.Cmsg.Retry.{now}
use unix_ancillary.Ancillary.Layout.{
  header_len, cmsg_space, checked_add, checked_mul, buffer_size_for_rights,
}
use unix_ancillary.Ancillary.Raw.Parse.{raw_messages}
use unix_ancillary.Ancillary.Buffer.{
  new, add_rights, encode_rights, reserve_cmsg, header_bytes, write_fds,
}
use unix_ancillary.Ancillary.Buffer.Encode.{encode_cmsg, raw_messages-encode_all}
use unix_ancillary.Ancillary.Take.Owned.{delivered}
use unix_ancillary.Ext.{
  SocketKind, CountMode, control_storage, send_fds_vectored_impl, recv_owned_impl,
}
use unix_ancillary.Ext.Arrival.{message, message-IsEncodable, delivered-message}
use unix_ancillary.Ext.Handover.{Carried, recv_owned_impl-send_fds_vectored_impl}
use unix_ancillary.Examples.Machine.{host, machine, start, three_rights}

-- The payload `hi` in two parts, of which the kernel accepts one byte, with the descriptors 3, 4, 5.
abbrev parts : List Bytes
parts = (104 ∷ []) ∷ (105 ∷ []) ∷ []

abbrev lent : Sent
lent = record {
  socket = 7;
  payload = parts;
  control =
      28 ∷ 0 ∷ 0 ∷ 0 ∷ 0 ∷ 0 ∷ 0 ∷ 0 ∷ 1 ∷ 0 ∷ 0 ∷ 0 ∷ 1 ∷ 0 ∷ 0 ∷ 0 ∷ 3 ∷ 0 ∷ 0 ∷ 0 ∷ 4 ∷ 0 ∷ 0 ∷ 0
      ∷ 5 ∷ 0 ∷ 0 ∷ 0 ∷ 0 ∷ 0 ∷ 0 ∷ 0 ∷ [];
  accepted = 1;
}

sends_lent :
    send_fds_vectored_impl host 7 parts (3 ∷ 4 ∷ 5 ∷ []) start
    ≡ ok 1 (record { kernel = 1; closed = []; sent = lent ∷ [] })
unfolding send_fds_vectored_impl buffer_size_for_rights checked_mul cmsg_space control_storage new
    add_rights encode_rights reserve_cmsg checked_add header_bytes header_len write_fds to_ne_bytes
    le_bytes overlay write_at sendmsg_vectored prepare_send send_loop
sends_lent = refl

lent-delivered : delivered x86_64_linux (raw_messages x86_64_linux lent.control) ≡ 3 ∷ 4 ∷ 5 ∷ []
unfolding encode_cmsg header_bytes header_len to_ne_bytes le_bytes overlay write_at
lent-delivered =
    ap (delivered x86_64_linux) (
      raw_messages-encode_all x86_64_linux (message x86_64_linux (3 ∷ 4 ∷ 5 ∷ []) [])
        x86_64_linux-IsTarget
        (message-IsEncodable x86_64_linux x86_64_linux-IsTarget (3 ∷ 4 ∷ 5 ∷ []) [] (omega arith)))
    ∙ delivered-message x86_64_linux x86_64_linux-IsTarget (3 ∷ 4 ∷ 5 ∷ []) []
        (omega arith, (omega arith, (omega arith, tt)))

-- The receiver has the numbers 5, 6 and 7 free.
abbrev arrived_byte : MsgHdr
arrived_byte = record {
  iov = (104 ∷ 0 ∷ []) ∷ [];
  control = three_rights;
  controllen = 32;
  flags = 0;
}

abbrev receiver : Host
receiver = record {
  target = x86_64_linux;
  os = record machine { recvmsg = λ fd iov buf flags k. (received 1 arrived_byte, k) };
  retries = 1;
  uninit = [];
}

abbrev waiting : World receiver
waiting = record { kernel = 0; closed = []; sent = [] }

lent-Carried : Carried host receiver 9 (0 ∷ 0 ∷ []) 0 (λ fd. fd + 2) [] lent
unfolding encode_cmsg header_bytes header_len to_ne_bytes le_bytes overlay write_at
lent-Carried = record {
  filled = (104 ∷ 0 ∷ []) ∷ [];
  same_bytes = refl;
  arrives = λ buf wide. rw lent-delivered (record {
    interruptions = 0;
    hdr = arrived_byte;
    after = 0;
    few = omega arith;
    answers = now refl refl;
    inside = omega arith;
    encoded = refl;
    whole_control = refl;
    whole_data = refl;
    payload = refl;
  });
}

receiver-Obliging : Obliging receiver
receiver-Obliging = record {
  getfd = λ fd k. (0, k, refl);
  setfd = λ fd flags k. (0, k, refl);
  limit = λ k. (some 1024, refl);
}

recv_owned_impl-send_fds_vectored_impl_example :
    (u : World receiver) × (recv_owned_impl receiver 9
        (0 ∷ 0 ∷ [])
        SocketKind.stream
        (CountMode.exact 3)
        waiting
      ≡ ok (record { payload = 104 ∷ []; owned = 5 ∷ 6 ∷ 7 ∷ []; surplus_closed = 0 }) u)
    × (u.closed ≡ [])
    × (u.sent ≡ [])
recv_owned_impl-send_fds_vectored_impl_example =
    recv_owned_impl-send_fds_vectored_impl host receiver x86_64_linux-IsTarget x86_64_linux-IsTarget
      (λ e. receiver-Obliging) SocketKind.stream 7 9 1 parts (3 ∷ 4 ∷ 5 ∷ []) (0 ∷ 0 ∷ [])
      (λ fd. fd + 2) [] lent start (record { kernel = 1; closed = []; sent = lent ∷ [] }) waiting
      (omega arith, (omega arith, (omega arith, tt)))
      (omega arith, (omega arith, (omega arith, tt))) (omega arith) (omega arith) sends_lent refl
      lent-Carried
