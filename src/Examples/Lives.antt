-- ===== src/Examples/Lives.antt =====
-- Witnesses about the life of one storage: a send is built and made, a message is received and
-- drained in part, and the storage is dropped.
use unix_ancillary.Base.{
  ℕ, ◌≤◌, ◌≡◌, refl, subst, true, false, [], ◌∷◌, ◌++◌, length, replicate, min, arith, dec_lt,
  ℕ_discrete,
}
use unix_ancillary.Bytes.{Bytes, to_ne_bytes, from_ne_bytes, le_bytes, le_value, overlay, write_at}
use unix_ancillary.Bytes.Laws.{length-write_at}
use unix_ancillary.Target.Linux.{x86_64_linux, x86_64_linux-IsTarget}
use unix_ancillary.System.{Host, World, MsgHdr, received, drop_fds, close_fd}
use unix_ancillary.Cmsg.Fits.{ControlFits, ControlFixed, ControlBytes}
use unix_ancillary.Ancillary.Layout.{checked_add, checked_mul, header_len, cmsg_space}
use unix_ancillary.Ancillary.Raw.{rights, credentials, chunks_exact, remaining_after, raw_next}
use unix_ancillary.Ancillary.Raw.Parse.{collect, raw_messages}
use unix_ancillary.Ancillary.Buffer.{
  new, header_bytes, reserve_cmsg, write_fds, encode_rights, add_rights, add_fds,
}
use unix_ancillary.Ancillary.Take.{
  push_rights, push_credentials, close_pidfd, received_loop, take_received_into,
}
use unix_ancillary.Ancillary.Drain.{clear, drop_messages, messages, messages_next, rights_next}
use unix_ancillary.Platform.{prepare_send, cloexec_received}
use unix_ancillary.Cmsg.{send_loop, sendmsg_vectored, recv_loop, recvmsg_raw}
use unix_ancillary.Api.{cmsg_sendmsg, cmsg_recvmsg, recv_into_ancillary}
use unix_ancillary.Api.Lifecycle.{
  Life, born, dropped, Ops, done, more, add_fds_op, sendmsg_ok, recvmsg_op, messages_op,
}
use unix_ancillary.Ancillary.Drain.Ledger.{
  step, next_rights, next_fd, drop_rights, drop_iterator, Steps,
}
use unix_ancillary.Api.Lifecycle.Sound.{IsSound, Ops-born-IsSound}
use unix_ancillary.Api.Lifecycle.Typed.{FitsTypes, Ops-born-FitsTypes}
use unix_ancillary.Bytes.Octets.{AreBytes, write_at-AreBytes, replicate-AreBytes}
use unix_ancillary.Api.Lifecycle.Bags.{bag, dropped-bag}
use unix_ancillary.Examples.Machine.{machine, three_rights}

-- What a receive leaves in any control buffer.
abbrev into : Bytes → MsgHdr
into buf = record {
  iov = (104 ∷ 105 ∷ []) ∷ [];
  control = write_at 0 three_rights buf;
  controllen = min 32 (length buf);
  flags = 0;
}

abbrev life_host : Host
life_host = record {
  target = x86_64_linux;
  os = record machine { recvmsg = λ fd iov buf flags k. (received 2 (into buf), k) };
  retries = 2;
  uninit = [];
}

abbrev born_in : World life_host
born_in = record { kernel = 0; closed = 9 ∷ []; sent = [] }

life_host-ControlFits : ControlFits life_host
life_host-ControlFits fd iov buf flags n hdr k k' e =
    let same : into buf ≡ hdr = cc e in
    subst (λ x. x.controllen ≤ length x.control) same
      (omega (arith, length-write_at 0 three_rights buf))

life_host-ControlFixed : ControlFixed life_host
life_host-ControlFixed fd iov buf flags n hdr k k' e =
    let same : into buf ≡ hdr = cc e in
    subst (λ x. length x.control ≡ length buf) same (length-write_at 0 three_rights buf)

abbrev lived : Life life_host
lived = record {
  storage = record {
    buffer = three_rights ++ replicate 8 0;
    filled = 32;
    truncated = false;
    received = [];
    receive_mode = true;
  };
  world = record {
    kernel = 1;
    closed = 9 ∷ 6 ∷ 7 ∷ [];
    sent =
        record {
          socket = 3;
          payload = (70 ∷ []) ∷ [];
          control =
              20 ∷ 0 ∷ 0 ∷ 0 ∷ 0 ∷ 0 ∷ 0 ∷ 0 ∷ 1 ∷ 0 ∷ 0 ∷ 0 ∷ 1 ∷ 0 ∷ 0 ∷ 0 ∷ 8 ∷ 0 ∷ 0 ∷ 0 ∷ 0 ∷ 0
              ∷ 0 ∷ 0 ∷ [];
          accepted = 1;
        }
        ∷ [];
  };
  built = [];
  arrived = 5 ∷ 6 ∷ 7 ∷ [];
  taken = 5 ∷ [];
}

lived-Ops : Ops life_host (born life_host (replicate 40 0) born_in) lived
unfolding add_fds add_rights encode_rights reserve_cmsg header_bytes write_fds cmsg_space
    checked_add checked_mul header_len new to_ne_bytes le_bytes overlay write_at cmsg_sendmsg
    sendmsg_vectored prepare_send send_loop recvmsg_raw recv_loop cmsg_recvmsg recv_into_ancillary
    clear drop_messages take_received_into received_loop push_rights push_credentials rights
    chunks_exact collect raw_messages cloexec_received raw_next remaining_after from_ne_bytes
    le_value close_pidfd drop_fds close_fd messages messages_next rights_next credentials dec_lt
    ℕ_discrete
lived-Ops =
    more
      (more (more (more done (add_fds_op (8 ∷ []) refl)) (sendmsg_ok 3 ((70 ∷ []) ∷ []) refl))
        (recvmsg_op 3 ((0 ∷ 0 ∷ []) ∷ []) refl))
      (messages_op _
        (step (next_rights refl) (
          step (next_fd [] [] (5 ∷ 6 ∷ 7 ∷ []) refl refl)
            (step (drop_rights [] [] (6 ∷ 7 ∷ []) refl) (step drop_iterator Steps.done))))
        refl refl)

Ops-born-IsSound_example : IsSound life_host (length (replicate {A = ℕ} 40 0)) (9 ∷ []) lived
Ops-born-IsSound_example =
    Ops-born-IsSound life_host (replicate 40 0) born_in lived x86_64_linux-IsTarget
      life_host-ControlFits life_host-ControlFixed lived-Ops

dropped-bag_example :
    bag (born_in.closed ++ lived.arrived) ≡ bag (lived.taken ++ (dropped life_host lived).closed)
dropped-bag_example =
    dropped-bag life_host (replicate 40 0) born_in lived x86_64_linux-IsTarget life_host-ControlFits
      life_host-ControlFixed lived-Ops

three_rights-AreBytes : AreBytes three_rights
three_rights-AreBytes = ground arith

life_host-ControlBytes : ControlBytes life_host
life_host-ControlBytes fd iov buf flags n hdr k k' old e =
    let same : into buf ≡ hdr = cc e in
    subst (λ x. AreBytes x.control) same
      (write_at-AreBytes 0 three_rights buf three_rights-AreBytes old)

Ops-born-FitsTypes_example : FitsTypes lived
Ops-born-FitsTypes_example =
    Ops-born-FitsTypes life_host (replicate 40 0) born_in lived x86_64_linux-IsTarget
      life_host-ControlBytes (replicate-AreBytes 40) lived-Ops
