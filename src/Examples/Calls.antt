-- ===== src/Examples/Calls.antt =====
-- Witnesses about whole calls.
use unix_ancillary.Base.{◌≡◌, refl, true, false, List, [], ◌∷◌, All, arith, replicate, min, max}
use unix_ancillary.Bytes.{Bytes}
use unix_ancillary.Target.Linux.{x86_64_linux, x86_64_linux-IsTarget}
use unix_ancillary.System.{World, ok, ret, received}
use unix_ancillary.Platform.{cloexec_fds}
use unix_ancillary.Platform.Fallback
use unix_ancillary.Platform.Fallback.{clamp_nofile, hard_floor, hard_ceiling, set_cloexec}
use unix_ancillary.Platform.Laws.{clamp_nofile_lem, cloexec_fds_sets}
use unix_ancillary.Ancillary.Buffer.{SocketAncillary, ReceivedMessage}
use unix_ancillary.Cmsg.{RecvMsgResult, recvmsg_raw, send_loop, recv_loop}
use unix_ancillary.Cmsg.Retry.{
  again, now, sent_answer, recv_answer, send_loop-Answers, recv_loop-Answers,
}
use unix_ancillary.Ext.{
  SocketKind, CountMode, control_storage, apply_policy, recv_core, send_fds_vectored_impl,
}
use unix_ancillary.Ext.Control.{control_storage-replicate}
use unix_ancillary.Ext.Ledger.{PolicyEnds, apply_policy-PolicyEnds}
use unix_ancillary.Ext.Attempt.{attempted, CoreEnds}
use unix_ancillary.Ext.Receive.{recv_core-CoreEnds}
use unix_ancillary.Ext.Send.{Sends, send_fds_vectored_impl-Sends}
use unix_ancillary.Ext.Stream.{send_fds_all}
use unix_ancillary.Ext.Stream.Complete.{Completes, send_fds_all-Completes}
use unix_ancillary.Ext.Returns.{recv_core-Returns, send_fds_all-Returns}
use unix_ancillary.Cmsg.Returns.{Returns}
use unix_ancillary.Api.{recv_into_ancillary}
use unix_ancillary.Api.Ownership.{Owns, recv_into_ancillary-Owns}
use unix_ancillary.Ancillary.Buffer.Refine.{Holds}
use unix_ancillary.Ancillary.Drain.{clear}
use unix_ancillary.Ext.{recv_owned_impl}
use unix_ancillary.Ext.Owned.{HandsOut, recv_owned_impl-HandsOut}
use unix_ancillary.Api.{cmsg_recvmsg}
use unix_ancillary.Api.Modes.{Locked, cmsg_recvmsg-Locked, clear-Holds}
use unix_ancillary.Examples.Machine.{
  delivery, host, start, host-ControlFits, host-Settles, apple_host, IsCloexec, apple_host-Fcntl,
  switched,
}

-- A buffer that the kernel may fill.
abbrev two_bytes : List Bytes
two_bytes = (0 ∷ 0 ∷ []) ∷ []

abbrev complete : RecvMsgResult
complete = record {
  bytes_read = 2;
  ancillary_len = 32;
  ancillary_truncated = false;
  data_truncated = false;
}

recv_core-CoreEnds_example :
    CoreEnds host SocketKind.stream
      (CountMode.up_to 2)
      (attempted host 3 two_bytes (CountMode.up_to 2) start)
      []
      []
      (recv_core host 3 two_bytes SocketKind.stream (CountMode.up_to 2) start)
recv_core-CoreEnds_example =
    recv_core-CoreEnds host 3 two_bytes SocketKind.stream (CountMode.up_to 2) start
      x86_64_linux-IsTarget host-ControlFits

recv_core-Returns_example :
    Returns (recv_core host 3 two_bytes SocketKind.datagram (CountMode.exact 3) start)
recv_core-Returns_example =
    recv_core-Returns host 3 two_bytes SocketKind.datagram (CountMode.exact 3) start
      x86_64_linux-IsTarget host-ControlFits host-Settles

-- Storage that still owns the descriptor 9.
abbrev used : SocketAncillary
used = record {
  buffer = replicate 64 0;
  filled = 32;
  truncated = true;
  received = ReceivedMessage.rights (9 ∷ []) ∷ [];
  receive_mode = true;
}

recv_into_ancillary-Owns_example :
    Owns host
      (recvmsg_raw host 3 two_bytes used.buffer 0 (clear host used start).1)
      (9 ∷ [])
      []
      (recv_into_ancillary host 3 two_bytes used 0 start)
recv_into_ancillary-Owns_example =
    recv_into_ancillary-Owns host 3 two_bytes used 0 start x86_64_linux-IsTarget host-ControlFits

cmsg_recvmsg-Locked_example : Locked host (cmsg_recvmsg host 3 two_bytes used start)
cmsg_recvmsg-Locked_example =
    cmsg_recvmsg-Locked host 3 two_bytes used start x86_64_linux-IsTarget host-ControlFits

clear-Holds_example :
    Holds x86_64_linux (clear host used start).0 []
    × ((clear host used start).1.closed ≡ 9 ∷ [])
    × ((clear host used start).1.sent ≡ [])
clear-Holds_example = clear-Holds host used start

recv_owned_impl-HandsOut_example :
    HandsOut host SocketKind.datagram
      (CountMode.exact 3)
      (attempted host 3 two_bytes (CountMode.exact 3) start)
      []
      []
      (recv_owned_impl host 3 (0 ∷ 0 ∷ []) SocketKind.datagram (CountMode.exact 3) start)
recv_owned_impl-HandsOut_example =
    recv_owned_impl-HandsOut host 3 (0 ∷ 0 ∷ []) SocketKind.datagram (CountMode.exact 3) start
      x86_64_linux-IsTarget host-ControlFits

send_fds_all-Completes_example :
    Completes host 3
      (104 ∷ 105 ∷ [])
      (5 ∷ 6 ∷ [])
      0
      []
      []
      (send_fds_all host 3 (104 ∷ 105 ∷ []) (5 ∷ 6 ∷ []) start)
send_fds_all-Completes_example =
    send_fds_all-Completes host 3 (104 ∷ 105 ∷ []) (5 ∷ 6 ∷ []) start x86_64_linux-IsTarget
      (omega arith, (omega arith, tt))

send_fds_all-Returns_example : Returns (send_fds_all host 3 (104 ∷ 105 ∷ []) (5 ∷ 6 ∷ []) start)
send_fds_all-Returns_example =
    send_fds_all-Returns host host-Settles 3 (104 ∷ 105 ∷ []) (5 ∷ 6 ∷ []) start

send_fds_vectored_impl-Sends_example :
    Sends host 3
      ((104 ∷ []) ∷ (105 ∷ []) ∷ [])
      (5 ∷ 6 ∷ [])
      []
      []
      (send_fds_vectored_impl host 3 ((104 ∷ []) ∷ (105 ∷ []) ∷ []) (5 ∷ 6 ∷ []) start)
send_fds_vectored_impl-Sends_example =
    send_fds_vectored_impl-Sends host 3 ((104 ∷ []) ∷ (105 ∷ []) ∷ []) (5 ∷ 6 ∷ []) start
      x86_64_linux-IsTarget (omega arith, (omega arith, tt))

send_loop-Answers_example :
    send_loop host 2 3 two_bytes [] start ≡ sent_answer host 3 two_bytes [] (ret 1) 1 start
send_loop-Answers_example =
    send_loop-Answers host 3 two_bytes [] 2 1 0 1 (ret 1) start refl (omega arith)
      (again refl refl (now refl refl))

recv_loop-Answers_example :
    recv_loop host 2 3 two_bytes [] 0 start ≡ recv_answer host (received 2 delivery) 1 start
recv_loop-Answers_example =
    recv_loop-Answers host 3 two_bytes [] 0 2 1 0 1 (received 2 delivery) start refl (omega arith)
      (again refl refl (now refl refl))

apply_policy-PolicyEnds_example :
    PolicyEnds host complete (5 ∷ 6 ∷ 7 ∷ []) two_bytes (CountMode.exact 2) false [] [] (
      apply_policy host SocketKind.datagram
        (CountMode.exact 2)
        complete
        (5 ∷ 6 ∷ 7 ∷ [])
        two_bytes
        start)
apply_policy-PolicyEnds_example =
    apply_policy-PolicyEnds host complete (5 ∷ 6 ∷ 7 ∷ []) two_bytes SocketKind.datagram
      (CountMode.exact 2) start

control_storage-replicate_example : control_storage (170 ∷ 170 ∷ []) 3 ≡ replicate 3 0
control_storage-replicate_example = control_storage-replicate (170 ∷ 170 ∷ []) 3

clamp_nofile_lem_example : clamp_nofile x86_64_linux 1024 ≡ max hard_floor (min 1024 hard_ceiling)
clamp_nofile_lem_example = clamp_nofile_lem x86_64_linux 1024 (omega arith) (omega arith)

abbrev nothing_on : World apple_host
nothing_on = record { kernel = λ fd. false; closed = []; sent = [] }

abbrev both_on : World apple_host
both_on = record nothing_on { kernel = switched (switched (λ fd. false) 5) 6 }

both_on-set : cloexec_fds apple_host (5 ∷ 6 ∷ []) nothing_on ≡ ok tt both_on
unfolding cloexec_fds Fallback.cloexec_fds set_cloexec
both_on-set = refl

cloexec_fds_sets_example : All (IsCloexec both_on.kernel) (5 ∷ 6 ∷ [])
cloexec_fds_sets_example =
    cloexec_fds_sets apple_host IsCloexec apple_host-Fcntl (5 ∷ 6 ∷ []) nothing_on both_on refl
      both_on-set
