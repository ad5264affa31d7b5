-- ===== src/Api.antt =====
-- src/lib.rs: the low-level calls `cmsg_sendmsg`, `cmsg_recvmsg` and `cmsg_recvmsg_peek`, over a
-- `SocketAncillary` of the caller's.
pub mod Ownership
pub mod Modes
pub mod Arrived
pub mod Tally
pub mod Lifecycle
use unix_ancillary.Base.{ℕ, Bool, true, false, List, [], if◌then◌else◌}
use unix_ancillary.Base.Results.{Result}
use unix_ancillary.Bytes.{Bytes}
use unix_ancillary.Target.{ErrorKind}
use unix_ancillary.System.{
  Host, World, Run, Exit, ok, err, panic, out_of_fuel, IoError, custom, MsgHdr, and_then, ◌>>=◌,
}
use unix_ancillary.Platform.{cloexec_received}
use unix_ancillary.Ancillary.Buffer.{SocketAncillary}
use unix_ancillary.Ancillary.Take.{take_received_into}
use unix_ancillary.Ancillary.Drain.{clear, drop_messages}
use unix_ancillary.Cmsg.{RecvMsgResult, slice_to, sendmsg_vectored, recvmsg_raw}
use unix_ancillary.Ext.{invalid_input}

pub record RecvResult : Type 0 where
  pub bytes_read : ℕ
  pub truncated : Bool
  pub data_truncated : Bool

-- What a call leaves in the caller's hands: its `io::Result`, the ancillary storage and the iovecs,
-- on an error too.
pub record Outcome : Type 0 where
  pub result : Result RecvResult IoError
  pub ancillary : SocketAncillary
  pub iov : List Bytes

module _ (h : Host) where
  unfoldable pub cmsg_sendmsg : ℕ → List Bytes → SocketAncillary → Run h ℕ
  unfolding sendmsg_vectored
  cmsg_sendmsg fd iov ancillary =
      if ancillary.receive_mode
      then invalid_input
      else sendmsg_vectored h fd iov ancillary.buffer ancillary.filled

  -- After `take_received_into`: close-on-exec, and the results; a failure drops what was received.
  abbrev pub recorded :
      RecvMsgResult → List Bytes → SocketAncillary → Exit h (Unit {0}) → Exit h Outcome
  recorded result iov ancillary (ok u w) =
      ok
        (record {
          result = Result.ok (record {
            bytes_read = result.bytes_read;
            truncated = result.ancillary_truncated;
            data_truncated = result.data_truncated;
          });
          ancillary = record ancillary {
            filled = result.ancillary_len;
            truncated = result.ancillary_truncated;
          };
          iov = iov;
        })
        w
  recorded result iov ancillary (err e w) =
      ok
        (record {
          result = Result.err e;
          ancillary = record ancillary { received = [] };
          iov = iov;
        })
        (drop_messages h ancillary.received w)
  recorded result iov ancillary (panic w) = panic (drop_messages h ancillary.received w)
  recorded result iov ancillary out_of_fuel = out_of_fuel

  -- After `recvmsg_raw`. What a failed call leaves in the iovecs and the control bytes is not modelled:
  -- they stay as they were.
  abbrev pub taken_over :
      List Bytes → SocketAncillary → Exit h (RecvMsgResult × MsgHdr) → Exit h Outcome
  taken_over iov ancillary (err e w) =
      ok (record { result = Result.err e; ancillary = ancillary; iov = iov }) w
  taken_over iov ancillary (panic w) = panic w
  taken_over iov ancillary out_of_fuel = out_of_fuel
  taken_over iov ancillary (ok (result, hdr) w) =
      and_then (slice_to result.ancillary_len hdr.control w) λ control.
        take_received_into h control ancillary.received >>= λ received w'.
        recorded result hdr.iov (record ancillary { buffer = hdr.control; received = received })
          (cloexec_received h received w')

  unfoldable pub recv_into_ancillary : ℕ → List Bytes → SocketAncillary → ℕ → Run h Outcome
  unfolding clear
  recv_into_ancillary fd iov ancillary extra_flags w =
      let (cleared, w') = clear h ancillary w in
      taken_over iov (record cleared { receive_mode = true })
        (recvmsg_raw h fd iov ancillary.buffer extra_flags w')

  unfoldable pub cmsg_recvmsg : ℕ → List Bytes → SocketAncillary → Run h Outcome
  unfolding recv_into_ancillary
  cmsg_recvmsg fd iov ancillary = recv_into_ancillary fd iov ancillary 0

  unfoldable pub cmsg_recvmsg_peek : ℕ → List Bytes → SocketAncillary → Run h Outcome
  unfolding recv_into_ancillary
  cmsg_recvmsg_peek fd iov ancillary = recv_into_ancillary fd iov ancillary h.target.msg_peek
