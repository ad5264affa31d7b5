-- ===== src/Seqpacket.antt =====
-- src/seqpacket.rs: descriptor passing on a connected `SOCK_SEQPACKET` socket.
pub mod Async
use unix_ancillary.Base.{ℕ, List, replicate}
use unix_ancillary.Bytes.{Bytes}
use unix_ancillary.System.{Host, Run}
use unix_ancillary.Ext.{
  SocketKind, CountMode, ReceivedFds, default_datagram_buf, send_fds_impl, recv_fds_into_impl,
  recv_owned_impl,
}

abbrev pub default_buf : ℕ
default_buf = default_datagram_buf

module _ (h : Host) where
  unfoldable pub send_fds : ℕ → Bytes → List ℕ → Run h ℕ
  unfolding send_fds_impl
  send_fds sock payload fds = send_fds_impl h sock payload fds

  unfoldable pub recv_fds : ℕ → ℕ → Run h ReceivedFds
  unfolding recv_owned_impl
  recv_fds n sock =
      recv_owned_impl h sock (replicate default_buf 0) SocketKind.datagram (CountMode.up_to n)

  unfoldable pub recv_fds_into : ℕ → ℕ → Bytes → Run h (ℕ × List ℕ × List Bytes)
  unfolding recv_fds_into_impl
  recv_fds_into n sock data_buf =
      recv_fds_into_impl h sock data_buf SocketKind.datagram (CountMode.up_to n)

  unfoldable pub recv_fds_exact_into : ℕ → ℕ → Bytes → Run h (ℕ × List ℕ × List Bytes)
  unfolding recv_fds_into_impl
  recv_fds_exact_into n sock data_buf =
      recv_fds_into_impl h sock data_buf SocketKind.datagram (CountMode.exact n)
