-- ===== src/Ext/Datagram.antt =====
-- `UnixDatagramExt` of src/ext.rs: the methods of a datagram socket.
use unix_ancillary.Base.{ℕ, List, replicate}
use unix_ancillary.Bytes.{Bytes}
use unix_ancillary.System.{Host, Run}
use unix_ancillary.Ext.{
  SocketKind, CountMode, ReceivedFds, default_datagram_buf, send_fds_impl, send_fds_vectored_impl,
  recv_fds_into_vectored_impl, recv_fds_into_impl, recv_owned_impl,
}

module _ (h : Host) where
  unfoldable pub send_fds_vectored : ℕ → List Bytes → List ℕ → Run h ℕ
  unfolding send_fds_vectored_impl
  send_fds_vectored fd iov fds = send_fds_vectored_impl h fd iov fds

  unfoldable pub recv_fds_vectored : ℕ → ℕ → List Bytes → Run h (ℕ × List ℕ × List Bytes)
  unfolding recv_fds_into_vectored_impl
  recv_fds_vectored n fd iov =
      recv_fds_into_vectored_impl h fd iov SocketKind.datagram (CountMode.up_to n)

  unfoldable pub send_fds : ℕ → Bytes → List ℕ → Run h ℕ
  unfolding send_fds_impl
  send_fds fd payload fds = send_fds_impl h fd payload fds

  unfoldable pub recv_fds : ℕ → ℕ → Run h ReceivedFds
  unfolding recv_owned_impl
  recv_fds n fd =
      recv_owned_impl h fd (replicate default_datagram_buf 0) SocketKind.datagram
        (CountMode.up_to n)

  unfoldable pub recv_fds_into : ℕ → ℕ → Bytes → Run h (ℕ × List ℕ × List Bytes)
  unfolding recv_fds_into_impl
  recv_fds_into n fd data_buf =
      recv_fds_into_impl h fd data_buf SocketKind.datagram (CountMode.up_to n)

  unfoldable pub recv_fds_exact : ℕ → ℕ → Run h ReceivedFds
  unfolding recv_owned_impl
  recv_fds_exact n fd =
      recv_owned_impl h fd (replicate default_datagram_buf 0) SocketKind.datagram
        (CountMode.exact n)

  unfoldable pub recv_fds_exact_into : ℕ → ℕ → Bytes → Run h (ℕ × List ℕ × List Bytes)
  unfolding recv_fds_into_impl
  recv_fds_exact_into n fd data_buf =
      recv_fds_into_impl h fd data_buf SocketKind.datagram (CountMode.exact n)
