-- ===== src/Asyncio/Datagram.antt =====
-- `AsyncUnixDatagramExt` of src/asyncio.rs.
use unix_ancillary.Base.{ℕ, List, replicate}
use unix_ancillary.Bytes.{Bytes}
use unix_ancillary.System.{Host}
use unix_ancillary.Ext.{
  SocketKind, CountMode, ReceivedFds, default_datagram_buf, send_fds_impl, recv_fds_into_impl,
  recv_owned_impl,
}
use unix_ancillary.Tokio.{Interest, Async, Runtime}

module _ (h : Host) (rt : Runtime h) where
  unfoldable pub send_fds : ℕ → Bytes → List ℕ → Async h ℕ
  unfolding send_fds_impl
  send_fds fd payload fds = rt.async_io fd Interest.writable (send_fds_impl h fd payload fds)

  unfoldable pub recv_fds : ℕ → ℕ → Async h ReceivedFds
  unfolding recv_owned_impl
  recv_fds n fd = rt.async_io fd Interest.readable (
      recv_owned_impl h fd (replicate default_datagram_buf 0) SocketKind.datagram
        (CountMode.up_to n))

  unfoldable pub recv_fds_into : ℕ → ℕ → Bytes → Async h (ℕ × List ℕ × List Bytes)
  unfolding recv_fds_into_impl
  recv_fds_into n fd data_buf =
      rt.async_io fd Interest.readable
        (recv_fds_into_impl h fd data_buf SocketKind.datagram (CountMode.up_to n))

  unfoldable pub recv_fds_exact : ℕ → ℕ → Async h ReceivedFds
  unfolding recv_owned_impl
  recv_fds_exact n fd = rt.async_io fd Interest.readable (
      recv_owned_impl h fd (replicate default_datagram_buf 0) SocketKind.datagram
        (CountMode.exact n))

  unfoldable pub recv_fds_exact_into : ℕ → ℕ → Bytes → Async h (ℕ × List ℕ × List Bytes)
  unfolding recv_fds_into_impl
  recv_fds_exact_into n fd data_buf =
      rt.async_io fd Interest.readable
        (recv_fds_into_impl h fd data_buf SocketKind.datagram (CountMode.exact n))
