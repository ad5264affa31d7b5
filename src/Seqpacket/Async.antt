-- ===== src/Seqpacket/Async.antt =====
-- The module `tokio` of src/seqpacket.rs.
use unix_ancillary.Base.{ℕ, List}
use unix_ancillary.Bytes.{Bytes}
use unix_ancillary.System.{Host}
use unix_ancillary.Ext.{SocketKind, CountMode, send_fds_impl, recv_fds_into_impl}
use unix_ancillary.Tokio.{Interest, Async, Runtime}

module _ (h : Host) (rt : Runtime h) where
  unfoldable pub send_fds : ℕ → Bytes → List ℕ → Async h ℕ
  unfolding send_fds_impl
  send_fds sock payload fds = rt.async_io sock Interest.writable (send_fds_impl h sock payload fds)

  unfoldable pub recv_fds_into : ℕ → ℕ → Bytes → Async h (ℕ × List ℕ × List Bytes)
  unfolding recv_fds_into_impl
  recv_fds_into n sock data_buf =
      rt.async_io sock Interest.readable
        (recv_fds_into_impl h sock data_buf SocketKind.datagram (CountMode.up_to n))

  unfoldable pub recv_fds_exact_into : ℕ → ℕ → Bytes → Async h (ℕ × List ℕ × List Bytes)
  unfolding recv_fds_into_impl
  recv_fds_exact_into n sock data_buf =
      rt.async_io sock Interest.readable
        (recv_fds_into_impl h sock data_buf SocketKind.datagram (CountMode.exact n))
