-- ===== src/Asyncio/Returns.antt =====
-- The async methods of src/asyncio.rs and src/seqpacket.rs within the bounds of the model.
use unix_ancillary.Base.{ℕ, List, [], ◌∷◌}
use unix_ancillary.Bytes.{Bytes}
use unix_ancillary.Target.{IsTarget}
use unix_ancillary.System.{Host, World}
use unix_ancillary.Ext.{SocketKind, CountMode, recv_fds_into_impl}
use unix_ancillary.Cmsg.Fits.{ControlFits}
use unix_ancillary.Cmsg.Returns.{Settles}
use unix_ancillary.Tokio.{Interest, Runtime}
use unix_ancillary.Asyncio.Stream
use unix_ancillary.Asyncio.Stream.{after_async_send, async_send_rest, async_send_first}
use unix_ancillary.Asyncio.Datagram
use unix_ancillary.Seqpacket.Async
use unix_ancillary.Asyncio.Bounds.{
  ReturnsAsync, async_io-ReturnsAsync, send_fds_impl-Returns, send_fds_vectored-ReturnsAsync,
  send_fds_all-ReturnsAsync, stream_send_fds-ReturnsAsync, owned-ReturnsAsync,
  vectored-ReturnsAsync,
}

-- Every async send.
pub record SendsReturn (h : Host) (rt : Runtime h) (fd : ℕ) (payload : Bytes) (iov : List Bytes)
    (fds : List ℕ) (w : World h) : Type 0 where
  pub stream_send_fds : ReturnsAsync (Stream.send_fds h rt fd payload fds w)
  pub stream_send_fds_vectored : ReturnsAsync (Stream.send_fds_vectored h rt fd iov fds w)
  pub stream_send_fds_all : ReturnsAsync (Stream.send_fds_all h rt fd payload fds w)
  pub datagram_send_fds : ReturnsAsync (Datagram.send_fds h rt fd payload fds w)
  pub seqpacket_send_fds : ReturnsAsync (Async.send_fds h rt fd payload fds w)

-- Every async receive of at most, or exactly, `n` descriptors.
pub record ReceivesReturn (h : Host) (rt : Runtime h) (n fd : ℕ) (payload : Bytes)
    (iov : List Bytes) (w : World h) : Type 0 where
  pub stream_recv_fds : ReturnsAsync (Stream.recv_fds h rt n fd w)
  pub stream_recv_fds_vectored : ReturnsAsync (Stream.recv_fds_vectored h rt n fd iov w)
  pub stream_recv_fds_into : ReturnsAsync (Stream.recv_fds_into h rt n fd payload w)
  pub stream_recv_fds_exact : ReturnsAsync (Stream.recv_fds_exact h rt n fd w)
  pub stream_recv_fds_exact_into : ReturnsAsync (Stream.recv_fds_exact_into h rt n fd payload w)
  pub datagram_recv_fds : ReturnsAsync (Datagram.recv_fds h rt n fd w)
  pub datagram_recv_fds_into : ReturnsAsync (Datagram.recv_fds_into h rt n fd payload w)
  pub datagram_recv_fds_exact : ReturnsAsync (Datagram.recv_fds_exact h rt n fd w)
  pub datagram_recv_fds_exact_into : ReturnsAsync (Datagram.recv_fds_exact_into h rt n fd payload w)
  pub seqpacket_recv_fds_into : ReturnsAsync (Async.recv_fds_into h rt n fd payload w)
  pub seqpacket_recv_fds_exact_into : ReturnsAsync (Async.recv_fds_exact_into h rt n fd payload w)

-- On a target whose constants obey IsTarget, with a kernel that reports no more control bytes than
-- the buffer holds and that interrupts a call less often in a row than the bound on retries, and
-- under a runtime that tries an operation again only when it failed with WouldBlock, the future of
-- every async method of streams, datagrams and the tokio module of seqpacket, where it is polled to
-- its end, ends within the bounds: the rounds of the async send_fds_all, one more than the payload
-- has bytes, are never used up, nor are the retries and the parser loops.
pub async_methods_return :
    (h : Host) (rt : Runtime h) (n fd : ℕ) (payload : Bytes) (iov : List Bytes) (fds : List ℕ)
    (w : World h)
    → IsTarget h.target
    → ControlFits h
    → Settles h
    → SendsReturn h rt fd payload iov fds w × ReceivesReturn h rt n fd payload iov w
unfolding Datagram.send_fds Async.send_fds Stream.recv_fds Stream.recv_fds_vectored
    Stream.recv_fds_into Stream.recv_fds_exact Stream.recv_fds_exact_into Datagram.recv_fds
    Datagram.recv_fds_into Datagram.recv_fds_exact Datagram.recv_fds_exact_into Async.recv_fds_into
    Async.recv_fds_exact_into recv_fds_into_impl
async_methods_return h rt n fd payload iov fds w v law s =
    let sent =
      async_io-ReturnsAsync h rt s fd Interest.writable _ w
        (send_fds_impl-Returns h rt s fd payload fds) in
    let up_to : CountMode = CountMode.up_to n in
    let exact : CountMode = CountMode.exact n in
    (
      record {
        stream_send_fds = stream_send_fds-ReturnsAsync h rt s fd payload fds w;
        stream_send_fds_vectored = send_fds_vectored-ReturnsAsync h rt s fd iov fds w;
        stream_send_fds_all = send_fds_all-ReturnsAsync h rt s fd payload fds w;
        datagram_send_fds = sent;
        seqpacket_send_fds = sent;
      },
      record {
        stream_recv_fds = owned-ReturnsAsync h rt s v law fd SocketKind.stream up_to w _;
        stream_recv_fds_vectored =
            vectored-ReturnsAsync h rt s v law fd SocketKind.stream up_to w iov;
        stream_recv_fds_into =
            vectored-ReturnsAsync h rt s v law fd SocketKind.stream up_to w (payload ∷ []);
        stream_recv_fds_exact = owned-ReturnsAsync h rt s v law fd SocketKind.stream exact w _;
        stream_recv_fds_exact_into =
            vectored-ReturnsAsync h rt s v law fd SocketKind.stream exact w (payload ∷ []);
        datagram_recv_fds = owned-ReturnsAsync h rt s v law fd SocketKind.datagram up_to w _;
        datagram_recv_fds_into =
            vectored-ReturnsAsync h rt s v law fd SocketKind.datagram up_to w (payload ∷ []);
        datagram_recv_fds_exact = owned-ReturnsAsync h rt s v law fd SocketKind.datagram exact w _;
        datagram_recv_fds_exact_into =
            vectored-ReturnsAsync h rt s v law fd SocketKind.datagram exact w (payload ∷ []);
        seqpacket_recv_fds_into =
            vectored-ReturnsAsync h rt s v law fd SocketKind.datagram up_to w (payload ∷ []);
        seqpacket_recv_fds_exact_into =
            vectored-ReturnsAsync h rt s v law fd SocketKind.datagram exact w (payload ∷ []);
      },
    )
