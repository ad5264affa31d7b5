-- ===== src/Asyncio/Receive.antt =====
-- The receiving methods of src/asyncio.rs: retried while the socket is not ready, and dropped at any
-- `await`.
use unix_ancillary.Base.{ℕ, sym, ◌∙◌, List, [], ◌∷◌, replicate, append-nil}
use unix_ancillary.Bytes.{Bytes}
use unix_ancillary.Target.{IsTarget}
use unix_ancillary.System.{Host, World}
use unix_ancillary.Ext.{
  SocketKind, CountMode, ReceivedFds, recv_owned_impl, default_stream_buf, default_datagram_buf,
  recv_core, recv_fds_into_impl, recv_fds_into_vectored_impl,
}
use unix_ancillary.Cmsg.Fits.{ControlFits}
use unix_ancillary.Ext.Owned.{HandsOut, recv_owned_impl-HandsOut}
use unix_ancillary.Ext.Into.{HandsInto, recv_fds_into_vectored_impl-HandsInto}
use unix_ancillary.Seqpacket.Async
use unix_ancillary.Tokio.{Interest, Poll, Runtime}
use unix_ancillary.Asyncio.Stream
use unix_ancillary.Asyncio.Datagram
use unix_ancillary.Asyncio.Blocked.{FcntlNeverBlocks, recv_core-Bounces}
use unix_ancillary.Asyncio.Gives.{map-Bounces, Gives, receives-Gives}

abbrev pub stream_buf : Bytes
stream_buf = replicate default_stream_buf 0

abbrev pub datagram_buf : Bytes
datagram_buf = replicate default_datagram_buf 0

module _ (h : Host) (rt : Runtime h) (fd : ℕ) (w : World h) (kind : SocketKind)
    (mode : CountMode) where
  -- A future that gives its descriptors away in a `ReceivedFds`, or beside the caller's buffers.
  abbrev pub GivesOwned : Bytes → Poll h ReceivedFds → Type 0
  GivesOwned data_buf =
      Gives h rt fd w mode (data_buf ∷ []) (recv_owned_impl h fd data_buf kind mode)
        (HandsOut h kind mode)

  abbrev pub GivesInto : List Bytes → Poll h (ℕ × List ℕ × List Bytes) → Type 0
  GivesInto iov =
      Gives h rt fd w mode iov (recv_fds_into_vectored_impl h fd iov kind mode)
        (HandsInto h kind mode)

  module _ (v : IsTarget h.target) (law : ControlFits h) (n : FcntlNeverBlocks h) where
    owned-Gives :
        (data_buf : Bytes)
        → GivesOwned data_buf
            (rt.async_io fd Interest.readable (recv_owned_impl h fd data_buf kind mode) w)
    owned-Gives data_buf =
        receives-Gives h rt fd w mode (data_buf ∷ []) (recv_owned_impl h fd data_buf kind mode)
          (HandsOut h kind mode) (λ u. recv_owned_impl-HandsOut h fd data_buf kind mode u v law)
          (λ u closed sent c s.
            unfold recv_owned_impl in
            map-Bounces _ closed sent (recv_core h fd (data_buf ∷ []) kind mode u) _
              (recv_core-Bounces h n v law fd (data_buf ∷ []) kind mode u closed sent c s))
          λ u e c s. (c ∙ sym (append-nil w.closed), s)

    into-Gives :
        (iov : List Bytes)
        → GivesInto iov
            (rt.async_io fd Interest.readable (recv_fds_into_vectored_impl h fd iov kind mode) w)
    into-Gives iov =
        receives-Gives h rt fd w mode iov (recv_fds_into_vectored_impl h fd iov kind mode)
          (HandsInto h kind mode)
          (λ u. recv_fds_into_vectored_impl-HandsInto h fd iov kind mode u v law)
          (λ u closed sent c s.
            unfold recv_fds_into_vectored_impl in
            map-Bounces _ closed sent (recv_core h fd iov kind mode u) _
              (recv_core-Bounces h n v law fd iov kind mode u closed sent c s))
          λ u e c s. (c ∙ sym (append-nil w.closed), s)

-- Every async receive of at most, or exactly, `n` descriptors.
pub record ReceivesConclude (h : Host) (rt : Runtime h) (n fd : ℕ) (buf : Bytes) (iov : List Bytes)
    (w : World h) : Type 0 where
  pub stream_recv_fds :
      GivesOwned h rt fd w SocketKind.stream
        (CountMode.up_to n)
        stream_buf
        (Stream.recv_fds h rt n fd w)
  pub stream_recv_fds_exact :
      GivesOwned h rt fd w SocketKind.stream
        (CountMode.exact n)
        stream_buf
        (Stream.recv_fds_exact h rt n fd w)
  pub stream_recv_fds_vectored :
      GivesInto h rt fd w SocketKind.stream
        (CountMode.up_to n)
        iov
        (Stream.recv_fds_vectored h rt n fd iov w)
  pub stream_recv_fds_into :
      GivesInto h rt fd w SocketKind.stream
        (CountMode.up_to n)
        (buf ∷ [])
        (Stream.recv_fds_into h rt n fd buf w)
  pub stream_recv_fds_exact_into :
      GivesInto h rt fd w SocketKind.stream
        (CountMode.exact n)
        (buf ∷ [])
        (Stream.recv_fds_exact_into h rt n fd buf w)
  pub datagram_recv_fds :
      GivesOwned h rt fd w SocketKind.datagram
        (CountMode.up_to n)
        datagram_buf
        (Datagram.recv_fds h rt n fd w)
  pub datagram_recv_fds_exact :
      GivesOwned h rt fd w SocketKind.datagram
        (CountMode.exact n)
        datagram_buf
        (Datagram.recv_fds_exact h rt n fd w)
  pub datagram_recv_fds_into :
      GivesInto h rt fd w SocketKind.datagram
        (CountMode.up_to n)
        (buf ∷ [])
        (Datagram.recv_fds_into h rt n fd buf w)
  pub datagram_recv_fds_exact_into :
      GivesInto h rt fd w SocketKind.datagram
        (CountMode.exact n)
        (buf ∷ [])
        (Datagram.recv_fds_exact_into h rt n fd buf w)
  pub seqpacket_recv_fds_into :
      GivesInto h rt fd w SocketKind.datagram
        (CountMode.up_to n)
        (buf ∷ [])
        (Async.recv_fds_into h rt n fd buf w)
  pub seqpacket_recv_fds_exact_into :
      GivesInto h rt fd w SocketKind.datagram
        (CountMode.exact n)
        (buf ∷ [])
        (Async.recv_fds_exact_into h rt n fd buf w)

-- On a target whose constants obey IsTarget, with a kernel that reports no more control bytes than
-- the buffer holds and whose fcntl never fails with WouldBlock, and under a runtime that tries an
-- operation again only when it failed with WouldBlock, no async receive of streams, datagrams or
-- the tokio module of seqpacket leaks a descriptor, however often an attempt would block. The
-- recvmsg of each attempt of the run is followed: those of the attempts that would block delivered
-- nothing. A future that is dropped while it waits has closed and sent nothing. One that ends with
-- success hands out the first descriptors, at most N or exactly N, that the recvmsg of its last
-- attempt delivered, with the bytes and buffers of that receive, and the pidfds and the surplus
-- closed. One that ends with an error or a panic has closed exactly what that recvmsg delivered,
-- nothing if it failed or if the error is the runtime's own. A run that exceeds the bound on
-- retries is not constrained.
pub async-ReceivesConclude :
    (h : Host) (rt : Runtime h) (n fd : ℕ) (buf : Bytes) (iov : List Bytes) (w : World h)
    → IsTarget h.target
    → ControlFits h
    → FcntlNeverBlocks h
    → ReceivesConclude h rt n fd buf iov w
unfolding Stream.recv_fds Stream.recv_fds_vectored Stream.recv_fds_into Stream.recv_fds_exact
    Stream.recv_fds_exact_into Datagram.recv_fds Datagram.recv_fds_into Datagram.recv_fds_exact
    Datagram.recv_fds_exact_into Async.recv_fds_into Async.recv_fds_exact_into recv_fds_into_impl
async-ReceivesConclude h rt n fd buf iov w v law never =
    let stream : SocketKind = SocketKind.stream in
    let datagram : SocketKind = SocketKind.datagram in
    let up_to : CountMode = CountMode.up_to n in
    let exact : CountMode = CountMode.exact n in
    record {
      stream_recv_fds = owned-Gives h rt fd w stream up_to v law never stream_buf;
      stream_recv_fds_exact = owned-Gives h rt fd w stream exact v law never stream_buf;
      stream_recv_fds_vectored = into-Gives h rt fd w stream up_to v law never iov;
      stream_recv_fds_into = into-Gives h rt fd w stream up_to v law never (buf ∷ []);
      stream_recv_fds_exact_into = into-Gives h rt fd w stream exact v law never (buf ∷ []);
      datagram_recv_fds = owned-Gives h rt fd w datagram up_to v law never datagram_buf;
      datagram_recv_fds_exact = owned-Gives h rt fd w datagram exact v law never datagram_buf;
      datagram_recv_fds_into = into-Gives h rt fd w datagram up_to v law never (buf ∷ []);
      datagram_recv_fds_exact_into = into-Gives h rt fd w datagram exact v law never (buf ∷ []);
      seqpacket_recv_fds_into = into-Gives h rt fd w datagram up_to v law never (buf ∷ []);
      seqpacket_recv_fds_exact_into = into-Gives h rt fd w datagram exact v law never (buf ∷ []);
    }
