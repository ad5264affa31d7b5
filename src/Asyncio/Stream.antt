-- ===== src/Asyncio/Stream.antt =====
-- `AsyncUnixStreamExt` of src/asyncio.rs.
use unix_ancillary.Base.{
  ℕ, zero, suc, ◌+◌, List, [], ◌∷◌, length, drop, replicate, ltb, ◌==◌, if◌then◌else◌,
}
use unix_ancillary.Bytes.{Bytes}
use unix_ancillary.System.{Host, out_of_fuel, ok}
use unix_ancillary.Cmsg.{send_bytes}
use unix_ancillary.Ext.{
  SocketKind, CountMode, ReceivedFds, default_stream_buf, invalid_input, iov_len,
  validate_stream_send, send_fds_impl, send_fds_vectored_impl, recv_fds_into_vectored_impl,
  recv_fds_into_impl, recv_owned_impl,
}
use unix_ancillary.Ext.Stream.{write_zero}
use unix_ancillary.Tokio.{Interest, ready, Async, Runtime, await_then, ◌>>=◌, ◌>>◌, run}

module _ (h : Host) (rt : Runtime h) where
  unfoldable pub send_fds_vectored : ℕ → List Bytes → List ℕ → Async h ℕ
  unfolding send_fds_vectored_impl
  send_fds_vectored fd iov [] =
      rt.async_io fd Interest.writable (send_fds_vectored_impl h fd iov [])
  send_fds_vectored fd iov (first ∷ rest) =
      if iov_len iov == 0
      then run invalid_input
      else rt.async_io fd Interest.writable (send_fds_vectored_impl h fd iov (first ∷ rest))

  unfoldable pub recv_fds_vectored : ℕ → ℕ → List Bytes → Async h (ℕ × List ℕ × List Bytes)
  unfolding recv_fds_into_vectored_impl
  recv_fds_vectored n fd iov =
      rt.async_io fd Interest.readable
        (recv_fds_into_vectored_impl h fd iov SocketKind.stream (CountMode.up_to n))

  unfoldable pub send_fds : ℕ → Bytes → List ℕ → Async h ℕ
  unfolding validate_stream_send send_fds_impl
  send_fds fd payload fds =
      run (validate_stream_send h payload (length fds))
      >> rt.async_io fd Interest.writable (send_fds_impl h fd payload fds)

  -- After one more send of `n` bytes.
  abbrev pub after_async_send : (ℕ → Async h (Unit {0})) → ℕ → ℕ → Async h (Unit {0})
  after_async_send again sent n = if n == 0 then run (write_zero h) else again (sent + n)

  -- `while sent < data.len()`
  unfoldable pub async_send_rest : ℕ → ℕ → Bytes → ℕ → Async h (Unit {0})
  unfolding send_bytes
  async_send_rest zero fd payload sent w = ready out_of_fuel
  async_send_rest (suc fuel) fd payload sent w =
      if ltb sent (length payload)
      then await_then (rt.async_io fd Interest.writable (send_bytes h fd (drop sent payload)) w)
          (after_async_send (async_send_rest fuel fd payload) sent)
      else ready (ok tt w)

  -- The initial `sent`.
  unfoldable pub async_send_first : ℕ → Bytes → List ℕ → Async h ℕ
  unfolding send_fds_impl
  async_send_first fd payload [] = run (ok 0)
  async_send_first fd payload (first ∷ rest) = do
    n ← rt.async_io fd Interest.writable (send_fds_impl h fd payload (first ∷ rest))
    run (if n == 0 then write_zero h else ok n)

  unfoldable pub send_fds_all : ℕ → Bytes → List ℕ → Async h (Unit {0})
  unfolding validate_stream_send async_send_first async_send_rest
  send_fds_all fd payload fds = do
    run (validate_stream_send h payload (length fds))
    sent ← async_send_first fd payload fds
    async_send_rest (suc (length payload)) fd payload sent

  unfoldable pub recv_fds : ℕ → ℕ → Async h ReceivedFds
  unfolding recv_owned_impl
  recv_fds n fd =
      rt.async_io fd Interest.readable (
        recv_owned_impl h fd (replicate default_stream_buf 0) SocketKind.stream (CountMode.up_to n))

  unfoldable pub recv_fds_into : ℕ → ℕ → Bytes → Async h (ℕ × List ℕ × List Bytes)
  unfolding recv_fds_into_impl
  recv_fds_into n fd data_buf =
      rt.async_io fd Interest.readable
        (recv_fds_into_impl h fd data_buf SocketKind.stream (CountMode.up_to n))

  unfoldable pub recv_fds_exact : ℕ → ℕ → Async h ReceivedFds
  unfolding recv_owned_impl
  recv_fds_exact n fd =
      rt.async_io fd Interest.readable (
        recv_owned_impl h fd (replicate default_stream_buf 0) SocketKind.stream (CountMode.exact n))

  unfoldable pub recv_fds_exact_into : ℕ → ℕ → Bytes → Async h (ℕ × List ℕ × List Bytes)
  unfolding recv_fds_into_impl
  recv_fds_exact_into n fd data_buf =
      rt.async_io fd Interest.readable
        (recv_fds_into_impl h fd data_buf SocketKind.stream (CountMode.exact n))
