-- ===== src/Ext/Stream.antt =====
-- `UnixStreamExt` of src/ext.rs: the methods of a stream socket, and the loop that completes a send.
pub mod Complete
pub mod Delivers
use unix_ancillary.Base.{
  ℕ, zero, suc, ◌+◌, List, [], ◌∷◌, length, drop, replicate, ltb, ◌==◌, if◌then◌else◌,
}
use unix_ancillary.Bytes.{Bytes}
use unix_ancillary.Target.{ErrorKind}
use unix_ancillary.System.{
  Host, World, Run, Exit, ok, err, custom, out_of_fuel, and_then, ◌>>=◌, ◌>>◌, fail,
}
use unix_ancillary.Cmsg.{send_bytes}
use unix_ancillary.Ext.{
  SocketKind, CountMode, ReceivedFds, default_stream_buf, invalid_input, iov_len,
  validate_stream_send, send_fds_impl, send_fds_vectored_impl, recv_fds_into_vectored_impl,
  recv_fds_into_impl, recv_owned_impl,
}

module _ (h : Host) where
  unfoldable pub send_fds : ℕ → Bytes → List ℕ → Run h ℕ
  unfolding validate_stream_send send_fds_impl
  send_fds fd payload fds =
      validate_stream_send h payload (length fds) >> send_fds_impl h fd payload fds

  unfoldable pub send_fds_vectored : ℕ → List Bytes → List ℕ → Run h ℕ
  unfolding send_fds_vectored_impl
  send_fds_vectored fd iov [] = send_fds_vectored_impl h fd iov []
  send_fds_vectored fd iov (first ∷ rest) =
      if iov_len iov == 0 then invalid_input else send_fds_vectored_impl h fd iov (first ∷ rest)

  unfoldable pub recv_fds_vectored : ℕ → ℕ → List Bytes → Run h (ℕ × List ℕ × List Bytes)
  unfolding recv_fds_into_vectored_impl
  recv_fds_vectored n fd iov =
      recv_fds_into_vectored_impl h fd iov SocketKind.stream (CountMode.up_to n)

  abbrev pub write_zero : {A : Type 0} → Run h A
  write_zero = fail (custom ErrorKind.write_zero)

  -- After one more send of `n` bytes: `n == 0` is an error, and `sent += n` goes round again.
  abbrev pub after_send : (ℕ → Run h (Unit {0})) → ℕ → ℕ → Run h (Unit {0})
  after_send again sent n = if n == 0 then write_zero else again (sent + n)

  -- `while sent < data.len()`
  unfoldable pub send_rest : ℕ → ℕ → Bytes → ℕ → Run h (Unit {0})
  unfolding send_bytes
  send_rest zero fd payload sent w = out_of_fuel
  send_rest (suc fuel) fd payload sent w =
      if ltb sent (length payload)
      then and_then (send_bytes h fd (drop sent payload) w)
          (after_send (send_rest fuel fd payload) sent)
      else ok tt w

  -- The initial `sent`: the descriptors ride the first send only.
  unfoldable pub send_first : ℕ → Bytes → List ℕ → Run h ℕ
  unfolding send_fds_impl
  send_first fd payload [] = ok 0
  send_first fd payload (first ∷ rest) = do
    n ← send_fds_impl h fd payload (first ∷ rest)
    if n == 0 then write_zero else ok n

  unfoldable pub send_fds_all : ℕ → Bytes → List ℕ → Run h (Unit {0})
  unfolding validate_stream_send send_first send_rest
  send_fds_all fd payload fds = do
    validate_stream_send h payload (length fds)
    sent ← send_first fd payload fds
    send_rest (suc (length payload)) fd payload sent

  unfoldable pub recv_fds : ℕ → ℕ → Run h ReceivedFds
  unfolding recv_owned_impl
  recv_fds n fd =
      recv_owned_impl h fd (replicate default_stream_buf 0) SocketKind.stream (CountMode.up_to n)

  unfoldable pub recv_fds_into : ℕ → ℕ → Bytes → Run h (ℕ × List ℕ × List Bytes)
  unfolding recv_fds_into_impl
  recv_fds_into n fd data_buf =
      recv_fds_into_impl h fd data_buf SocketKind.stream (CountMode.up_to n)

  unfoldable pub recv_fds_exact : ℕ → ℕ → Run h ReceivedFds
  unfolding recv_owned_impl
  recv_fds_exact n fd =
      recv_owned_impl h fd (replicate default_stream_buf 0) SocketKind.stream (CountMode.exact n)

  unfoldable pub recv_fds_exact_into : ℕ → ℕ → Bytes → Run h (ℕ × List ℕ × List Bytes)
  unfolding recv_fds_into_impl
  recv_fds_exact_into n fd data_buf =
      recv_fds_into_impl h fd data_buf SocketKind.stream (CountMode.exact n)
