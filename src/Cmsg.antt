-- ===== src/Cmsg.antt =====
-- src/cmsg.rs: `sendmsg` and `recvmsg` with their retry of interrupted calls, and the receive that
-- owns what was delivered.
pub mod Retry
pub mod Recv
pub mod Fits
pub mod Calm
pub mod Returns
use unix_ancillary.Base.{
  ℕ, zero, suc, ◌%◌, ◌^◌, Bool, true, false, not, List, [], ◌∷◌, ◌++◌, length, take, ltb, leb, ◌==◌,
  if◌then◌else◌, bit_and, bit_or,
}
use unix_ancillary.Base.Options.{when}
use unix_ancillary.Bytes.{Bytes}
use unix_ancillary.Target.{Target}
use unix_ancillary.System.{
  Host, World, Run, Exit, ok, err, panic, out_of_fuel, SysRet, ret, errno, RecvRet, received,
  failed, MsgHdr, Sent, os_error, is_interrupted, ◌>>=◌, ◌>>◌, or_panic, dropping,
}
use unix_ancillary.Platform.{recv_flags, send_flags, prepare_send, cloexec_fds}
use unix_ancillary.Ancillary.Take.{take_fds}

pub record RecvMsgResult : Type 0 where
  pub bytes_read : ℕ
  pub ancillary_len : ℕ
  pub ancillary_truncated : Bool
  pub data_truncated : Bool

-- `flags & bit != 0`
abbrev pub has_flag : ℕ → ℕ → Bool
has_flag flags bit = not (bit_and flags bit == 0)

-- `&bytes[..n]`
abbrev pub slice_to : {h : Host} → ℕ → Bytes → Run h Bytes
slice_to n bytes = or_panic (when (leb n (length bytes)) (take n bytes))

-- The control bytes that the kernel finds under `msg_control`, which is set only if there are any:
-- `msg_controllen = ancillary_len as _` keeps the low bits of the length.
abbrev pub passed_control : Target → Bytes → ℕ → Bytes
passed_control t ancillary_buf ancillary_len =
    if ltb 0 ancillary_len then take (ancillary_len % 2 ^ t.controllen_bits) ancillary_buf else []

module _ (h : Host) where
  -- One answer of `sendmsg`: a value from 0 on ends the loop, `EINTR` starts it again.
  abbrev pub send_step :
      (World h → Exit h ℕ) → ℕ → List Bytes → Bytes → SysRet × h.Kernel → World h → Exit h ℕ
  send_step again fd iov control (ret n, k) w = ok n (record w {
    kernel = k;
    sent = w.sent ++ (record { socket = fd; payload = iov; control = control; accepted = n } ∷ []);
  })
  send_step again fd iov control (errno e, k) w =
      if is_interrupted (h.target.errno_kind e)
      then again (record w { kernel = k })
      else err (os_error e) (record w { kernel = k })

  unfoldable pub send_loop : ℕ → ℕ → List Bytes → Bytes → Run h ℕ
  send_loop zero fd iov control w = out_of_fuel
  send_loop (suc fuel) fd iov control w =
      send_step (send_loop fuel fd iov control) fd iov control
        (h.sendmsg fd iov control (send_flags h.target) w.kernel) w

  -- Lists of buffers that `msg_iovlen` cannot count are left aside.
  unfoldable pub sendmsg_vectored : ℕ → List Bytes → Bytes → ℕ → Run h ℕ
  sendmsg_vectored fd iov ancillary_buf ancillary_len =
      prepare_send h fd
      >> send_loop h.retries fd iov (passed_control h.target ancillary_buf ancillary_len)

  unfoldable pub send_bytes : ℕ → Bytes → Run h ℕ
  unfolding sendmsg_vectored
  send_bytes fd payload = sendmsg_vectored fd (payload ∷ []) [] 0

  abbrev pub recv_result : ℕ → MsgHdr → RecvMsgResult × MsgHdr
  recv_result n hdr = (
    record {
      bytes_read = n;
      ancillary_len = hdr.controllen;
      ancillary_truncated = has_flag hdr.flags h.target.msg_ctrunc;
      data_truncated = has_flag hdr.flags h.target.msg_trunc;
    },
    hdr,
  )

  abbrev pub recv_step :
      (World h → Exit h (RecvMsgResult × MsgHdr))
      → RecvRet × h.Kernel
      → World h
      → Exit h (RecvMsgResult × MsgHdr)
  recv_step again (received n hdr, k) w = ok (recv_result n hdr) (record w { kernel = k })
  recv_step again (failed e, k) w =
      if is_interrupted (h.target.errno_kind e)
      then again (record w { kernel = k })
      else err (os_error e) (record w { kernel = k })

  unfoldable pub recv_loop : ℕ → ℕ → List Bytes → Bytes → ℕ → Run h (RecvMsgResult × MsgHdr)
  recv_loop zero fd iov buf flags w = out_of_fuel
  recv_loop (suc fuel) fd iov buf flags w =
      recv_step (recv_loop fuel fd iov buf flags) (h.recvmsg fd iov buf flags w.kernel) w

  -- With the result the `msghdr`, whose iovecs and control buffer are the caller's own.
  unfoldable pub recvmsg_raw : ℕ → List Bytes → Bytes → ℕ → Run h (RecvMsgResult × MsgHdr)
  unfolding recv_loop
  recvmsg_raw fd iov ancillary_buf extra_flags =
      recv_loop h.retries fd iov ancillary_buf (bit_or (recv_flags h.target) extra_flags)

  -- `recv_fds` after the call: own the descriptors, then set close-on-exec; a failure drops them.
  unfoldable pub own_fds : RecvMsgResult → MsgHdr → Run h (RecvMsgResult × List ℕ × List Bytes)
  own_fds result hdr = do
    control ← slice_to result.ancillary_len hdr.control
    (owned, capacity) ← take_fds h control
    (λ w. dropping h owned (cloexec_fds h owned w)) >> ok (result, owned, hdr.iov)

  unfoldable pub recv_fds : ℕ → List Bytes → Bytes → Run h (RecvMsgResult × List ℕ × List Bytes)
  recv_fds fd iov ancillary_buf = do
    (result, hdr) ← recvmsg_raw fd iov ancillary_buf 0
    own_fds result hdr
