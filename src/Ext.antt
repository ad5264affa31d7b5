-- ===== src/Ext.antt =====
-- src/ext.rs: the policies of the convenience methods, shared by every kind of socket.
pub mod Ledger
pub mod Attempt
pub mod Receive
pub mod Send
pub mod Stream
pub mod Datagram
pub mod Returns
pub mod Control
pub mod Owned
pub mod Into
pub mod Arrival
pub mod Exchange
pub mod Handover
use unix_ancillary.Base.{
  ℕ, zero, suc, ◌+◌, ◌-◌, Bool, true, false, not, ◌&&◌, List, [], ◌∷◌, ◌++◌, length, take, drop,
  replicate, flatten, map, max, ltb, ◌==◌, if◌then◌else◌, Option, none, some,
}
use unix_ancillary.Base.Results.{Result}
use unix_ancillary.Bytes.{Bytes, write_at}
use unix_ancillary.Target.{ErrorKind}
use unix_ancillary.System.{
  Host, World, Run, Exit, ok, err, custom, ◌>>=◌, ◌>>◌, fail, or_panic, drop_fds,
}
use unix_ancillary.Platform.{max_recv_fds}
use unix_ancillary.Ancillary.Layout.{
  buffer_size_for_rights, buffer_size_for_credentials, checked_add,
}
use unix_ancillary.Ancillary.Take.{is_linux}
use unix_ancillary.Ancillary.Buffer.{SocketAncillary, AncillaryError, new, add_rights}
use unix_ancillary.Cmsg.{RecvMsgResult, sendmsg_vectored, recv_fds}

abbrev pub default_stream_buf : ℕ
default_stream_buf = 4096

abbrev pub default_datagram_buf : ℕ
default_datagram_buf = 65536

pub data SocketKind : Type 0 where
  stream datagram : SocketKind

pub data CountMode : Type 0 where
  up_to exact : ℕ → CountMode

-- `CountMode::count`
abbrev pub count : CountMode → ℕ
count (up_to n) = n
count (exact n) = n

-- The source's field `data` is `payload`.
pub record ReceivedFds : Type 0 where
  pub payload : Bytes
  pub owned : List ℕ
  pub surplus_closed : ℕ

-- `STACK_CONTROL` of src/ancillary.rs.
abbrev pub stack_control : ℕ
stack_control = 4096

-- The array on the stack: exactly `STACK_CONTROL` bytes, whatever the memory held.
abbrev pub stack_array : Bytes → Bytes
stack_array uninit = take stack_control (uninit ++ replicate stack_control 0)

-- The buffer of `with_control`: fresh from the heap, or the first bytes of the array on the stack
-- after `write_bytes(0, size)`, which can write no further than the array goes.
unfoldable pub control_storage : Bytes → ℕ → Bytes
control_storage uninit size =
    if ltb stack_control size
    then replicate size 0
    else take size (write_at 0 (replicate size 0) (stack_array uninit))

abbrev pub invalid_input : {h : Host} {A : Type 0} → Run h A
invalid_input = fail (custom ErrorKind.invalid_input)

abbrev pub iov_len : List Bytes → ℕ
iov_len [] = 0
iov_len (s ∷ rest) = length s + iov_len rest

abbrev pub is_datagram : SocketKind → Bool
is_datagram stream = false
is_datagram datagram = true

module _ (h : Host) where
  abbrev pub with_control : {A : Type 0} → ℕ → (Bytes → Run h A) → Run h A
  with_control size f = f (control_storage h.uninit size)

  unfoldable pub validate_stream_send : Bytes → ℕ → Run h (Unit {0})
  validate_stream_send payload fd_count =
      if (length payload == 0) && not (fd_count == 0) then invalid_input else ok tt

  -- `map_err(|e| io::Error::new(InvalidInput, e))?`
  abbrev pub or_invalid_input : {A : Type 0} → Result A AncillaryError → Run h A
  or_invalid_input (Result.ok a) = ok a
  or_invalid_input (Result.err e) = invalid_input

  unfoldable pub send_fds_vectored_impl : ℕ → List Bytes → List ℕ → Run h ℕ
  send_fds_vectored_impl fd iov [] = sendmsg_vectored h fd iov [] 0
  send_fds_vectored_impl fd iov (first ∷ rest) = do
    size ← or_panic (buffer_size_for_rights h.target (length (first ∷ rest)))
    with_control size λ buf. do
      ancillary ← or_invalid_input (add_rights h.target (new buf) (first ∷ rest))
      sendmsg_vectored h fd iov ancillary.buffer ancillary.filled

  unfoldable pub send_fds_impl : ℕ → Bytes → List ℕ → Run h ℕ
  unfolding send_fds_vectored_impl
  send_fds_impl fd payload fds = send_fds_vectored_impl fd (payload ∷ []) fds

  abbrev pub or_overflow : Option ℕ → Run h ℕ
  or_overflow none = invalid_input
  or_overflow (some total) = ok total

  -- The control size of `recv_core`: room for the descriptors and, on Linux, for credentials.
  unfoldable pub add_credentials_size : ℕ → Run h ℕ
  add_credentials_size size =
      if is_linux h.target.target_os
      then (or_panic (buffer_size_for_credentials h.target) >>= λ creds.
          or_overflow (checked_add h.target size creds))
      else ok size

  abbrev pub invalid_data : {A : Type 0} → List ℕ → Run h A
  invalid_data fds w = err (custom ErrorKind.invalid_data) (drop_fds h fds w)

  -- The `match mode` of `recv_core`: a descriptor that is not returned is dropped.
  unfoldable pub apply_mode :
      CountMode → ℕ → List ℕ → List Bytes → Run h (ℕ × List ℕ × ℕ × List Bytes)
  apply_mode (up_to n) bytes_read fds iov w =
      ok (bytes_read, take n fds, length fds - n, iov) (drop_fds h (drop n fds) w)
  apply_mode (exact n) bytes_read fds iov w =
      if length fds == n then ok (bytes_read, fds, 0, iov) w else invalid_data fds w

  -- What `recv_core` makes of a receive.
  unfoldable pub apply_policy :
      SocketKind
      → CountMode
      → RecvMsgResult
      → List ℕ
      → List Bytes
      → Run h (ℕ × List ℕ × ℕ × List Bytes)
  apply_policy kind mode result fds iov =
      if result.ancillary_truncated
      then invalid_data fds
      else if is_datagram kind && result.data_truncated
      then invalid_data fds
      else apply_mode mode result.bytes_read fds iov

  -- Bytes read, descriptors, surplus closed, and the filled iovecs.
  unfoldable pub recv_core :
      ℕ → List Bytes → SocketKind → CountMode → Run h (ℕ × List ℕ × ℕ × List Bytes)
  recv_core fd iov kind mode = do
    budget ← max_recv_fds h
    size ← or_panic (buffer_size_for_rights h.target (max (count mode) budget))
    control_size ← add_credentials_size size
    (result, fds, filled) ← with_control control_size (recv_fds h fd iov)
    apply_policy kind mode result fds filled

  unfoldable pub recv_fds_into_vectored_impl :
      ℕ → List Bytes → SocketKind → CountMode → Run h (ℕ × List ℕ × List Bytes)
  unfolding recv_core
  recv_fds_into_vectored_impl fd iov kind mode = do
    (bytes_read, fds, surplus, filled) ← recv_core fd iov kind mode
    ok (bytes_read, fds, filled)

  unfoldable pub recv_fds_into_impl :
      ℕ → Bytes → SocketKind → CountMode → Run h (ℕ × List ℕ × List Bytes)
  unfolding recv_fds_into_vectored_impl
  recv_fds_into_impl fd data_buf kind mode =
      recv_fds_into_vectored_impl fd (data_buf ∷ []) kind mode

  unfoldable pub recv_owned_impl : ℕ → Bytes → SocketKind → CountMode → Run h ReceivedFds
  unfolding recv_core
  recv_owned_impl fd data_buf kind mode = do
    (bytes_read, fds, surplus, filled) ← recv_core fd (data_buf ∷ []) kind mode
    ok (record {
      payload = take bytes_read (flatten filled);
      owned = fds;
      surplus_closed = surplus;
    })
