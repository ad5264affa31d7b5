-- ===== src/Examples/Messages.antt =====
-- Witnesses about the bytes of control messages.
use unix_ancillary.Base.{
  ℕ, ◌+◌, ◌≤◌, ◌≡◌, ◌↔◌, refl, false, [], ◌∷◌, ◌++◌, take, length, replicate, some, arith,
}
use unix_ancillary.Base.Results.{ok}
use unix_ancillary.Bytes.{le_bytes, to_ne_bytes, from_ne_bytes, write_at, overlay}
use unix_ancillary.Target.Linux.{x86_64_linux, x86_64_linux-IsTarget}
use unix_ancillary.System.{Exit, drop_fds}
use unix_ancillary.Ancillary.Layout.{
  header_len, cmsg_space, checked_add, checked_mul, buffer_size_for_rights,
}
use unix_ancillary.Ancillary.Raw.{RawMessage, ScmCredentials, raw_next, remaining_after}
use unix_ancillary.Ancillary.Raw.Parse.{Parses, raw_messages, raw_messages-Parses, raw_next-fits}
use unix_ancillary.Ancillary.Buffer.{
  SocketAncillary, new, reserve_cmsg, header_bytes, write_fds, encode_rights, add_rights, to_ucred,
  add_credentials,
}
use unix_ancillary.Ancillary.Buffer.Refine.{Holds}
use unix_ancillary.Ancillary.Buffer.Append.{
  rights_message, credentials_message, add_rights-Holds, add_credentials-Holds,
}
use unix_ancillary.Ancillary.Buffer.Fits.{Fits, add_rights_iff, buffer_size_for_rights_enough}
use unix_ancillary.Ancillary.Buffer.RoundTrip.{raw_messages-Holds}
use unix_ancillary.Ancillary.Take.{take_fds, take_received_into, fuzz_parse}
use unix_ancillary.Ancillary.Take.Owned.{
  delivered, pidfds, kept, take_fds-delivered, take_received_into-kept, fuzz_parse-length,
}
use unix_ancillary.Ext.Send.{Sends}
use unix_ancillary.Api.{cmsg_sendmsg}
use unix_ancillary.Api.Modes.{cmsg_sendmsg-Sends}
use unix_ancillary.Ancillary.Buffer.{ReceivedMessage}
use unix_ancillary.Ancillary.Drain.{messages_next, rights_next}
use unix_ancillary.Ancillary.Drain.Ledger.{
  Draining, Steps, step, done, next_rights, next_fd, drop_rights, held, Steps-held,
}
use unix_ancillary.Examples.Machine.{three_rights, host, start}

abbrev storage : ℕ → SocketAncillary
storage size = record {
  buffer = replicate size 0;
  filled = 0;
  truncated = false;
  received = [];
  receive_mode = false;
}

storage-Holds : (size : ℕ) → Holds x86_64_linux (storage size) []
storage-Holds size = record {
  sending = refl;
  nothing_received = refl;
  inside = omega arith;
  encoded = refl;
  encodable = tt;
}

-- One message with the descriptors 5 and 6.
abbrev two_rights : SocketAncillary
two_rights = record (storage 24) {
  buffer =
      24 ∷ 0 ∷ 0 ∷ 0 ∷ 0 ∷ 0 ∷ 0 ∷ 0 ∷ 1 ∷ 0 ∷ 0 ∷ 0 ∷ 1 ∷ 0 ∷ 0 ∷ 0 ∷ 5 ∷ 0 ∷ 0 ∷ 0 ∷ 6 ∷ 0 ∷ 0 ∷ 0
      ∷ [];
  filled = 24;
}

two_rights-added : add_rights x86_64_linux (storage 24) (5 ∷ 6 ∷ []) ≡ ok two_rights
unfolding add_rights encode_rights reserve_cmsg header_bytes write_fds cmsg_space checked_add
    checked_mul header_len to_ne_bytes le_bytes write_at overlay
two_rights-added = refl

abbrev sender : ScmCredentials
sender = record { pid = 300; uid = 2; gid = 3 }

abbrev one_sender : SocketAncillary
one_sender = record (storage 32) {
  buffer =
      28 ∷ 0 ∷ 0 ∷ 0 ∷ 0 ∷ 0 ∷ 0 ∷ 0 ∷ 1 ∷ 0 ∷ 0 ∷ 0 ∷ 2 ∷ 0 ∷ 0 ∷ 0 ∷ 44 ∷ 1 ∷ 0 ∷ 0 ∷ 2 ∷ 0 ∷ 0
      ∷ 0 ∷ 3 ∷ 0 ∷ 0 ∷ 0 ∷ 0 ∷ 0 ∷ 0 ∷ 0 ∷ [];
  filled = 32;
}

one_sender-added : add_credentials x86_64_linux (storage 32) sender ≡ ok one_sender
unfolding add_credentials reserve_cmsg header_bytes to_ucred cmsg_space checked_add header_len
    to_ne_bytes le_bytes write_at overlay
one_sender-added = refl

add_rights-Holds_example :
    Holds x86_64_linux two_rights (rights_message x86_64_linux (5 ∷ 6 ∷ []) ∷ [])
add_rights-Holds_example =
    add_rights-Holds x86_64_linux x86_64_linux-IsTarget (storage 24) [] (storage-Holds 24)
      (5 ∷ 6 ∷ []) two_rights two_rights-added

add_credentials-Holds_example :
    Holds x86_64_linux one_sender (credentials_message x86_64_linux sender ∷ [])
add_credentials-Holds_example =
    add_credentials-Holds x86_64_linux x86_64_linux-IsTarget (storage 32) [] (storage-Holds 32)
      sender one_sender one_sender-added

cmsg_sendmsg-Sends_example :
    Sends host 3
      ((104 ∷ []) ∷ [])
      (delivered x86_64_linux (rights_message x86_64_linux (5 ∷ 6 ∷ []) ∷ []))
      []
      []
      (cmsg_sendmsg host 3 ((104 ∷ []) ∷ []) two_rights start)
cmsg_sendmsg-Sends_example =
    cmsg_sendmsg-Sends host 3 ((104 ∷ []) ∷ []) two_rights
      (rights_message x86_64_linux (5 ∷ 6 ∷ []) ∷ []) start x86_64_linux-IsTarget
      (add_rights-Holds x86_64_linux x86_64_linux-IsTarget (storage 24) [] (storage-Holds 24)
        (5 ∷ 6 ∷ []) two_rights two_rights-added)
      (omega arith)

raw_messages-Holds_example :
    raw_messages x86_64_linux (take two_rights.filled two_rights.buffer)
    ≡ rights_message x86_64_linux (5 ∷ 6 ∷ []) ∷ []
raw_messages-Holds_example =
    raw_messages-Holds x86_64_linux two_rights (rights_message x86_64_linux (5 ∷ 6 ∷ []) ∷ [])
      x86_64_linux-IsTarget
      (add_rights-Holds x86_64_linux x86_64_linux-IsTarget (storage 24) [] (storage-Holds 24)
        (5 ∷ 6 ∷ []) two_rights two_rights-added)

add_rights_iff_example :
    ((b : SocketAncillary) × (add_rights x86_64_linux (storage 24) (5 ∷ 6 ∷ []) ≡ ok b))
    ↔ Fits x86_64_linux (storage 24) 8
add_rights_iff_example =
    add_rights_iff x86_64_linux x86_64_linux-IsTarget (storage 24) refl (omega arith) 5 (6 ∷ [])

size_of_two : buffer_size_for_rights x86_64_linux 2 ≡ some 24
unfolding buffer_size_for_rights checked_mul cmsg_space
size_of_two = refl

buffer_size_for_rights_enough_example :
    (b : SocketAncillary) × (add_rights x86_64_linux (new (replicate 24 0)) (5 ∷ 6 ∷ []) ≡ ok b)
buffer_size_for_rights_enough_example =
    buffer_size_for_rights_enough x86_64_linux 5 (6 ∷ []) 24 x86_64_linux-IsTarget size_of_two

raw_messages-Parses_example :
    Parses x86_64_linux three_rights (raw_messages x86_64_linux three_rights)
raw_messages-Parses_example = raw_messages-Parses x86_64_linux three_rights x86_64_linux-IsTarget

abbrev three_message : RawMessage
three_message = record {
  level = 1;
  kind = 1;
  payload = 5 ∷ 0 ∷ 0 ∷ 0 ∷ 6 ∷ 0 ∷ 0 ∷ 0 ∷ 7 ∷ 0 ∷ 0 ∷ 0 ∷ [];
}

three_rights-next : raw_next x86_64_linux three_rights ≡ (some three_message, [])
unfolding raw_next remaining_after cmsg_space header_len from_ne_bytes
three_rights-next = refl

raw_next-fits_example :
    header_len x86_64_linux + length three_message.payload + length {A = ℕ} [] ≤ length three_rights
raw_next-fits_example =
    raw_next-fits x86_64_linux three_rights [] three_message x86_64_linux-IsTarget three_rights-next

fuzz_parse-length_example :
    fuzz_parse x86_64_linux three_rights ≡ some (length (raw_messages x86_64_linux three_rights))
fuzz_parse-length_example = fuzz_parse-length x86_64_linux three_rights x86_64_linux-IsTarget

take_fds-delivered_example :
    take_fds host three_rights start
    ≡ Exit.ok
        (
          delivered x86_64_linux (raw_messages x86_64_linux three_rights),
          length (delivered x86_64_linux (raw_messages x86_64_linux three_rights)),
        )
        (drop_fds host (pidfds x86_64_linux (raw_messages x86_64_linux three_rights)) start)
take_fds-delivered_example = take_fds-delivered host three_rights start x86_64_linux-IsTarget

take_received_into-kept_example :
    take_received_into host three_rights [] start
    ≡ Exit.ok
        ([] ++ kept x86_64_linux (raw_messages x86_64_linux three_rights))
        (drop_fds host (pidfds x86_64_linux (raw_messages x86_64_linux three_rights)) start)
take_received_into-kept_example =
    take_received_into-kept host three_rights [] start x86_64_linux-IsTarget

-- Two descriptors arrived.
abbrev drain_start : Draining host
drain_start = record {
  pending = ReceivedMessage.rights (5 ∷ 6 ∷ []) ∷ [];
  opened = [];
  handed = [];
  world = start;
}

-- The caller has taken the first, and dropping the iterator closed the other.
abbrev drain_end : Draining host
drain_end = record {
  pending = [];
  opened = [];
  handed = 5 ∷ [];
  world = drop_fds host (6 ∷ []) start;
}

drained : Steps host drain_start drain_end
unfolding messages_next rights_next
drained =
    step (next_rights refl)
      (step (next_fd [] [] (5 ∷ 6 ∷ []) refl refl) (step (drop_rights [] [] (6 ∷ []) refl) done))

Steps-held_example : held 6 drain_start ≡ held 6 drain_end
Steps-held_example = Steps-held host 6 drain_start drain_end drained
