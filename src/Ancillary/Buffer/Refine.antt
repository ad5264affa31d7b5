-- ===== src/Ancillary/Buffer/Refine.antt =====
-- A send buffer of src/ancillary.rs as a list of control messages.
use unix_ancillary.Base.{
  ℕ, ◌+◌, ◌*◌, ◌^◌, ◌≤◌, ◌<◌, ◌≡◌, refl, ap, sym, ◌∙◌, List, [], ◌∷◌, ◌++◌, take, length, arith,
  length-append, append-nil, append_assoc, All, All-append, false,
}
use unix_ancillary.Base.Results.{ok}
use unix_ancillary.Bytes.{Bytes, to_ne_bytes, write_at}
use unix_ancillary.Bytes.Laws.{length-write_at, length-to_ne_bytes}
use unix_ancillary.Bytes.Nested.{take-write_at_end, write_at-inside, write_at-append, write_at-nil}
use unix_ancillary.Target.{Target, IsTarget, i32_max}
use unix_ancillary.Ancillary.Layout.{header_len, cmsg_space, checked_add}
use unix_ancillary.Ancillary.Raw.{RawMessage}
use unix_ancillary.Ancillary.Buffer.{SocketAncillary, reserve_cmsg, header_bytes, write_fds}
use unix_ancillary.Ancillary.Buffer.Encode.{
  IsEncodable, encode_cmsg, encode_all, length-encode_cmsg,
}
use unix_ancillary.Ancillary.Buffer.Header.{length-header_bytes}

-- The buffer is in send mode and its first `filled` bytes are the encoding of `ms`.
pub record Holds (t : Target) (a : SocketAncillary) (ms : List RawMessage) : Type 0 where
  pub sending : a.receive_mode ≡ false
  pub nothing_received : a.received ≡ []
  pub inside : a.filled ≤ length a.buffer
  pub encoded : take a.filled a.buffer ≡ encode_all t ms
  pub encodable : All (IsEncodable t) ms

encode_all-append :
    (t : Target) (ms : List RawMessage) (m : RawMessage)
    → encode_all t (ms ++ (m ∷ [])) ≡ encode_all t ms ++ encode_cmsg t m
encode_all-append t [] m = append-nil (encode_cmsg t m)
encode_all-append t (n ∷ ms) m =
    ap (λ bs. encode_cmsg t n ++ bs) (encode_all-append t ms m)
    ∙ sym (append_assoc (encode_cmsg t n) (encode_all t ms) (encode_cmsg t m))

-- What a successful `reserve_cmsg` has checked and done.
pub record Reserved (t : Target) (a : SocketAncillary) (level kind n : ℕ) (b : SocketAncillary)
    (at : ℕ) : Type 0 where
  pub was_sending : a.receive_mode ≡ false
  pub short : n ≤ i32_max
  pub fits : a.filled + t.libc_cmsg_space n ≤ length a.buffer
  pub len_fits : header_len t + n < 256 ^ t.len_width
  pub result : b ≡ record a {
    filled = a.filled + t.libc_cmsg_space n;
    buffer =
        write_at a.filled
          (header_bytes t (t.libc_cmsg_space n) level kind (header_len t + n))
          a.buffer;
  }
  pub payload_at : at ≡ a.filled + header_len t

pub reserve_cmsg-Reserved :
    (t : Target) (a : SocketAncillary) (level kind n : ℕ) (b : SocketAncillary) (at : ℕ)
    → reserve_cmsg t a level kind n ≡ ok (b, at)
    → Reserved t a level kind n b at
unfolding reserve_cmsg checked_add cmsg_space
reserve_cmsg-Reserved t a level kind n b at e = record {
  was_sending = ground arith;
  short = ground arith;
  fits = ground arith;
  len_fits = ground arith;
  result = ground arith;
  payload_at = ground arith;
}

-- The payload that `add_rights` writes.
abbrev pub fds_bytes : Target → List ℕ → Bytes
fds_bytes t [] = []
fds_bytes t (fd ∷ rest) = to_ne_bytes t.big_endian 4 fd ++ fds_bytes t rest

pub length-fds_bytes :
    (t : Target) (raw_fds : List ℕ) → length (fds_bytes t raw_fds) ≡ length raw_fds * 4
length-fds_bytes t [] = refl
length-fds_bytes t (fd ∷ rest) = omega (
  arith,
  length-append (to_ne_bytes t.big_endian 4 fd) (fds_bytes t rest),
  length-to_ne_bytes t.big_endian 4 fd,
  length-fds_bytes t rest,
)

-- The zipped loop writes the descriptors one behind the other.
pub write_fds-fds_bytes :
    (t : Target) (raw_fds : List ℕ) (at : ℕ) (buffer : Bytes)
    → write_fds t at raw_fds buffer ≡ write_at at (fds_bytes t raw_fds) buffer
unfolding write_fds
write_fds-fds_bytes t [] at buffer = sym (write_at-nil at buffer)
write_fds-fds_bytes t (fd ∷ rest) at buffer =
    write_fds-fds_bytes t rest (at + 4) (write_at at (to_ne_bytes t.big_endian 4 fd) buffer)
    ∙ write_at-append at (at + 4) (to_ne_bytes t.big_endian 4 fd) (fds_bytes t rest) buffer
        (omega (arith, length-to_ne_bytes t.big_endian 4 fd))

module _ (t : Target) (v : IsTarget t) (a : SocketAncillary) (ms : List RawMessage) (m : RawMessage)
    (g : Holds t a ms) (w : IsEncodable t m) where
  abbrev space : ℕ
  space = t.libc_cmsg_space (length m.payload)

  abbrev end : ℕ
  end = a.filled + space

  abbrev total : ℕ
  total = header_len t + length m.payload

  abbrev reserved_bytes : Bytes
  reserved_bytes = write_at a.filled (header_bytes t space m.level m.kind total) a.buffer

  -- The reserved message with its payload copied in is the encoding of the message.
  filled_in :
      end ≤ length a.buffer
      → write_at (a.filled + header_len t) m.payload reserved_bytes
        ≡ write_at a.filled (encode_cmsg t m) a.buffer
  unfolding encode_cmsg
  filled_in fits =
      write_at-inside a.filled (header_len t) (a.filled + header_len t)
        (header_bytes t space m.level m.kind total) m.payload a.buffer refl
        (unfold header_len in
          omega (
            arith,
            v.space_covers_len (length m.payload) w.short,
            length-header_bytes t space m.level m.kind total,
          ))
        (omega (arith, length-header_bytes t space m.level m.kind total))

  -- Reserving a message and copying its payload in appends it to the list.
  pub appended-Holds :
      end ≤ length a.buffer
      → Holds t
          (record a {
            filled = end;
            buffer = write_at (a.filled + header_len t) m.payload reserved_bytes;
          })
          (ms ++ (m ∷ []))
  appended-Holds fits = record {
    sending = g.sending;
    nothing_received = g.nothing_received;
    inside = omega (
      arith,
      length-write_at (a.filled + header_len t) m.payload reserved_bytes,
      length-write_at a.filled (header_bytes t space m.level m.kind total) a.buffer,
    );
    encoded =
        ap (take end) (filled_in fits)
        ∙ take-write_at_end a.filled end (encode_cmsg t m) a.buffer
            (omega (arith, length-encode_cmsg t m)) fits
        ∙ ap (λ bs. bs ++ encode_cmsg t m) g.encoded
        ∙ sym (encode_all-append t ms m);
    encodable = All-append _ ms (m ∷ []) g.encodable (w, tt);
  }
