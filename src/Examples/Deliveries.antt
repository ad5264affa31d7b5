-- ===== src/Examples/Deliveries.antt =====
-- Witnesses about sends that succeed and about a message that arrives whole.
use unix_ancillary.Base.{some, ℕ, zero, suc, ◌<◌, refl, List, [], ◌∷◌, arith, inr}
use unix_ancillary.Bytes.{Bytes}
use unix_ancillary.Target.Linux.{x86_64_linux, x86_64_linux-IsTarget}
use unix_ancillary.System.{ret}
use unix_ancillary.Platform.{send_flags}
use unix_ancillary.Platform.Obliging.{Obliging}
use unix_ancillary.Cmsg.Retry.{Answers, again, now, send_interrupted}
use unix_ancillary.Bytes.{to_ne_bytes, le_bytes, overlay, write_at}
use unix_ancillary.Ancillary.Layout.{header_len}
use unix_ancillary.Ancillary.Buffer.{header_bytes}
use unix_ancillary.Ancillary.Buffer.Encode.{encode_cmsg}
use unix_ancillary.Ext.Stream.{send_fds_all}
use unix_ancillary.Ext.Stream.Delivers.{Willing, Delivers, send_fds_all-Delivers}
use unix_ancillary.Ext.Arrival.{Arrival, message}
use unix_ancillary.Examples.Machine.{host, start, delivery}

host-Willing : Willing host
host-Willing = record { accepts = accepts; options = λ fd level option value k. (0, k, refl) }
  where
    accepts :
        (fd : ℕ) (iov : List Bytes) (control : Bytes) (k : ℕ)
        → (n : ℕ) × (m : ℕ) × (k' : ℕ) × (n < 2)
          × Answers host
              (host.sendmsg fd iov control (send_flags host.target))
              (send_interrupted host)
              n
              k
              (ret (suc m))
              k'
    accepts fd iov control zero = (1, 0, 1, omega arith, again refl refl (now refl refl))
    accepts fd iov control (suc k) = (0, 0, suc k, omega arith, now refl refl)

send_fds_all-Delivers_example :
    Delivers host 3
      (104 ∷ 105 ∷ [])
      (5 ∷ 6 ∷ [])
      []
      []
      (send_fds_all host 3 (104 ∷ 105 ∷ []) (5 ∷ 6 ∷ []) start)
send_fds_all-Delivers_example =
    send_fds_all-Delivers host 3 (104 ∷ 105 ∷ []) (5 ∷ 6 ∷ []) start x86_64_linux-IsTarget
      host-Willing (omega arith, (omega arith, tt)) (omega arith) (inr (omega arith))

-- The machine's second answer to `recvmsg`, whatever the buffer.
delivered_whole :
    (buf : Bytes)
    → Arrival host 3
        ((0 ∷ 0 ∷ []) ∷ [])
        buf
        0
        (message x86_64_linux (5 ∷ 6 ∷ 7 ∷ []) [])
        2
        ((104 ∷ 105 ∷ []) ∷ [])
unfolding encode_cmsg header_bytes header_len to_ne_bytes le_bytes overlay write_at
delivered_whole buf = record {
  interruptions = 1;
  hdr = delivery;
  after = 1;
  few = omega arith;
  answers = again refl refl (now refl refl);
  inside = omega arith;
  encoded = refl;
  whole_control = refl;
  whole_data = refl;
  payload = refl;
}

host-Obliging : Obliging host
host-Obliging = record {
  getfd = λ fd k. (0, k, refl);
  setfd = λ fd flags k. (0, k, refl);
  limit = λ k. (some 1024, refl);
}
