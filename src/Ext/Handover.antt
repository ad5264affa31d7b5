-- ===== src/Ext/Handover.antt =====
-- A send of one process and the receive of another, by `send_fds_vectored_impl` and
-- `recv_owned_impl` of src/ext.rs, across a kernel that installs the descriptors.
use unix_ancillary.Base.{
  ℕ, ◌*◌, ◌^◌, ◌≤◌, ◌<◌, ◌≡◌, sym, subst, ◌∙◌, List, [], ◌∷◌, ◌++◌, take, length, flatten, false,
  map, length-map, max, arith, All,
}
use unix_ancillary.Bytes.{Bytes}
use unix_ancillary.Target.{IsTarget, i32_max}
use unix_ancillary.System.{Host, World, ok, Sent}
use unix_ancillary.Platform.Fallback.{hard_ceiling}
use unix_ancillary.Platform.Obliging.{Obliging}
use unix_ancillary.Platform.{has_cmsg_cloexec}
use unix_ancillary.Ancillary.Raw.{ScmCredentials}
use unix_ancillary.Ancillary.Raw.Parse.{raw_messages}
use unix_ancillary.Ancillary.Buffer.RoundTrip.{IsFd}
use unix_ancillary.Ancillary.Take.Owned.{delivered}
use unix_ancillary.Ext.{SocketKind, exact, recv_owned_impl, send_fds_vectored_impl}
use unix_ancillary.Ext.Send.{Sends, send_fds_vectored_impl-Sends}
use unix_ancillary.Ext.Arrival.{Arrival, message, room}
use unix_ancillary.Ext.Exchange.{recv_owned_impl-exact}

-- The receiver's `recvmsg`, in kernel state `k`, delivers the accepted bytes of one send, the
-- descriptors that its control bytes carry, each under the number that `install` gives it, and the
-- credentials `creds`, whatever the control buffer that has room for them.
pub record Carried (s r : Host) (fd : ℕ) (data_buf : Bytes) (k : r.Kernel) (install : ℕ → ℕ)
    (creds : List ScmCredentials) (m : Sent) : Type 0 where
  pub filled : List Bytes
  pub same_bytes : take m.accepted (flatten filled) ≡ take m.accepted (flatten m.payload)
  pub arrives :
      let installed = map install (delivered s.target (raw_messages s.target m.control)) in
      (buf : Bytes)
      → room r.target (length installed) ≤ length buf
      → Arrival r fd (data_buf ∷ []) buf k (message r.target installed creds) m.accepted filled

last_same {ℓ} : {A : Type ℓ} (xs : List A) (a b : A) → xs ++ (a ∷ []) ≡ xs ++ (b ∷ []) → a ≡ b
last_same [] a b e = cc
last_same (x ∷ xs) a b e = last_same xs a b cc

module _ (s r : Host) (v : IsTarget s.target) (v' : IsTarget r.target)
    (oblige : has_cmsg_cloexec r.target.target_os ≡ false → Obliging r) where
  -- What one process sends another receives. Both targets obey IsTarget, and the receiver's has
  -- MSG_CMSG_CLOEXEC or a kernel whose fcntl succeeds and whose getrlimit changes nothing. Suppose
  -- send_fds_vectored_impl of descriptors that are non-negative i32 values succeeds with n bytes,
  -- and the receiver's recvmsg, given any control buffer with room and after fewer interruptions
  -- than its bound on retries, delivers that send untruncated: its accepted bytes, the descriptors
  -- that its control bytes carry, each installed under a number that is again a non-negative i32
  -- value, and any list of credentials. Suppose also that the descriptors' 4-byte numbers together
  -- fit i32::MAX bytes and that for them, and for the ceiling of the receive budget, CMSG_SPACE
  -- with that of credentials on Linux fits usize. Then recv_owned_impl asked for exactly as many
  -- descriptors as were sent succeeds with the first n bytes of the payload and all the descriptors
  -- under their installed numbers, in order, with no surplus and nothing closed or sent.
  pub recv_owned_impl-send_fds_vectored_impl :
      (kind : SocketKind) (from fd n : ℕ) (iov : List Bytes) (fds : List ℕ) (data_buf : Bytes)
      (install : ℕ → ℕ) (creds : List ScmCredentials) (m : Sent) (ws us : World s) (w : World r)
      → All IsFd fds
      → All IsFd (map install fds)
      → length fds * 4 ≤ i32_max
      → room r.target (max (length fds) hard_ceiling) < 2 ^ r.target.usize_bits
      → send_fds_vectored_impl s from iov fds ws ≡ ok n us
      → us.sent ≡ ws.sent ++ (m ∷ [])
      → Carried s r fd data_buf w.kernel install creds m
      → (u : World r) × (recv_owned_impl r fd data_buf kind (exact (length fds)) w
          ≡ ok
              (record {
                payload = take n (flatten iov);
                owned = map install fds;
                surplus_closed = 0;
              })
              u)
        × (u.closed ≡ w.closed)
        × (u.sent ≡ w.sent)
  recv_owned_impl-send_fds_vectored_impl kind from fd n iov fds data_buf install creds m ws us w
        small small_installed few fits sends one carried =
      let (control, is, holds, kept) =
        subst (Sends s from iov fds ws.closed ws.sent) sends
          (send_fds_vectored_impl-Sends s from iov fds ws v small) in
      handed control holds (
        subst (Carried s r fd data_buf w.kernel install creds)
          (last_same ws.sent m _ (sym one ∙ is)) carried)
    where
      installed : List ℕ
      installed = map install fds

      same : length installed ≡ length fds
      same = length-map fds install

      handed :
          (control : Bytes)
          → delivered s.target (raw_messages s.target control) ≡ fds
          → Carried s r fd data_buf w.kernel install creds
              (record { socket = from; payload = iov; control = control; accepted = n })
          → (u : World r) × (recv_owned_impl r fd data_buf kind (exact (length fds)) w
              ≡ ok
                  (record { payload = take n (flatten iov); owned = installed; surplus_closed = 0 })
                  u)
            × (u.closed ≡ w.closed)
            × (u.sent ≡ w.sent)
      handed control holds carried =
          let (u, e, c, t) =
            recv_owned_impl-exact r v' oblige kind fd n data_buf carried.filled installed creds w
              (omega (arith, same, few)) small_installed (rw same fits)
              (subst
                (λ ds.
                  (buf : Bytes)
                  → room r.target (length (map install ds)) ≤ length buf
                  → Arrival r fd (data_buf ∷ []) buf w.kernel
                      (message r.target (map install ds) creds) n carried.filled)
                holds carried.arrives) in
          (u, rw (← same, ← carried.same_bytes) e, c, t)
