-- ===== src/Ext/Attempt.antt =====
-- The `recvmsg` of `recv_core` of src/ext.rs, and the ends of a run that made it.
use unix_ancillary.Base.{
  ℕ, ◌≡◌, inl, inr, true, List, ◌++◌, take, drop, length, max, Option, none, some, Bool-cases,
}
use unix_ancillary.Bytes.{Bytes}
use unix_ancillary.Target.{IsTarget}
use unix_ancillary.System.{
  Host, World, Run, Exit, ok, err, panic, out_of_fuel, MsgHdr, Sent, and_then, ◌>>=◌, or_panic,
}
use unix_ancillary.Platform.{max_recv_fds}
use unix_ancillary.Ancillary.Layout.{
  buffer_size_for_rights, buffer_size_for_credentials, checked_add,
}
use unix_ancillary.Ancillary.Take.{is_linux}
use unix_ancillary.Cmsg.{RecvMsgResult, recvmsg_raw}
use unix_ancillary.Cmsg.Recv.{arrived, arrived_pidfds, batch}
use unix_ancillary.Ext.{
  SocketKind, CountMode, add_credentials_size, or_overflow, control_storage, count,
}
use unix_ancillary.Ext.Ledger.{accepts, wanted}
use unix_ancillary.Cmsg.Calm.{Calm}

module _ (h : Host) (fd : ℕ) (iov : List Bytes) (mode : CountMode) where
  -- The `recvmsg` of `recv_core`: its run up to the answer of the kernel.
  abbrev pub attempted : Run h (RecvMsgResult × MsgHdr)
  attempted = do
    budget ← max_recv_fds h
    size ← or_panic (buffer_size_for_rights h.target (max (count mode) budget))
    control_size ← add_credentials_size h size
    recvmsg_raw h fd iov (control_storage h.uninit control_size) 0

module _ (h : Host) (kind : SocketKind) (mode : CountMode)
    (attempt : Exit h (RecvMsgResult × MsgHdr)) where
  -- The attempt completed, with nothing closed or sent before it returned.
  pub record Receipt (closed : List ℕ) (sent : List Sent) (result : RecvMsgResult) (hdr : MsgHdr)
      : Type 0 where
    pub after : World h
    pub call : attempt ≡ ok (result, hdr) after
    pub closed_after : after.closed ≡ closed
    pub sent_after : after.sent ≡ sent

  -- On success the caller has the first descriptors that the attempted receive delivered, and every
  -- other one of them is closed. Otherwise all that it delivered are closed, none if it failed.
  abbrev pub CoreEnds :
      (closed : List ℕ) → (sent : List Sent) → Exit h (ℕ × List ℕ × ℕ × List Bytes) → Type 0
  CoreEnds closed sent (ok (n, kept, surplus, filled) w) =
      (result : RecvMsgResult) × (hdr : MsgHdr) × Receipt closed sent result hdr
      × (accepts kind mode result (arrived h result hdr) ≡ true)
      × (n ≡ result.bytes_read)
      × (filled ≡ hdr.iov)
      × (kept ≡ take (wanted mode) (arrived h result hdr))
      × (surplus ≡ length (drop (wanted mode) (arrived h result hdr)))
      × (w.closed
          ≡ closed ++ (arrived_pidfds h result hdr ++ drop (wanted mode) (arrived h result hdr)))
      × (w.sent ≡ sent)
  CoreEnds closed sent (err e w) = (w.closed ≡ closed ++ batch h attempt) × (w.sent ≡ sent)
  CoreEnds closed sent (panic w) = (w.closed ≡ closed ++ batch h attempt) × (w.sent ≡ sent)
  CoreEnds closed sent out_of_fuel = Unit {0}

module _ (h : Host) (v : IsTarget h.target) (closed : List ℕ) (sent : List Sent) where
  pub add_credentials_size-Calm :
      (size : ℕ) (w : World h)
      → w.closed ≡ closed
      → w.sent ≡ sent
      → Calm closed sent (add_credentials_size h size w)
  unfolding add_credentials_size
  add_credentials_size-Calm size w c s = elim (Bool-cases (is_linux h.target.target_os)) [
    | inr other ↦ rw other (c, s)
    | inl linux ↦ rw linux (creds (buffer_size_for_credentials h.target))
  ]
    where
      total : (o : Option ℕ) → Calm closed sent (or_overflow h o w)
      total none = (c, s)
      total (some n) = (c, s)

      creds :
          (o : Option ℕ)
          → Calm closed sent
              (and_then (or_panic o w) (λ n. or_overflow h (checked_add h.target size n)))
      creds none = (c, s)
      creds (some n) = total (checked_add h.target size n)
