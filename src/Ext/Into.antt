-- ===== src/Ext/Into.antt =====
-- What `recv_fds_into_vectored_impl` of src/ext.rs hands out, into buffers of the caller's.
use unix_ancillary.Base.{ℕ, ◌≡◌, List, ◌++◌, take, drop, length}
use unix_ancillary.Bytes.{Bytes}
use unix_ancillary.Target.{IsTarget}
use unix_ancillary.System.{Host, World, Exit, ok, err, panic, out_of_fuel, MsgHdr, Sent, and_then}
use unix_ancillary.Cmsg.{RecvMsgResult}
use unix_ancillary.Cmsg.Recv.{arrived, arrived_pidfds}
use unix_ancillary.Ext.{SocketKind, CountMode, recv_fds_into_vectored_impl}
use unix_ancillary.Ext.Ledger.{wanted}
use unix_ancillary.Ext.Attempt.{Receipt, attempted, CoreEnds}
use unix_ancillary.Ext.Receive.{recv_core-CoreEnds}
use unix_ancillary.Cmsg.Fits.{ControlFits}
use unix_ancillary.Ext.Owned.{Counted, accepted-Counted}

module _ (h : Host) (kind : SocketKind) (mode : CountMode)
    (attempt : Exit h (RecvMsgResult × MsgHdr)) where
  -- On success the caller's buffers are as one receive left them, the descriptors are the first of
  -- those it delivered, as many as the mode allows, and the others are closed; an error or a panic
  -- ends as that of `recv_core`.
  abbrev pub HandsInto :
      (closed : List ℕ) → (sent : List Sent) → Exit h (ℕ × List ℕ × List Bytes) → Type 0
  HandsInto closed sent (ok (n, fds, filled) w) =
      (result : RecvMsgResult) × (hdr : MsgHdr) × Receipt h kind mode attempt closed sent result hdr
      × (n ≡ result.bytes_read)
      × (filled ≡ hdr.iov)
      × (fds ≡ take (wanted mode) (arrived h result hdr))
      × Counted mode (length fds) (length (drop (wanted mode) (arrived h result hdr)))
      × (w.closed
          ≡ closed ++ (arrived_pidfds h result hdr ++ drop (wanted mode) (arrived h result hdr)))
      × (w.sent ≡ sent)
  HandsInto closed sent (err e w) = CoreEnds h kind mode attempt closed sent (err e w)
  HandsInto closed sent (panic w) = CoreEnds h kind mode attempt closed sent (panic w)
  HandsInto closed sent out_of_fuel = Unit {0}

  handed_into :
      (closed : List ℕ) (sent : List Sent) (r : Exit h (ℕ × List ℕ × ℕ × List Bytes))
      → CoreEnds h kind mode attempt closed sent r
      → HandsInto closed sent
          (and_then r (λ (bytes_read, fds, surplus, filled). ok (bytes_read, fds, filled)))
  handed_into closed sent (ok (n, fds, surplus, filled) w)
        (result, hdr, receipt, fine, is_n, is_iov, is_fds, is_surplus, c, s) =
      let counted = accepted-Counted kind mode result (arrived h result hdr) fine in
      (result, hdr, receipt, is_n, is_iov, is_fds, rw is_fds counted, c, s)
  handed_into closed sent (err e w) q = q
  handed_into closed sent (panic w) q = q
  handed_into closed sent out_of_fuel q = tt

pub recv_fds_into_vectored_impl-HandsInto :
    (h : Host) (fd : ℕ) (iov : List Bytes) (kind : SocketKind) (mode : CountMode) (w : World h)
    → IsTarget h.target
    → ControlFits h
    → HandsInto h kind mode
        (attempted h fd iov mode w)
        w.closed
        w.sent
        (recv_fds_into_vectored_impl h fd iov kind mode w)
unfolding recv_fds_into_vectored_impl
recv_fds_into_vectored_impl-HandsInto h fd iov kind mode w v law =
    handed_into h kind mode (attempted h fd iov mode w) w.closed w.sent _
      (recv_core-CoreEnds h fd iov kind mode w v law)
