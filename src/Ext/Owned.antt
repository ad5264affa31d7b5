-- ===== src/Ext/Owned.antt =====
-- What `recv_owned_impl` of src/ext.rs hands out.
use unix_ancillary.Base.{
  ℕ, ◌+◌, ap₂, ◌≤◌, ◌≡◌, true, List, [], ◌∷◌, ◌++◌, take, drop, length, flatten, arith, length-take,
  length-drop,
}
use unix_ancillary.Bytes.{Bytes}
use unix_ancillary.Target.{IsTarget}
use unix_ancillary.System.{Host, World, Exit, ok, err, panic, out_of_fuel, MsgHdr, Sent, and_then}
use unix_ancillary.Cmsg.{RecvMsgResult}
use unix_ancillary.Cmsg.Recv.{arrived, arrived_pidfds}
use unix_ancillary.Ext.{SocketKind, CountMode, up_to, exact, ReceivedFds, recv_owned_impl}
use unix_ancillary.Ext.Ledger.{accepts, wanted}
use unix_ancillary.Ext.Attempt.{Receipt, attempted, CoreEnds}
use unix_ancillary.Ext.Receive.{recv_core-CoreEnds}
use unix_ancillary.Cmsg.Fits.{ControlFits}

-- As many as the mode allows: at most `N` with the surplus counted, or `N` and no surplus.
abbrev pub Counted : CountMode → (owned surplus : ℕ) → Type 0
Counted (up_to n) owned surplus = owned ≤ n
Counted (exact n) owned surplus = (owned ≡ n) × (surplus ≡ 0)

pub accepted-Counted :
    (kind : SocketKind) (mode : CountMode) (result : RecvMsgResult) (fds : List ℕ)
    → accepts kind mode result fds ≡ true
    → Counted mode (length (take (wanted mode) fds)) (length (drop (wanted mode) fds))
accepted-Counted kind (up_to n) result fds e = omega (arith, length-take n fds)
accepted-Counted kind (exact n) result fds e =
    let same : length fds ≡ n = ground arith in
    (omega (arith, length-take n fds, same), omega (arith, length-drop n fds, same))

module _ (h : Host) (kind : SocketKind) (mode : CountMode)
    (attempt : Exit h (RecvMsgResult × MsgHdr)) where
  -- On success the payload is what one receive read, the descriptors are the first of those it
  -- delivered, as many as the mode allows, and the others are counted and closed; an error or a panic
  -- ends as that of `recv_core`.
  abbrev pub HandsOut : (closed : List ℕ) → (sent : List Sent) → Exit h ReceivedFds → Type 0
  HandsOut closed sent (ok r w) =
      (result : RecvMsgResult) × (hdr : MsgHdr) × Receipt h kind mode attempt closed sent result hdr
      × (r.payload ≡ take result.bytes_read (flatten hdr.iov))
      × (r.owned ≡ take (wanted mode) (arrived h result hdr))
      × Counted mode (length r.owned) r.surplus_closed
      × (length r.owned + r.surplus_closed ≡ length (arrived h result hdr))
      × (w.closed
          ≡ closed ++ (arrived_pidfds h result hdr ++ drop (wanted mode) (arrived h result hdr)))
      × (w.sent ≡ sent)
  HandsOut closed sent (err e w) = CoreEnds h kind mode attempt closed sent (err e w)
  HandsOut closed sent (panic w) = CoreEnds h kind mode attempt closed sent (panic w)
  HandsOut closed sent out_of_fuel = Unit {0}

  handed_out :
      (closed : List ℕ) (sent : List Sent) (r : Exit h (ℕ × List ℕ × ℕ × List Bytes))
      → CoreEnds h kind mode attempt closed sent r
      → HandsOut closed sent (
          and_then r (λ (bytes_read, fds, surplus, filled). ok (record {
            payload = take bytes_read (flatten filled);
            owned = fds;
            surplus_closed = surplus;
          })))
  handed_out closed sent (ok (n, fds, surplus, filled) w)
        (result, hdr, receipt, fine, is_n, is_iov, is_fds, is_surplus, c, s) =
      let all = arrived h result hdr in
      let counted = accepted-Counted kind mode result all fine in
      (
        result,
        hdr,
        receipt,
        ap₂ (λ k bufs. take k (flatten bufs)) is_n is_iov,
        is_fds,
        rw (is_fds, is_surplus) counted,
        rw (is_fds, is_surplus)
            (omega (arith, length-take (wanted mode) all, length-drop (wanted mode) all)),
        c,
        s,
      )
  handed_out closed sent (err e w) q = q
  handed_out closed sent (panic w) q = q
  handed_out closed sent out_of_fuel q = tt

-- On a target whose constants obey IsTarget, and with a kernel that reports no more control bytes
-- than the buffer holds, a success of recv_owned_impl means that its own recvmsg completed, before
-- which nothing was closed or sent: the payload is what that read, the descriptors are the first of
-- those it delivered, at most N of them for up-to and exactly N without surplus for exact, returned
-- and surplus add up to all that arrived, and the pidfds and the surplus are what was closed. An
-- error or a panic closes what CoreEnds of recv_core says, exactly what that recvmsg delivered.
-- Nothing is sent. A run that exceeds the bound on retries is not constrained.
pub recv_owned_impl-HandsOut :
    (h : Host) (fd : ℕ) (data_buf : Bytes) (kind : SocketKind) (mode : CountMode) (w : World h)
    → IsTarget h.target
    → ControlFits h
    → HandsOut h kind mode
        (attempted h fd (data_buf ∷ []) mode w)
        w.closed
        w.sent
        (recv_owned_impl h fd data_buf kind mode w)
unfolding recv_owned_impl
recv_owned_impl-HandsOut h fd data_buf kind mode w v law =
    handed_out h kind mode (attempted h fd (data_buf ∷ []) mode w) w.closed w.sent _
      (recv_core-CoreEnds h fd (data_buf ∷ []) kind mode w v law)
