-- ===== src/Api/Ownership.antt =====
-- The ledger of a low-level receive (`recv_into_ancillary` of src/lib.rs).
use unix_ancillary.Base.{
  ℕ, ◌≤◌, ◌≡◌, refl, ap, ◌∙◌, sym, append-nil, true, false, List, [], ◌++◌, take, length,
  append_assoc, arith, bit_or, leb, some,
}
use unix_ancillary.Base.Options.{when}
use unix_ancillary.Base.Results.{Result}
use unix_ancillary.Bytes.{Bytes}
use unix_ancillary.Target.{IsTarget}
use unix_ancillary.System.{Host, World, Exit, ok, err, panic, out_of_fuel, MsgHdr, Sent, drop_fds}
use unix_ancillary.System.Laws.{closed-drop_fds, sent-drop_fds}
use unix_ancillary.System.Quiet.{Quiet}
use unix_ancillary.Platform.{cloexec_received, recv_flags}
use unix_ancillary.Platform.Laws.{cloexec_received-Quiet}
use unix_ancillary.Ancillary.Raw.{RawMessage}
use unix_ancillary.Ancillary.Raw.Parse.{raw_messages}
use unix_ancillary.Ancillary.Buffer.{SocketAncillary}
use unix_ancillary.Ancillary.Take.Owned.{kept, fds_of, pidfds, take_received_into-kept, fds-kept}
use unix_ancillary.Ancillary.Drain.{clear, drop_messages}
use unix_ancillary.Ancillary.Drain.Account.{drop_messages-drop_fds}
use unix_ancillary.Cmsg.{RecvMsgResult, recvmsg_raw}
use unix_ancillary.Cmsg.Retry.{RecvEnds, recv_loop-RecvEnds}
use unix_ancillary.Cmsg.Fits.{ControlFits, recv_loop-fits}
use unix_ancillary.Cmsg.Recv.{batch}
use unix_ancillary.Api.{Outcome, recorded, taken_over, recv_into_ancillary}

module _ (h : Host) where
  abbrev control_of : RecvMsgResult → MsgHdr → Bytes
  control_of result hdr = take result.ancillary_len hdr.control

  module _ (attempt : Exit h (RecvMsgResult × MsgHdr)) where
    -- `closed` is what was closed before the receive proper, the storage's old descriptors included,
    -- and `attempt` is its `recvmsg`.
    abbrev pub Owns : (closed : List ℕ) → (sent : List Sent) → Exit h Outcome → Type 0
    Owns closed sent (ok o w) =
        (o.ancillary.receive_mode ≡ true) × (w.sent ≡ sent) × elim o.result [
          | Result.ok r ↦
              (result : RecvMsgResult) × (hdr : MsgHdr) × (after : World h) × (attempt
                ≡ ok (result, hdr) after)
              × (o.ancillary.received
                  ≡ kept h.target (raw_messages h.target (control_of result hdr)))
              × (o.ancillary.truncated ≡ result.ancillary_truncated)
              × (r.bytes_read ≡ result.bytes_read)
              × (o.iov ≡ hdr.iov)
              × (w.closed
                  ≡ closed ++ pidfds h.target (raw_messages h.target (control_of result hdr)))
          | Result.err e ↦ (o.ancillary.received ≡ []) × (w.closed ≡ closed ++ batch h attempt)
        ]
    Owns closed sent (err e w) = ⊥
    Owns closed sent (panic w) = ⊥
    Owns closed sent out_of_fuel = Unit {0}

  module _ (iov : List Bytes) (result : RecvMsgResult) (hdr : MsgHdr) (closed : List ℕ)
      (sent : List Sent) (after : World h) (b : SocketAncillary) (receiving : b.receive_mode ≡ true)
      (empty : b.received ≡ []) where
    abbrev arrived : List RawMessage
    arrived = raw_messages h.target (control_of result hdr)

    recorded-Owns :
        (r : Exit h (Unit {0}))
        → Quiet (closed ++ pidfds h.target arrived) sent r
        → Owns (ok (result, hdr) after) closed sent (
            recorded h result hdr.iov
              (record b { buffer = hdr.control; received = kept h.target arrived })
              r)
    recorded-Owns (ok u w) (c, s) =
        (receiving, s, (result, hdr, after, refl, refl, refl, refl, refl, c))
    recorded-Owns (err e w) (c, s) = rw (drop_messages-drop_fds h (kept h.target arrived) w) (
      receiving,
      sent-drop_fds h (fds_of (kept h.target arrived)) w ∙ s,
      (
        refl,
        closed-drop_fds h (fds_of (kept h.target arrived)) w
            ∙ ap (λ ds. ds ++ fds_of (kept h.target arrived)) c
            ∙ append_assoc closed (pidfds h.target arrived) (fds_of (kept h.target arrived))
            ∙ ap (λ ds. closed ++ (pidfds h.target arrived ++ ds)) (fds-kept h.target arrived),
      ),
    )
    recorded-Owns (panic w) q = absurd q
    recorded-Owns out_of_fuel q = absurd q

    received-Owns :
        (w : World h)
        → IsTarget h.target
        → result.ancillary_len ≤ length hdr.control
        → w.closed ≡ closed
        → w.sent ≡ sent
        → Owns (ok (result, hdr) after) closed sent (taken_over h iov b (ok (result, hdr) w))
    received-Owns w v fits c s =
        let bytes = control_of result hdr in
        let u = drop_fds h (pidfds h.target arrived) w in
        let inside : when (leb result.ancillary_len (length hdr.control)) bytes ≡ some bytes =
          ground arith in
        rw (inside, empty, take_received_into-kept h bytes [] w v)
          (recorded-Owns (cloexec_received h (kept h.target arrived) u) (
            cloexec_received-Quiet h (closed ++ pidfds h.target arrived) sent
              (kept h.target arrived) u
              (closed-drop_fds h (pidfds h.target arrived) w
                ∙ ap (λ ds. ds ++ pidfds h.target arrived) c)
              (sent-drop_fds h (pidfds h.target arrived) w ∙ s)))

-- On a target whose constants obey IsTarget, and with a kernel that reports no more control bytes
-- than the buffer holds, recv_into_ancillary closes first what the storage still owned. After a
-- success the storage has exactly the messages of the fresh control bytes and their truncation
-- flag, and only their pidfds were closed besides, where those bytes are what the call's own
-- recvmsg, made on the cleared storage, left. After a failure it has no message, and what was
-- closed besides is exactly what that recvmsg delivered: the pidfds and then all descriptors if it
-- completed, nothing if it failed. In both cases it is in receive mode and nothing was sent. A run
-- that exceeds the bound on retries is not constrained.
pub recv_into_ancillary-Owns :
    (h : Host) (fd : ℕ) (iov : List Bytes) (a : SocketAncillary) (extra_flags : ℕ) (w : World h)
    → IsTarget h.target
    → ControlFits h
    → Owns h
        (recvmsg_raw h fd iov a.buffer extra_flags (clear h a w).1)
        (w.closed ++ fds_of a.received)
        w.sent
        (recv_into_ancillary h fd iov a extra_flags w)
unfolding recv_into_ancillary recvmsg_raw clear
recv_into_ancillary-Owns h fd iov a extra_flags w v law =
    go (recvmsg_raw h fd iov a.buffer extra_flags start) refl
      (recv_loop-RecvEnds h fd iov a.buffer flags h.retries start)
  where
    start : World h
    start = drop_messages h a.received w

    flags : ℕ
    flags = bit_or (recv_flags h.target) extra_flags

    clear_closed : start.closed ≡ w.closed ++ fds_of a.received
    clear_closed =
        ap (λ u. u.closed) (drop_messages-drop_fds h a.received w)
        ∙ closed-drop_fds h (fds_of a.received) w

    clear_sent : start.sent ≡ w.sent
    clear_sent =
        ap (λ u. u.sent) (drop_messages-drop_fds h a.received w)
        ∙ sent-drop_fds h (fds_of a.received) w

    emptied : SocketAncillary
    emptied = record a { received = []; filled = 0; truncated = false; receive_mode = true }

    go :
        (r : Exit h (RecvMsgResult × MsgHdr))
        → recvmsg_raw h fd iov a.buffer extra_flags start ≡ r
        → RecvEnds h start.closed start.sent r
        → Owns h r (w.closed ++ fds_of a.received) w.sent (taken_over h iov emptied r)
    go (ok (result, hdr) u) e q =
        received-Owns h iov result hdr (w.closed ++ fds_of a.received) w.sent u emptied refl refl u
          v (recv_loop-fits h fd iov a.buffer flags h.retries result hdr start u law e)
          (q.0 ∙ clear_closed) (q.1 ∙ clear_sent)
    go (err e u) is q = (
      refl,
      q.2 ∙ clear_sent,
      (refl, q.1 ∙ clear_closed ∙ sym (append-nil (w.closed ++ fds_of a.received))),
    )
    go (panic u) e q = absurd q
    go out_of_fuel e q = tt
