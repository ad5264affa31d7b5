-- ===== src/Api/Tally.antt =====
-- What a low-level receive of src/lib.rs leaves in the storage, against what the kernel delivered.
use unix_ancillary.Base.{
  ℕ, ◌≤◌, ◌≡◌, refl, ap, subst, ◌∙◌, true, false, List, [], ◌++◌, take, length, append_assoc,
  append-nil, arith, bit_or, leb, some,
}
use unix_ancillary.Base.Options.{when}
use unix_ancillary.Bytes.{Bytes}
use unix_ancillary.Target.{IsTarget}
use unix_ancillary.System.{Host, World, Exit, ok, err, panic, out_of_fuel, MsgHdr, Sent, drop_fds}
use unix_ancillary.System.Laws.{closed-drop_fds, sent-drop_fds}
use unix_ancillary.System.Quiet.{Quiet}
use unix_ancillary.Platform.{cloexec_received, recv_flags}
use unix_ancillary.Platform.Laws.{cloexec_received-Quiet}
use unix_ancillary.Ancillary.Raw.{RawMessage}
use unix_ancillary.Ancillary.Raw.Parse.{raw_messages}
use unix_ancillary.Ancillary.Buffer.{SocketAncillary}
use unix_ancillary.Ancillary.Take.Owned.{
  kept, fds_of, delivered, pidfds, take_received_into-kept, fds-kept,
}
use unix_ancillary.Ancillary.Drain.{clear, drop_messages}
use unix_ancillary.Ancillary.Drain.Account.{drop_messages-drop_fds}
use unix_ancillary.Cmsg.{RecvMsgResult, recvmsg_raw}
use unix_ancillary.Cmsg.Recv.{batch}
use unix_ancillary.Cmsg.Retry.{RecvEnds, recv_loop-RecvEnds}
use unix_ancillary.Cmsg.Fits.{ControlFits, ControlFixed, recv_loop-fits, recv_loop-fixed}
use unix_ancillary.Api.{Outcome, recorded, taken_over, recv_into_ancillary}

module _ (h : Host) where
  -- The batch of one low-level receive, whose `recvmsg` runs after the storage was cleared.
  abbrev pub installed :
      (fd : ℕ) → List Bytes → SocketAncillary → (extra_flags : ℕ) → World h → List ℕ
  installed fd iov a extra_flags w =
      batch h (recvmsg_raw h fd iov a.buffer extra_flags (clear h a w).1)

  -- The storage is in receive mode and within its buffer, and with what was closed before it owns
  -- exactly what was owned or closed before and what was installed.
  pub record Tallied (capacity : ℕ) (owned : List ℕ) (sent : List Sent) (o : Outcome) (w : World h)
      : Type 0 where
    pub receiving : o.ancillary.receive_mode ≡ true
    pub capacity_kept : length o.ancillary.buffer ≡ capacity
    pub inside : o.ancillary.filled ≤ capacity
    pub tally : w.closed ++ fds_of o.ancillary.received ≡ owned
    pub nothing_sent : w.sent ≡ sent

  abbrev pub Tallies :
      (capacity : ℕ) → (owned : List ℕ) → (sent : List Sent) → Exit h Outcome → Type 0
  Tallies capacity owned sent (ok o w) = Tallied capacity owned sent o w
  Tallies capacity owned sent _ = Unit {0}

  module _ (v : IsTarget h.target) (b : SocketAncillary) (receiving : b.receive_mode ≡ true)
      (empty : b.received ≡ []) (start : b.filled ≡ 0) (closed : List ℕ) (sent : List Sent) where
    module _ (result : RecvMsgResult) (hdr : MsgHdr) (fixed : length hdr.control ≡ length b.buffer)
        (fits : result.ancillary_len ≤ length hdr.control) where
      abbrev arrived : List RawMessage
      arrived = raw_messages h.target (take result.ancillary_len hdr.control)

      recorded-Tallies :
          (r : Exit h (Unit {0}))
          → Quiet (closed ++ pidfds h.target arrived) sent r
          → Tallies
              (length b.buffer)
              (closed ++ (pidfds h.target arrived ++ delivered h.target arrived))
              sent
              (recorded h result hdr.iov
                (record b { buffer = hdr.control; received = kept h.target arrived })
                r)
      recorded-Tallies (ok u w) (c, s) = record {
        receiving = receiving;
        capacity_kept = fixed;
        inside = omega (arith, fits, fixed);
        tally =
            rw (c, fds-kept h.target arrived)
              (append_assoc closed (pidfds h.target arrived) (delivered h.target arrived));
        nothing_sent = s;
      }
      recorded-Tallies (err e w) (c, s) =
          rw (drop_messages-drop_fds h (kept h.target arrived) w) (record {
            receiving = receiving;
            capacity_kept = fixed;
            inside = omega (arith, start);
            tally =
                append-nil (drop_fds h (fds_of (kept h.target arrived)) w).closed
                ∙ closed-drop_fds h (fds_of (kept h.target arrived)) w
                ∙ rw (c, fds-kept h.target arrived)
                    (append_assoc closed (pidfds h.target arrived) (delivered h.target arrived));
            nothing_sent = sent-drop_fds h (fds_of (kept h.target arrived)) w ∙ s;
          })
      recorded-Tallies (panic w) q = absurd q
      recorded-Tallies out_of_fuel q = absurd q

    taken_over-Tallies :
        (iov : List Bytes) (r : Exit h (RecvMsgResult × MsgHdr))
        → RecvEnds h closed sent r
        → ((result : RecvMsgResult) (hdr : MsgHdr) (w : World h)
            → r ≡ ok (result, hdr) w
            → (length hdr.control ≡ length b.buffer) × (result.ancillary_len ≤ length hdr.control))
        → Tallies (length b.buffer) (closed ++ batch h r) sent (taken_over h iov b r)
    taken_over-Tallies iov (ok (result, hdr) w) q bounds =
        let (fixed, fits) = bounds result hdr w refl in
        let bytes = take result.ancillary_len hdr.control in
        let ms = raw_messages h.target bytes in
        let u = drop_fds h (pidfds h.target ms) w in
        let inside : when (leb result.ancillary_len (length hdr.control)) bytes ≡ some bytes =
          ground arith in
        rw (inside, empty, take_received_into-kept h bytes [] w v)
          (recorded-Tallies result hdr fixed fits (cloexec_received h (kept h.target ms) u) (
            cloexec_received-Quiet h (closed ++ pidfds h.target ms) sent (kept h.target ms) u
              (closed-drop_fds h (pidfds h.target ms) w ∙ ap (λ ds. ds ++ pidfds h.target ms) q.0)
              (sent-drop_fds h (pidfds h.target ms) w ∙ q.1)))
    taken_over-Tallies iov (err e w) q bounds = record {
      receiving = receiving;
      capacity_kept = refl;
      inside = omega (arith, start);
      tally = rw (empty, q.1) refl;
      nothing_sent = q.2;
    }
    taken_over-Tallies iov (panic w) q bounds = tt
    taken_over-Tallies iov out_of_fuel q bounds = tt

-- What a low-level receive closes and keeps is what the storage owned and what was installed.
pub recv_into_ancillary-Tallies :
    (h : Host) (fd : ℕ) (iov : List Bytes) (a : SocketAncillary) (extra_flags : ℕ) (w : World h)
    → IsTarget h.target
    → ControlFits h
    → ControlFixed h
    → Tallies h
        (length a.buffer)
        ((w.closed ++ fds_of a.received) ++ installed h fd iov a extra_flags w)
        w.sent
        (recv_into_ancillary h fd iov a extra_flags w)
unfolding recv_into_ancillary recvmsg_raw clear
recv_into_ancillary-Tallies h fd iov a extra_flags w v fits fixed =
    subst (λ c. Tallies h (length a.buffer) (c ++ batch h r) w.sent (taken_over h iov emptied r))
      clear_closed
      (subst
        (λ s.
          Tallies h (length a.buffer) (start.closed ++ batch h r) s (taken_over h iov emptied r))
        clear_sent
        (taken_over-Tallies h v emptied refl refl refl start.closed start.sent iov r
          (recv_loop-RecvEnds h fd iov a.buffer flags h.retries start)
          λ result hdr u e. (
            recv_loop-fixed h fd iov a.buffer flags h.retries result hdr start u fixed e,
            recv_loop-fits h fd iov a.buffer flags h.retries result hdr start u fits e,
          )))
  where
    start : World h
    start = drop_messages h a.received w

    flags : ℕ
    flags = bit_or (recv_flags h.target) extra_flags

    clear_closed : start.closed ≡ w.closed ++ fds_of a.received
    clear_closed =
        ap (λ u. u.closed) (drop_messages-drop_fds h a.received w)
        ∙ closed-drop_fds h (fds_of a.received) w

    clear_sent : start.sent ≡ w.sent
    clear_sent =
        ap (λ u. u.sent) (drop_messages-drop_fds h a.received w)
        ∙ sent-drop_fds h (fds_of a.received) w

    emptied : SocketAncillary
    emptied = record a { received = []; filled = 0; truncated = false; receive_mode = true }

    r : Exit h (RecvMsgResult × MsgHdr)
    r = recvmsg_raw h fd iov a.buffer extra_flags start
