-- ===== src/Cmsg/Recv.antt =====
-- The descriptors of `recv_fds` of src/cmsg.rs after its `recvmsg`.
use unix_ancillary.Base.{
  ℕ, ◌≤◌, ◌≡◌, refl, ap, ◌∙◌, List, [], ◌++◌, take, length, leb, arith, append_assoc, inl, inr,
  some,
}
use unix_ancillary.Base.Options.{when}
use unix_ancillary.Bytes.{Bytes}
use unix_ancillary.Target.{IsTarget}
use unix_ancillary.System.{Host, World, Exit, ok, err, panic, out_of_fuel, MsgHdr, Sent, drop_fds}
use unix_ancillary.System.Laws.{closed-drop_fds, sent-drop_fds}
use unix_ancillary.System.Quiet.{Quiet-cases}
use unix_ancillary.Platform.{cloexec_fds}
use unix_ancillary.Platform.Laws.{cloexec_fds-Quiet}
use unix_ancillary.Ancillary.Raw.Parse.{raw_messages}
use unix_ancillary.Ancillary.Take.Owned.{delivered, pidfds, take_fds-delivered}
use unix_ancillary.Cmsg.{RecvMsgResult, own_fds}

module _ (h : Host) (result : RecvMsgResult) (hdr : MsgHdr) where
  -- The descriptors in the control bytes that a receive left, and the pidfds among its messages.
  abbrev pub arrived : List ℕ
  arrived = delivered h.target (raw_messages h.target (take result.ancillary_len hdr.control))

  abbrev pub arrived_pidfds : List ℕ
  arrived_pidfds = pidfds h.target (raw_messages h.target (take result.ancillary_len hdr.control))

  -- On success the caller owns what arrived and the pidfds are closed; on an error all are closed.
  abbrev pub OwnEnds :
      (closed : List ℕ) → (sent : List Sent) → Exit h (RecvMsgResult × List ℕ × List Bytes) → Type 0
  OwnEnds closed sent (ok (r, owned, iov) w) =
      (r ≡ result)
      × (owned ≡ arrived)
      × (iov ≡ hdr.iov)
      × (w.closed ≡ closed ++ arrived_pidfds)
      × (w.sent ≡ sent)
  OwnEnds closed sent (err e w) =
      (w.closed ≡ closed ++ (arrived_pidfds ++ arrived)) × (w.sent ≡ sent)
  OwnEnds closed sent (panic w) = ⊥
  OwnEnds closed sent out_of_fuel = ⊥

  -- On a target whose constants obey IsTarget, and when the control length lies in the control
  -- buffer, recv_fds after its recvmsg neither panics nor runs out of fuel: on success it returns
  -- all the descriptors that arrived and has closed the pidfds; if close-on-exec fails for one of
  -- them it has closed the pidfds and all of them. It sends nothing.
  pub own_fds-OwnEnds :
      (w : World h)
      → IsTarget h.target
      → result.ancillary_len ≤ length hdr.control
      → OwnEnds w.closed w.sent (own_fds h result hdr w)
  unfolding own_fds
  own_fds-OwnEnds w v fits =
      let bytes = take result.ancillary_len hdr.control in
      let w₁ = drop_fds h arrived_pidfds w in
      let closed₁ : w₁.closed ≡ w.closed ++ arrived_pidfds = closed-drop_fds h arrived_pidfds w in
      let sent₁ : w₁.sent ≡ w.sent = sent-drop_fds h arrived_pidfds w in
      let inside : when (leb result.ancillary_len (length hdr.control)) bytes ≡ some bytes =
        ground arith in
      rw (inside, take_fds-delivered h bytes w v)
        (elim (Quiet-cases w₁.closed w₁.sent (cloexec_fds h arrived w₁)
          (cloexec_fds-Quiet h w₁.closed w₁.sent arrived w₁ refl refl)) [
            | inl (_, u, e, c, s) ↦ rw e (refl, refl, refl, c ∙ closed₁, s ∙ sent₁)
            | inr (x, u, e, c, s) ↦ rw e (
              closed-drop_fds h arrived u
                  ∙ ap (λ ds. ds ++ arrived) (c ∙ closed₁)
                  ∙ append_assoc w.closed arrived_pidfds arrived,
              sent-drop_fds h arrived u ∙ s ∙ sent₁,
            )
          ])

-- The descriptors that the kernel installed for an attempted `recvmsg`: none unless it completed.
abbrev pub batch : (h : Host) → Exit h (RecvMsgResult × MsgHdr) → List ℕ
batch h (ok (result, hdr) w) = arrived_pidfds h result hdr ++ arrived h result hdr
batch h _ = []
