-- ===== src/Api/Lifecycle/Sound.antt =====
-- The invariant of a `SocketAncillary` over its life.
use unix_ancillary.Base.{
  ℕ, ◌+◌, ◌≤◌, ◌≡◌, refl, ap, subst, ◌∙◌, false, List, [], ◌++◌, length, flatten, arith, Bool-cases,
  inl, inr,
}
use unix_ancillary.Bytes.{Bytes}
use unix_ancillary.Target.{IsTarget}
use unix_ancillary.System.{Host, World, Exit, ok, err, panic, out_of_fuel}
use unix_ancillary.Ancillary.Buffer.{new, add_fds}
use unix_ancillary.Ancillary.Buffer.Refine.{Holds}
use unix_ancillary.Ancillary.Buffer.Append.{add_rights-Holds, add_credentials-Holds}
use unix_ancillary.Ancillary.Buffer.Capacity.{add_rights-Extends, add_credentials-Extends}
use unix_ancillary.Ancillary.Take.Owned.{fds_of}
use unix_ancillary.Ancillary.Drain.{clear, messages}
use unix_ancillary.Ancillary.Drain.Ledger.{
  Draining, Steps, occurrences, occurrences-append, Steps-held,
}
use unix_ancillary.Cmsg.Fits.{ControlFits, ControlFixed}
use unix_ancillary.Api.{Outcome, cmsg_sendmsg, cmsg_recvmsg, cmsg_recvmsg_peek}
use unix_ancillary.Api.Tally.{Tallied, Tallies, installed, recv_into_ancillary-Tallies}
use unix_ancillary.Ext.Send.{Sends, sendmsg_vectored-Sends}
use unix_ancillary.Ancillary.Raw.Parse.{raw_messages}
use unix_ancillary.Ancillary.Take.Owned.{delivered}
use unix_ancillary.Cmsg.{passed_control, sendmsg_vectored}
use unix_ancillary.Api.Modes.{clear-Holds}
use unix_ancillary.Api.Lifecycle.{
  Life, born, refilled, undrained, Op, add_fds_op, add_credentials_op, clear_op, messages_op,
  sendmsg_ok, sendmsg_err, recvmsg_op, recvmsg_peek_op, elsewhere, Ops, done, more,
}

module _ (h : Host) (capacity : ℕ) (before : List ℕ) where
  -- The storage stays within its buffer; in send mode it holds the messages added since the last
  -- clear or receive and nothing else; and each descriptor is owned, taken or closed as often as it
  -- was installed, or closed before.
  pub record IsSound (p : Life h) : Type 0 where
    pub capacity_kept : length p.storage.buffer ≡ capacity
    pub inside : p.storage.filled ≤ capacity
    pub building : p.storage.receive_mode ≡ false → Holds h.target p.storage p.built
    pub accounted :
        (x : ℕ)
        → occurrences x (before ++ p.arrived)
          ≡ occurrences x (fds_of p.storage.received)
            + occurrences x p.taken
            + occurrences x p.world.closed

abbrev ClosesNothing : {h : Host} {A : Type 0} → List ℕ → Exit h A → Type 0
ClosesNothing closed (ok a w) = w.closed ≡ closed
ClosesNothing closed (err e w) = w.closed ≡ closed
ClosesNothing closed _ = Unit {0}

pub born-IsSound :
    (h : Host) (buffer : Bytes) (w : World h) → IsSound h (length buffer) w.closed (born h buffer w)
unfolding new
born-IsSound h buffer w = record {
  capacity_kept = refl;
  inside = omega arith;
  building = λ e. record {
    sending = refl;
    nothing_received = refl;
    inside = omega arith;
    encoded = refl;
    encodable = tt;
  };
  accounted = λ x. omega (arith, occurrences-append x w.closed []);
}

module _ (h : Host) (v : IsTarget h.target) (fits : ControlFits h) (fixed : ControlFixed h)
    {capacity : ℕ} {before : List ℕ} where
  -- A storage that holds messages owns no descriptor.
  Holds-IsSound :
      (p : Life h)
      → Holds h.target p.storage p.built
      → length p.storage.buffer ≡ capacity
      → ((x : ℕ)
          → occurrences x (before ++ p.arrived)
            ≡ occurrences x p.taken + occurrences x p.world.closed)
      → IsSound h capacity before p
  Holds-IsSound p g same all = record {
    capacity_kept = same;
    inside = omega (arith, g.inside, same);
    building = λ e. g;
    accounted = λ x. rw g.nothing_received (omega (arith, all x));
  }

  -- Closing what is owned, and owning what was closed, balance.
  Tallied-IsSound :
      (p : Life h) (extra : List ℕ) (o : Outcome) (u : World h)
      → IsSound h capacity before p
      → Tallied h
          (length p.storage.buffer)
          ((p.world.closed ++ fds_of p.storage.received) ++ extra)
          p.world.sent
          o
          u
      → IsSound h capacity before (refilled h p extra o u)
  Tallied-IsSound p extra o u s t = record {
    capacity_kept = t.capacity_kept ∙ s.capacity_kept;
    inside = omega (arith, t.inside, s.capacity_kept);
    building = λ e. cc (t.receiving, e);
    accounted = λ x. omega (
      arith,
      s.accounted x,
      ap (occurrences x) t.tally,
      occurrences-append x u.closed (fds_of o.ancillary.received),
      occurrences-append x (p.world.closed ++ fds_of p.storage.received) extra,
      occurrences-append x p.world.closed (fds_of p.storage.received),
      occurrences-append x before p.arrived,
      occurrences-append x before (p.arrived ++ extra),
      occurrences-append x p.arrived extra,
    );
  }

  -- A send closes nothing, whatever mode the storage is in.
  cmsg_sendmsg-ClosesNothing :
      (p : Life h) (fd : ℕ) (iov : List Bytes)
      → IsSound h capacity before p
      → ClosesNothing p.world.closed (cmsg_sendmsg h fd iov p.storage p.world)
  cmsg_sendmsg-ClosesNothing p fd iov s = elim (Bool-cases p.storage.receive_mode) [
    | inl receiving ↦ unfold cmsg_sendmsg in rw receiving refl
    | inr sending ↦
        unfold cmsg_sendmsg in
        rw sending (
          from_sends (sendmsg_vectored h fd iov p.storage.buffer p.storage.filled p.world)
            (sendmsg_vectored-Sends h fd iov passed p.storage.buffer p.storage.filled p.world refl))
  ]
    where
      passed : List ℕ
      passed =
          delivered h.target
            (raw_messages h.target (passed_control h.target p.storage.buffer p.storage.filled))

      from_sends :
          (r : Exit h ℕ)
          → Sends h fd iov passed p.world.closed p.world.sent r
          → ClosesNothing p.world.closed r
      from_sends (ok n w) (control, is, whole, kept) = kept
      from_sends (err e w) q = q.0
      from_sends (panic w) q = tt
      from_sends out_of_fuel q = tt

  sent-IsSound :
      (p : Life h) (u : World h)
      → u.closed ≡ p.world.closed
      → IsSound h capacity before p
      → IsSound h capacity before (record p { world = u })
  sent-IsSound p u same s = record {
    capacity_kept = s.capacity_kept;
    inside = s.inside;
    building = s.building;
    accounted = λ x. s.accounted x ∙ omega (arith, ap (occurrences x) same);
  }

  drained-IsSound :
      (p : Life h) (d : Draining h)
      → Steps h (undrained h p) d
      → d.pending ≡ []
      → d.opened ≡ []
      → IsSound h capacity before p
      → IsSound h capacity before
          (record p { storage = (messages p.storage).1; world = d.world; taken = d.handed })
  unfolding messages
  drained-IsSound p d steps empty shut s = record {
    capacity_kept = s.capacity_kept;
    inside = s.inside;
    building = λ e.
        let g = s.building e in
        record {
          sending = g.sending;
          nothing_received = refl;
          inside = g.inside;
          encoded = g.encoded;
          encodable = g.encodable;
        };
    accounted = λ x.
        s.accounted x
        ∙ omega (
          arith,
          Steps-held h x (undrained h p) d steps,
          ap (λ ms. occurrences x (fds_of ms)) empty,
          ap (λ ls. occurrences x (flatten ls)) shut,
        );
  }

  Op-IsSound : {p q : Life h} → Op h p q → IsSound h capacity before p → IsSound h capacity before q
  unfolding add_fds cmsg_recvmsg cmsg_recvmsg_peek
  Op-IsSound (add_fds_op {p = p} fds {b = b} e) s =
      let x = add_rights-Extends h.target p.storage b fds e in
      let g = s.building x.sending in
      Holds-IsSound (record p { storage = b; built = _ })
        (add_rights-Holds h.target v p.storage p.built g fds b e) (x.same_length ∙ s.capacity_kept)
        λ y. s.accounted y ∙ omega (arith, ap (λ ms. occurrences y (fds_of ms)) g.nothing_received)
  Op-IsSound (add_credentials_op {p = p} creds {b = b} e) s =
      let x = add_credentials-Extends h.target p.storage b creds e in
      let g = s.building x.sending in
      Holds-IsSound (record p { storage = b; built = _ })
        (add_credentials-Holds h.target v p.storage p.built g creds b e)
        (x.same_length ∙ s.capacity_kept)
        λ y. s.accounted y ∙ omega (arith, ap (λ ms. occurrences y (fds_of ms)) g.nothing_received)
  Op-IsSound (clear_op {p = p}) s =
      let (g, closes, sends) = clear-Holds h p.storage p.world in
      Holds-IsSound _ g (unfold clear in s.capacity_kept) λ x.
        s.accounted x
        ∙ omega (
          arith,
          ap (occurrences x) closes,
          occurrences-append x p.world.closed (fds_of p.storage.received),
        )
  Op-IsSound (messages_op {p = p} d steps empty shut) s = drained-IsSound p d steps empty shut s
  Op-IsSound (sendmsg_ok {p = p} fd iov {u = u} e) s =
      sent-IsSound p u
        (subst (ClosesNothing p.world.closed) e (cmsg_sendmsg-ClosesNothing p fd iov s)) s
  Op-IsSound (sendmsg_err {p = p} fd iov {u = u} e) s =
      sent-IsSound p u
        (subst (ClosesNothing p.world.closed) e (cmsg_sendmsg-ClosesNothing p fd iov s)) s
  Op-IsSound (recvmsg_op {p = p} fd iov {o = o} {u = u} e) s =
      Tallied-IsSound p (installed h fd iov p.storage 0 p.world) o u s (
        subst (Tallies h _ _ _) e
          (recv_into_ancillary-Tallies h fd iov p.storage 0 p.world v fits fixed))
  Op-IsSound (recvmsg_peek_op {p = p} fd iov {o = o} {u = u} e) s =
      Tallied-IsSound p (installed h fd iov p.storage h.target.msg_peek p.world) o u s (
        subst (Tallies h _ _ _) e
          (recv_into_ancillary-Tallies h fd iov p.storage h.target.msg_peek p.world v fits fixed))
  Op-IsSound (elsewhere {p = p} k) s = sent-IsSound p (record p.world { kernel = k }) refl s

  Ops-IsSound :
      {p q : Life h} → Ops h p q → IsSound h capacity before p → IsSound h capacity before q
  Ops-IsSound done s = s
  Ops-IsSound (more steps op) s = Op-IsSound op (Ops-IsSound steps s)

-- On a target whose constants obey IsTarget, and with a kernel whose recvmsg keeps the length of
-- the control buffer and reports no more control bytes than it holds, take a fresh SocketAncillary
-- through any sequence of its public calls that return: add_fds, add_credentials, clear, the
-- draining of messages in any order and in part, cmsg_sendmsg, cmsg_recvmsg and cmsg_recvmsg_peek,
-- with errors, and with calls of other code in between. At every point the buffer has its first
-- length and length lies inside it; in send mode the buffer holds exactly the messages added since
-- the last clear or receive; and every descriptor was closed before, or installed by the kernel,
-- exactly as often as it is owned by the storage, was taken by the caller, or has been closed.
pub Ops-born-IsSound :
    (h : Host) (buffer : Bytes) (w : World h) (p : Life h)
    → IsTarget h.target
    → ControlFits h
    → ControlFixed h
    → Ops h (born h buffer w) p
    → IsSound h (length buffer) w.closed p
Ops-born-IsSound h buffer w p v fits fixed ops =
    Ops-IsSound h v fits fixed ops (born-IsSound h buffer w)
