-- ===== src/Api/Lifecycle/Typed.antt =====
-- The numbers of a `SocketAncillary` over its life fit the types of the source.
use unix_ancillary.Base.{
  ℕ, ◌≡◌, refl, sym, subst, inl, inr, List, [], take, length, All, true, false, Bool-cases, leb,
  bit_or,
}
use unix_ancillary.Bytes.{Bytes}
use unix_ancillary.Bytes.Octets.{AreBytes, take-AreBytes}
use unix_ancillary.Target.{Target, IsTarget}
use unix_ancillary.System.{Host, World, Exit, ok, err, panic, out_of_fuel, MsgHdr, drop_fds}
use unix_ancillary.Platform.{cloexec_received, recv_flags}
use unix_ancillary.Ancillary.Raw.{RawMessage}
use unix_ancillary.Ancillary.Raw.Parse.{raw_messages}
use unix_ancillary.Ancillary.Buffer.{SocketAncillary, new, add_fds}
use unix_ancillary.Ancillary.Buffer.Capacity.{Extends, add_rights-Extends, add_credentials-Extends}
use unix_ancillary.Ancillary.Buffer.RoundTrip.{IsFd}
use unix_ancillary.Ancillary.Take.Owned.{kept, pidfds, take_received_into-kept}
use unix_ancillary.Ancillary.Take.Typed.{IsTyped, kept-IsTyped}
use unix_ancillary.Ancillary.Drain.{clear, messages}
use unix_ancillary.Ancillary.Drain.Typed.{Steps-DrainsTypes}
use unix_ancillary.Cmsg.{RecvMsgResult, recvmsg_raw}
use unix_ancillary.Cmsg.Fits.{ControlBytes, recv_loop-AreBytes}
use unix_ancillary.Api.{
  Outcome, recorded, taken_over, recv_into_ancillary, cmsg_recvmsg, cmsg_recvmsg_peek,
}
use unix_ancillary.Api.Lifecycle.{
  Life, born, Op, add_fds_op, add_credentials_op, clear_op, messages_op, sendmsg_ok, sendmsg_err,
  recvmsg_op, recvmsg_peek_op, elsewhere, Ops, done, more,
}

-- The buffer holds bytes, and what was received fits its types.
pub record HasTypes (a : SocketAncillary) : Type 0 where
  pub bytes : AreBytes a.buffer
  pub typed : All IsTyped a.received

abbrev LeavesTypes : {h : Host} → Exit h Outcome → Type 0
LeavesTypes (ok o w) = HasTypes o.ancillary
LeavesTypes _ = Unit {0}

module _ (h : Host) where
  recorded-LeavesTypes :
      (result : RecvMsgResult) (iov : List Bytes) (a : SocketAncillary) (r : Exit h (Unit {0}))
      → HasTypes a
      → LeavesTypes (recorded h result iov a r)
  recorded-LeavesTypes result iov a (ok u w) t = record { bytes = t.bytes; typed = t.typed }
  recorded-LeavesTypes result iov a (err e w) t = record { bytes = t.bytes; typed = tt }
  recorded-LeavesTypes result iov a (panic w) t = tt
  recorded-LeavesTypes result iov a out_of_fuel t = tt

  module _ (v : IsTarget h.target) (b : SocketAncillary) (empty : b.received ≡ []) where
    taken_over-LeavesTypes :
        (iov : List Bytes) (r : Exit h (RecvMsgResult × MsgHdr))
        → AreBytes b.buffer
        → ((result : RecvMsgResult) (hdr : MsgHdr) (w : World h)
            → r ≡ ok (result, hdr) w
            → AreBytes hdr.control)
        → LeavesTypes (taken_over h iov b r)
    taken_over-LeavesTypes iov (ok (result, hdr) w) old fresh =
        elim (Bool-cases (leb result.ancillary_len (length hdr.control))) [
          | inr outside ↦ rw outside tt
          | inl inside ↦
              rw (inside, empty, take_received_into-kept h read [] w v)
                (recorded-LeavesTypes result hdr.iov
                  (record b { buffer = hdr.control; received = kept h.target ms })
                  (cloexec_received h (kept h.target ms) (drop_fds h (pidfds h.target ms) w))
                  (record {
                    bytes = fresh result hdr w refl;
                    typed =
                        kept-IsTyped h.target read (
                          take-AreBytes result.ancillary_len hdr.control (fresh result hdr w refl));
                  }))
        ]
      where
        read : Bytes
        read = take result.ancillary_len hdr.control

        ms : List RawMessage
        ms = raw_messages h.target read
    taken_over-LeavesTypes iov (err e w) old fresh = record {
      bytes = old;
      typed = subst (All IsTyped) (sym empty) tt;
    }
    taken_over-LeavesTypes iov (panic w) old fresh = tt
    taken_over-LeavesTypes iov out_of_fuel old fresh = tt

  recv_into_ancillary-LeavesTypes :
      (fd : ℕ) (iov : List Bytes) (a : SocketAncillary) (extra_flags : ℕ) (w : World h)
      → IsTarget h.target
      → ControlBytes h
      → HasTypes a
      → LeavesTypes (recv_into_ancillary h fd iov a extra_flags w)
  unfolding recv_into_ancillary recvmsg_raw clear
  recv_into_ancillary-LeavesTypes fd iov a extra_flags w v law t =
      taken_over-LeavesTypes v
        (record a { received = []; filled = 0; truncated = false; receive_mode = true }) refl iov
        (recvmsg_raw h fd iov a.buffer extra_flags (clear h a w).1) t.bytes
        λ result hdr u e.
          recv_loop-AreBytes h fd iov a.buffer (bit_or (recv_flags h.target) extra_flags) h.retries
            result hdr (clear h a w).1 u law t.bytes e

-- And the descriptors that the caller took are non-negative `i32`s.
pub record FitsTypes {h : Host} (p : Life h) : Type 0 where
  pub has : HasTypes p.storage
  pub took : All IsFd p.taken

extended : {t : Target} (a b : SocketAncillary) → Extends t a b → HasTypes a → HasTypes b
extended a b x t = record {
  bytes = x.keeps_bytes t.bytes;
  typed = subst (All IsTyped) (sym x.same_received) t.typed;
}

module _ (h : Host) (v : IsTarget h.target) (law : ControlBytes h) where
  Op-FitsTypes : {p q : Life h} → Op h p q → FitsTypes p → FitsTypes q
  unfolding add_fds cmsg_recvmsg cmsg_recvmsg_peek clear messages
  Op-FitsTypes (add_fds_op {p = p} fds {b = b} e) t =
      let x = add_rights-Extends h.target p.storage b fds e in
      record { has = extended p.storage b x t.has; took = t.took }
  Op-FitsTypes (add_credentials_op {p = p} creds {b = b} e) t =
      let x = add_credentials-Extends h.target p.storage b creds e in
      record { has = extended p.storage b x t.has; took = t.took }
  Op-FitsTypes (clear_op {p = p}) t = record {
    has = record { bytes = t.has.bytes; typed = tt };
    took = t.took;
  }
  Op-FitsTypes (messages_op {p = p} d steps empty shut) t = record {
    has = record { bytes = t.has.bytes; typed = tt };
    took =
        (Steps-DrainsTypes steps (record {
          pending_typed = t.has.typed;
          opened_typed = tt;
          handed_typed = t.took;
        })).handed_typed;
  }
  Op-FitsTypes (sendmsg_ok fd iov e) t = record { has = t.has; took = t.took }
  Op-FitsTypes (sendmsg_err fd iov e) t = record { has = t.has; took = t.took }
  Op-FitsTypes (recvmsg_op {p = p} fd iov {o = o} {u = u} e) t = record {
    has =
        subst LeavesTypes e
          (recv_into_ancillary-LeavesTypes h fd iov p.storage 0 p.world v law t.has);
    took = t.took;
  }
  Op-FitsTypes (recvmsg_peek_op {p = p} fd iov {o = o} {u = u} e) t = record {
    has =
        subst LeavesTypes e (
          recv_into_ancillary-LeavesTypes h fd iov p.storage h.target.msg_peek p.world v law t.has);
    took = t.took;
  }
  Op-FitsTypes (elsewhere k) t = record { has = t.has; took = t.took }

  Ops-FitsTypes : {p q : Life h} → Ops h p q → FitsTypes p → FitsTypes q
  Ops-FitsTypes done t = t
  Ops-FitsTypes (more steps op) t = Op-FitsTypes op (Ops-FitsTypes steps t)

-- On a target whose constants obey IsTarget, with a kernel whose recvmsg leaves bytes in a control
-- buffer of bytes, and for a SocketAncillary over a buffer of bytes: after any sequence of its
-- public calls that return, with the draining of messages in any order and in part, the buffer
-- still holds bytes; every descriptor that the storage owns, and every one that the caller took, is
-- a non-negative i32; and the pid, uid and gid of every credential it holds are 32 bits wide.
pub Ops-born-FitsTypes :
    (h : Host) (buffer : Bytes) (w : World h) (p : Life h)
    → IsTarget h.target
    → ControlBytes h
    → AreBytes buffer
    → Ops h (born h buffer w) p
    → FitsTypes p
unfolding new
Ops-born-FitsTypes h buffer w p v law bytes ops =
    Ops-FitsTypes h v law ops (record { has = record { bytes = bytes; typed = tt }; took = tt })
