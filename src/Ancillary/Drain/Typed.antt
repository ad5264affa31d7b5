-- ===== src/Ancillary/Drain/Typed.antt =====
-- Draining by the iterators of src/ancillary.rs hands out descriptors that are non-negative `i32`s.
use unix_ancillary.Base.{ℕ, ◌≡◌, subst, some, List, [], ◌∷◌, ◌++◌, All, All-append, All-split}
use unix_ancillary.System.{Host}
use unix_ancillary.Ancillary.Buffer.{ReceivedMessage}
use unix_ancillary.Ancillary.Buffer.RoundTrip.{IsFd}
use unix_ancillary.Ancillary.Take.Typed.{IsTyped}
use unix_ancillary.Ancillary.Drain.{AncillaryData, scm_rights, messages_next}
use unix_ancillary.Ancillary.Drain.Ledger.{
  Draining, Step, Steps, next_rights, next_credentials, next_fd, drop_rights, drop_iterator,
  rights_next-cons,
}

-- The received messages, the iterators, and the descriptors that the caller took fit their types.
pub record DrainsTypes {h : Host} (d : Draining h) : Type 0 where
  pub pending_typed : All IsTyped d.pending
  pub opened_typed : All (All IsFd) d.opened
  pub handed_typed : All IsFd d.handed

messages_next-typed :
    (ms rest : List ReceivedMessage) (a : AncillaryData)
    → messages_next ms ≡ (some a, rest)
    → All IsTyped ms
    → All IsTyped rest
unfolding messages_next
messages_next-typed [] rest a e all = cc
messages_next-typed (ReceivedMessage.rights fds ∷ ms) rest a e all =
    let same : ms ≡ rest = cc in subst (All IsTyped) same all.1
messages_next-typed (ReceivedMessage.credentials creds ∷ ms) rest a e all =
    let same : ms ≡ rest = cc in subst (All IsTyped) same all.1

messages_next-rights :
    (ms rest : List ReceivedMessage) (owned : List ℕ)
    → messages_next ms ≡ (some (scm_rights owned), rest)
    → All IsTyped ms
    → All IsFd owned
unfolding messages_next
messages_next-rights [] rest owned e all = cc
messages_next-rights (ReceivedMessage.rights fds ∷ ms) rest owned e all =
    let same : fds ≡ owned = cc in subst (All IsFd) same all.0
messages_next-rights (ReceivedMessage.credentials creds ∷ ms) rest owned e all = cc

-- One of the open iterators, and the others.
opened_at :
    (before after : List (List ℕ)) (left : List ℕ) (opened : List (List ℕ))
    → opened ≡ before ++ (left ∷ after)
    → All (All IsFd) opened
    → All (All IsFd) before × All IsFd left × All (All IsFd) after
opened_at before after left opened is all =
    let (front, (one, back)) = All-split _ before (left ∷ after) (subst (All (All IsFd)) is all) in
    (front, one, back)

module _ {h : Host} where
  Step-DrainsTypes : {d e : Draining h} → Step h d e → DrainsTypes d → DrainsTypes e
  Step-DrainsTypes (next_rights {d = d} {owned = owned} {rest = rest} e) t = record {
    pending_typed = messages_next-typed d.pending rest _ e t.pending_typed;
    opened_typed = (messages_next-rights d.pending rest owned e t.pending_typed, t.opened_typed);
    handed_typed = t.handed_typed;
  }
  Step-DrainsTypes (next_credentials {d = d} {rest = rest} e) t = record {
    pending_typed = messages_next-typed d.pending rest _ e t.pending_typed;
    opened_typed = t.opened_typed;
    handed_typed = t.handed_typed;
  }
  Step-DrainsTypes (next_fd {d = d} before after left {rest = rest} {fd = fd} is e) t =
      let (front, one, back) = opened_at before after left d.opened is t.opened_typed in
      let first = subst (All IsFd) (rights_next-cons left rest fd e) one in
      record {
        pending_typed = t.pending_typed;
        opened_typed = All-append _ before (rest ∷ after) front (first.1, back);
        handed_typed = (first.0, t.handed_typed);
      }
  Step-DrainsTypes (drop_rights {d = d} before after left is) t =
      let (front, one, back) = opened_at before after left d.opened is t.opened_typed in
      record {
        pending_typed = t.pending_typed;
        opened_typed = All-append _ before after front back;
        handed_typed = t.handed_typed;
      }
  Step-DrainsTypes drop_iterator t = record {
    pending_typed = tt;
    opened_typed = t.opened_typed;
    handed_typed = t.handed_typed;
  }

  pub Steps-DrainsTypes : {d e : Draining h} → Steps h d e → DrainsTypes d → DrainsTypes e
  Steps-DrainsTypes Steps.done t = t
  Steps-DrainsTypes (Steps.step s rest) t = Steps-DrainsTypes rest (Step-DrainsTypes s t)
