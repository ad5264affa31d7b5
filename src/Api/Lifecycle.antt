-- ===== src/Api/Lifecycle.antt =====
-- The life of one `SocketAncillary`: every public operation on it of src/ancillary.rs and src/lib.rs,
-- in any order, with the calls of other code in between.
pub mod Sound
pub mod Bags
pub mod Typed
use unix_ancillary.Base.{ℕ, ◌≡◌, List, [], ◌++◌, ◌∷◌}
use unix_ancillary.Base.Results.{Result}
use unix_ancillary.Bytes.{Bytes}
use unix_ancillary.System.{Host, World, ok, err, IoError}
use unix_ancillary.Ancillary.Raw.{RawMessage, ScmCredentials}
use unix_ancillary.Ancillary.Buffer.{SocketAncillary, new, add_fds, add_credentials}
use unix_ancillary.Ancillary.Buffer.Append.{appended, credentials_message}
use unix_ancillary.Ancillary.Drain.{clear, messages, drop_messages}
use unix_ancillary.Ancillary.Drain.Ledger.{Draining, Steps}
use unix_ancillary.Api.{Outcome, cmsg_sendmsg, cmsg_recvmsg, cmsg_recvmsg_peek}
use unix_ancillary.Api.Tally.{installed}

-- The storage and the world, and beside them what the specification speaks of: the messages added
-- for the next send, the descriptors that the kernel installed, and those that the caller took.
pub record Life (h : Host) : Type 0 where
  pub storage : SocketAncillary
  pub world : World h
  pub built : List RawMessage
  pub arrived : List ℕ
  pub taken : List ℕ

module _ (h : Host) where
  abbrev pub born : Bytes → World h → Life h
  born buffer w = record { storage = new buffer; world = w; built = []; arrived = []; taken = [] }

  -- Dropping the storage drops the messages that it still holds.
  abbrev pub dropped : Life h → World h
  dropped p = drop_messages h p.storage.received p.world

  -- The iterators over the messages of the storage, before anything is read from them.
  abbrev pub undrained : Life h → Draining h
  undrained p = record {
    pending = (messages p.storage).0;
    opened = [];
    handed = p.taken;
    world = p.world;
  }

  -- After a low-level receive.
  abbrev pub refilled : Life h → (extra : List ℕ) → Outcome → World h → Life h
  refilled p extra o u = record p {
    storage = o.ancillary;
    world = u;
    built = [];
    arrived = p.arrived ++ extra;
  }

  -- One call that returns. A failed addition leaves the storage as it was.
  pub data Op : Life h → Life h → Type 0 where
    add_fds_op :
        {p : Life h} (fds : List ℕ) {b : SocketAncillary}
        → add_fds h.target p.storage fds ≡ Result.ok b
        → Op p (record p { storage = b; built = p.built ++ appended h.target fds })
    add_credentials_op :
        {p : Life h} (creds : ScmCredentials) {b : SocketAncillary}
        → add_credentials h.target p.storage creds ≡ Result.ok b
        → Op p
            (record p { storage = b; built = p.built ++ (credentials_message h.target creds ∷ []) })
    clear_op :
        {p : Life h}
        → Op p (record p {
          storage = (clear h p.storage p.world).0;
          world = (clear h p.storage p.world).1;
          built = [];
        })
    -- The iterators are read in any way, and dropped before the storage can be used again.
    messages_op :
        {p : Life h} (d : Draining h)
        → Steps h (undrained p) d
        → d.pending ≡ []
        → d.opened ≡ []
        → Op p (record p { storage = (messages p.storage).1; world = d.world; taken = d.handed })
    sendmsg_ok :
        {p : Life h} (fd : ℕ) (iov : List Bytes) {n : ℕ} {u : World h}
        → cmsg_sendmsg h fd iov p.storage p.world ≡ ok n u
        → Op p (record p { world = u })
    sendmsg_err :
        {p : Life h} (fd : ℕ) (iov : List Bytes) {e : IoError} {u : World h}
        → cmsg_sendmsg h fd iov p.storage p.world ≡ err e u
        → Op p (record p { world = u })
    recvmsg_op :
        {p : Life h} (fd : ℕ) (iov : List Bytes) {o : Outcome} {u : World h}
        → cmsg_recvmsg h fd iov p.storage p.world ≡ ok o u
        → Op p (refilled p (installed h fd iov p.storage 0 p.world) o u)
    recvmsg_peek_op :
        {p : Life h} (fd : ℕ) (iov : List Bytes) {o : Outcome} {u : World h}
        → cmsg_recvmsg_peek h fd iov p.storage p.world ≡ ok o u
        → Op p (refilled p (installed h fd iov p.storage h.target.msg_peek p.world) o u)
    elsewhere :
        {p : Life h} (k : h.Kernel) → Op p (record p { world = record p.world { kernel = k } })

  pub data Ops : Life h → Life h → Type 0 where
    done : {p : Life h} → Ops p p
    more : {p q r : Life h} → Ops p q → Op q r → Ops p r
