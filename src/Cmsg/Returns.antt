-- ===== src/Cmsg/Returns.antt =====
-- The retry loops of src/cmsg.rs within the bound on retries.
use unix_ancillary.Base.{ℕ, ◌<◌, ◌≡◌, refl, sym, subst, List, Option, none, some, bit_or}
use unix_ancillary.Bytes.{Bytes}
use unix_ancillary.Target.{TargetOs}
use unix_ancillary.System.{
  Host, World, Run, Exit, ok, err, panic, out_of_fuel, SysRet, ret, errno, RecvRet, received,
  failed, Sent, and_then, or_panic,
}
use unix_ancillary.System.Quiet.{Quiet}
use unix_ancillary.Platform.{send_flags, prepare_send, checked_nosigpipe, recv_flags}
use unix_ancillary.Cmsg.{send_loop, sendmsg_vectored, recvmsg_raw}
use unix_ancillary.Cmsg.Retry.{
  Answers, send_interrupted, recv_interrupted, sent_answer, recv_answer, send_loop-Answers,
  recv_loop-Answers,
}

-- Every `sendmsg` and `recvmsg` is interrupted less often in a row than the bound on retries.
pub record Settles (h : Host) : Type 0 where
  pub sends :
      (fd : ℕ) (iov : List Bytes) (control : Bytes) (k : h.Kernel)
      → (n : ℕ) × (r : SysRet) × (k' : h.Kernel) × (n < h.retries)
        × Answers h (h.sendmsg fd iov control (send_flags h.target)) (send_interrupted h) n k r k'
  pub receives :
      (fd : ℕ) (iov : List Bytes) (buf : Bytes) (flags : ℕ) (k : h.Kernel)
      → (n : ℕ) × (r : RecvRet) × (k' : h.Kernel) × (n < h.retries)
        × Answers h (h.recvmsg fd iov buf flags) (recv_interrupted h) n k r k'

module _ {h : Host} where
  -- The run ends within the bounds.
  abbrev pub Returns : {A : Type 0} → Exit h A → Type 0
  Returns (ok a w) = Unit {0}
  Returns (err e w) = Unit {0}
  Returns (panic w) = Unit {0}
  Returns out_of_fuel = ⊥

  pub and_then-Returns :
      {A B : Type 0} (r : Exit h A) (f : A → Run h B)
      → Returns r
      → ((a : A) (w : World h) → r ≡ ok a w → Returns (f a w))
      → Returns (and_then r f)
  and_then-Returns (ok a w) f q g = g a w refl
  and_then-Returns (err e w) f q g = tt
  and_then-Returns (panic w) f q g = tt
  and_then-Returns out_of_fuel f q g = absurd q

  pub or_panic-Returns : {A : Type 0} (o : Option A) (w : World h) → Returns (or_panic o w)
  or_panic-Returns none w = tt
  or_panic-Returns (some a) w = tt

  pub Quiet-Returns :
      {A : Type 0} (closed : List ℕ) (sent : List Sent) (r : Exit h A)
      → Quiet closed sent r
      → Returns r
  Quiet-Returns closed sent (ok a w) q = tt
  Quiet-Returns closed sent (err e w) q = tt
  Quiet-Returns closed sent (panic w) q = tt
  Quiet-Returns closed sent out_of_fuel q = q

module _ (h : Host) (s : Settles h) where
  send_loop-Returns :
      (fd : ℕ) (iov : List Bytes) (control : Bytes) (w : World h)
      → Returns (send_loop h h.retries fd iov control w)
  send_loop-Returns fd iov control w =
      let (n, r, k', few, a) = s.sends fd iov control w.kernel in
      subst Returns
        (sym (send_loop-Answers h fd iov control h.retries n w.kernel k' r w refl few a))
        (answered r k')
    where
      answered : (r : SysRet) (k : h.Kernel) → Returns (sent_answer h fd iov control r k w)
      answered (ret n) k = tt
      answered (errno e) k = tt

  pub recvmsg_raw-Returns :
      (fd : ℕ) (iov : List Bytes) (buf : Bytes) (extra_flags : ℕ) (w : World h)
      → Returns (recvmsg_raw h fd iov buf extra_flags w)
  unfolding recvmsg_raw
  recvmsg_raw-Returns fd iov buf extra_flags w =
      let flags = bit_or (recv_flags h.target) extra_flags in
      let (n, r, k', few, a) = s.receives fd iov buf flags w.kernel in
      subst Returns
        (sym (recv_loop-Answers h fd iov buf flags h.retries n w.kernel k' r w refl few a))
        (answered r k')
    where
      answered : (r : RecvRet) (k : h.Kernel) → Returns (recv_answer h r k w)
      answered (received n hdr) k = tt
      answered (failed e) k = tt

  prepare_send-Returns : (fd : ℕ) (w : World h) → Returns (prepare_send h fd w)
  unfolding prepare_send
  prepare_send-Returns fd w = go h.target.target_os
    where
      checked : (a : SysRet × h.Kernel) → Returns (checked_nosigpipe h a w)
      checked (ret n, k) = tt
      checked (errno e, k) = tt

      go :
          (o : TargetOs)
          → Returns (elim o [
            | TargetOs.apple ↦
                checked_nosigpipe h
                  (h.setsockopt fd h.target.sol_socket h.target.so_nosigpipe 1 w.kernel)
                  w
            | _ ↦ ok tt w
          ])
      go TargetOs.linux = tt
      go TargetOs.bsd = tt
      go TargetOs.apple =
          checked (h.setsockopt fd h.target.sol_socket h.target.so_nosigpipe 1 w.kernel)
      go TargetOs.other_unix = tt

  pub sendmsg_vectored-Returns :
      (fd : ℕ) (iov : List Bytes) (buf : Bytes) (n : ℕ) (w : World h)
      → Returns (sendmsg_vectored h fd iov buf n w)
  unfolding sendmsg_vectored
  sendmsg_vectored-Returns fd iov buf n w =
      and_then-Returns (prepare_send h fd w) _ (prepare_send-Returns fd w)
        λ a u e. send_loop-Returns fd iov _ u
