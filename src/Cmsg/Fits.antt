-- ===== src/Cmsg/Fits.antt =====
-- The control length of a completed receive of src/cmsg.rs.
use unix_ancillary.Base.{
  ℕ, subst, ap, zero, suc, ◌≤◌, ◌≡◌, refl, inl, inr, List, length, Bool-cases,
}
use unix_ancillary.Bytes.{Bytes}
use unix_ancillary.Bytes.Octets.{AreBytes}
use unix_ancillary.System.{Host, World, ok, MsgHdr, RecvRet, received, failed, is_interrupted}
use unix_ancillary.Cmsg.{RecvMsgResult, recv_loop, recv_step, recv_result}

-- `recvmsg` never reports more control bytes than the buffer holds.
abbrev pub ControlFits : Host → Type 0
ControlFits h =
    (fd : ℕ) (iov : List Bytes) (buf : Bytes) (flags n : ℕ) (hdr : MsgHdr) (k k' : h.Kernel)
    → h.recvmsg fd iov buf flags k ≡ (received n hdr, k')
    → hdr.controllen ≤ length hdr.control

-- `recvmsg` writes into the control buffer and does not change its length.
abbrev pub ControlFixed : Host → Type 0
ControlFixed h =
    (fd : ℕ) (iov : List Bytes) (buf : Bytes) (flags n : ℕ) (hdr : MsgHdr) (k k' : h.Kernel)
    → h.recvmsg fd iov buf flags k ≡ (received n hdr, k')
    → length hdr.control ≡ length buf

-- `recvmsg` leaves bytes in a control buffer of bytes.
abbrev pub ControlBytes : Host → Type 0
ControlBytes h =
    (fd : ℕ) (iov : List Bytes) (buf : Bytes) (flags n : ℕ) (hdr : MsgHdr) (k k' : h.Kernel)
    → AreBytes buf
    → h.recvmsg fd iov buf flags k ≡ (received n hdr, k')
    → AreBytes hdr.control

module _ (h : Host) (fd : ℕ) (iov : List Bytes) (buf : Bytes) (flags : ℕ) where
  -- A completed loop ends with an answer of `recvmsg`.
  recv_loop_answer :
      (fuel : ℕ) (result : RecvMsgResult) (hdr : MsgHdr) (w w' : World h)
      → recv_loop h fuel fd iov buf flags w ≡ ok (result, hdr) w'
      → (n : ℕ) × (k : h.Kernel) × (k' : h.Kernel) × (h.recvmsg fd iov buf flags k
          ≡ (received n hdr, k'))
        × ((result, hdr) ≡ recv_result h n hdr)
  unfolding recv_loop
  recv_loop_answer zero result hdr w w' e = cc
  recv_loop_answer (suc fuel) result hdr w w' e =
      go (h.recvmsg fd iov buf flags w.kernel) refl e
        (λ k. recv_loop_answer fuel result hdr (record w { kernel = k }) w')
    where
      go :
          (a : RecvRet × h.Kernel)
          → h.recvmsg fd iov buf flags w.kernel ≡ a
          → recv_step h (recv_loop h fuel fd iov buf flags) a w ≡ ok (result, hdr) w'
          → ((k : h.Kernel)
              → recv_loop h fuel fd iov buf flags (record w { kernel = k }) ≡ ok (result, hdr) w'
              → (n : ℕ) × (k₁ : h.Kernel) × (k₂ : h.Kernel) × (h.recvmsg fd iov buf flags k₁
                  ≡ (received n hdr, k₂))
                × ((result, hdr) ≡ recv_result h n hdr))
          → (n : ℕ) × (k₁ : h.Kernel) × (k₂ : h.Kernel) × (h.recvmsg fd iov buf flags k₁
              ≡ (received n hdr, k₂))
            × ((result, hdr) ≡ recv_result h n hdr)
      go (received n got, k) answer d later =
          let same : got ≡ hdr = cc d in
          (
            n,
            w.kernel,
            k,
            subst (λ x. h.recvmsg fd iov buf flags w.kernel ≡ (received n x, k)) same answer,
            subst (λ x. (result, hdr) ≡ recv_result h n x) same (cc d),
          )
      go (failed x, k) answer d later = elim (Bool-cases (is_interrupted (h.target.errno_kind x))) [
        | inl restart ↦ later k (rw restart at d)
        | inr final ↦ cc (rw final at d)
      ]

  -- The control length of a completed receive lies in its buffer.
  pub recv_loop-fits :
      (fuel : ℕ) (result : RecvMsgResult) (hdr : MsgHdr) (w w' : World h)
      → ControlFits h
      → recv_loop h fuel fd iov buf flags w ≡ ok (result, hdr) w'
      → result.ancillary_len ≤ length hdr.control
  recv_loop-fits fuel result hdr w w' law e =
      let (n, k, k', answer, is) = recv_loop_answer fuel result hdr w w' e in
      let len : result.ancillary_len ≡ hdr.controllen = ap (λ r. r.0.ancillary_len) is in
      rw len (law fd iov buf flags n hdr k k' answer)

  -- A completed receive keeps the length of the control buffer.
  pub recv_loop-fixed :
      (fuel : ℕ) (result : RecvMsgResult) (hdr : MsgHdr) (w w' : World h)
      → ControlFixed h
      → recv_loop h fuel fd iov buf flags w ≡ ok (result, hdr) w'
      → length hdr.control ≡ length buf
  recv_loop-fixed fuel result hdr w w' law e =
      let (n, k, k', answer, is) = recv_loop_answer fuel result hdr w w' e in
      law fd iov buf flags n hdr k k' answer

  -- A completed receive leaves bytes in the control buffer.
  pub recv_loop-AreBytes :
      (fuel : ℕ) (result : RecvMsgResult) (hdr : MsgHdr) (w w' : World h)
      → ControlBytes h
      → AreBytes buf
      → recv_loop h fuel fd iov buf flags w ≡ ok (result, hdr) w'
      → AreBytes hdr.control
  recv_loop-AreBytes fuel result hdr w w' law bytes e =
      let (n, k, k', answer, is) = recv_loop_answer fuel result hdr w w' e in
      law fd iov buf flags n hdr k k' bytes answer
