-- ===== src/Cmsg/Retry.antt =====
-- The retry loops of src/cmsg.rs.
use unix_ancillary.Base.{
  ℕ, zero, suc, ◌<◌, ◌≡◌, refl, Bool, true, false, List, [], ◌∷◌, ◌++◌, ◌∙◌, arith, Bool-cases, inl,
  inr,
}
use unix_ancillary.Bytes.{Bytes}
use unix_ancillary.System.{
  Host, World, Exit, ok, err, panic, out_of_fuel, SysRet, ret, errno, RecvRet, received, failed,
  MsgHdr, Sent, os_error, error_kind, is_interrupted,
}
use unix_ancillary.Platform.{send_flags}
use unix_ancillary.Cmsg.{send_loop, send_step, recv_loop, recv_step, recv_result, RecvMsgResult}

module _ (h : Host) where
  -- `sendmsg` is interrupted `n` times from kernel state `k` on and then answers `r` in state `k'`.
  pub data Answers {R : Type 0} (call : h.Kernel → R × h.Kernel) (retry : R → Bool)
      : ℕ → h.Kernel → R → h.Kernel → Type 0 where
    now :
        {k k' : h.Kernel} {r : R}
        → call k ≡ (r, k')
        → retry r ≡ false
        → Answers call retry zero k r k'
    again :
        {n : ℕ} {k k₁ k' : h.Kernel} {i r : R}
        → call k ≡ (i, k₁)
        → retry i ≡ true
        → Answers call retry n k₁ r k'
        → Answers call retry (suc n) k r k'

  abbrev pub send_interrupted : SysRet → Bool
  send_interrupted (ret n) = false
  send_interrupted (errno e) = is_interrupted (h.target.errno_kind e)

  abbrev pub recv_interrupted : RecvRet → Bool
  recv_interrupted (received n hdr) = false
  recv_interrupted (failed e) = is_interrupted (h.target.errno_kind e)

  -- What the loop makes of the kernel's last answer.
  abbrev pub sent_answer : ℕ → List Bytes → Bytes → SysRet → h.Kernel → World h → Exit h ℕ
  sent_answer fd iov control (ret n) k w = ok n (record w {
    kernel = k;
    sent = w.sent ++ (record { socket = fd; payload = iov; control = control; accepted = n } ∷ []);
  })
  sent_answer fd iov control (errno e) k w = err (os_error e) (record w { kernel = k })

  abbrev pub recv_answer : RecvRet → h.Kernel → World h → Exit h (RecvMsgResult × MsgHdr)
  recv_answer (received n hdr) k w = ok (recv_result h n hdr) (record w { kernel = k })
  recv_answer (failed e) k w = err (os_error e) (record w { kernel = k })

  -- The answer does not depend on the state that the call was made in.
  sent_answer-kernel :
      (fd : ℕ) (iov : List Bytes) (control : Bytes) (r : SysRet) (k' k₁ k₂ : h.Kernel) (w : World h)
      → sent_answer fd iov control r k' (record w { kernel = k₁ })
        ≡ sent_answer fd iov control r k' (record w { kernel = k₂ })
  sent_answer-kernel fd iov control (ret n) k' k₁ k₂ w = refl
  sent_answer-kernel fd iov control (errno e) k' k₁ k₂ w = refl

  recv_answer-kernel :
      (r : RecvRet) (k' k₁ k₂ : h.Kernel) (w : World h)
      → recv_answer r k' (record w { kernel = k₁ }) ≡ recv_answer r k' (record w { kernel = k₂ })
  recv_answer-kernel (received n hdr) k' k₁ k₂ w = refl
  recv_answer-kernel (failed e) k' k₁ k₂ w = refl

  -- When sendmsg, called from the world's kernel state, is interrupted n times and then answers
  -- otherwise, and n is below the bound on retries, the loop of sendmsg_vectored ends with that
  -- answer: the bytes accepted and one recorded send, or the error.
  pub send_loop-Answers :
      (fd : ℕ) (iov : List Bytes) (control : Bytes) (fuel n : ℕ) (k k' : h.Kernel) (r : SysRet)
      (w : World h)
      → w.kernel ≡ k
      → n < fuel
      → Answers (h.sendmsg fd iov control (send_flags h.target)) send_interrupted n k r k'
      → send_loop h fuel fd iov control w ≡ sent_answer fd iov control r k' w
  unfolding send_loop
  send_loop-Answers fd iov control zero n k k' r w at f a = elim f [ ]
  send_loop-Answers fd iov control (suc fuel) n k k' (ret m) w at f (now e final) = rw (at, e)
  send_loop-Answers fd iov control (suc fuel) n k k' (errno x) w at f (now e final) =
      rw (at, e, final)
  send_loop-Answers fd iov control (suc fuel) n k k' r w at f (again {i = ret m} e stop a) = cc
  send_loop-Answers fd iov control (suc fuel) n k k' r w at f
        (again {n = j} {k₁ = k₁} {i = errno x} e more a) =
      rw (at, e, more)
        (send_loop-Answers fd iov control fuel j k₁ k' r (record w { kernel = k₁ }) refl
            (omega arith) a
          ∙ sent_answer-kernel fd iov control r k' k₁ k w)

  -- When recvmsg, called from the world's kernel state, is interrupted n times and then answers
  -- otherwise, and n is below the bound on retries, the loop of recvmsg_raw ends with that answer:
  -- the result read off the msghdr, or the error, WouldBlock included.
  pub recv_loop-Answers :
      (fd : ℕ) (iov : List Bytes) (buf : Bytes) (flags fuel n : ℕ) (k k' : h.Kernel) (r : RecvRet)
      (w : World h)
      → w.kernel ≡ k
      → n < fuel
      → Answers (h.recvmsg fd iov buf flags) recv_interrupted n k r k'
      → recv_loop h fuel fd iov buf flags w ≡ recv_answer r k' w
  unfolding recv_loop
  recv_loop-Answers fd iov buf flags zero n k k' r w at f a = elim f [ ]
  recv_loop-Answers fd iov buf flags (suc fuel) n k k' (received m hdr) w at f (now e final) =
      rw (at, e)
  recv_loop-Answers fd iov buf flags (suc fuel) n k k' (failed x) w at f (now e final) =
      rw (at, e, final)
  recv_loop-Answers fd iov buf flags (suc fuel) n k k' r w at f
        (again {i = received m hdr} e stop a) =
      cc
  recv_loop-Answers fd iov buf flags (suc fuel) n k k' r w at f
        (again {n = j} {k₁ = k₁} {i = failed x} e more a) =
      rw (at, e, more)
        (recv_loop-Answers fd iov buf flags fuel j k₁ k' r (record w { kernel = k₁ }) refl
            (omega arith) a
          ∙ recv_answer-kernel r k' k₁ k w)

  -- What the loop of `sendmsg` can end in: an error is not an interruption, nothing is closed, and
  -- exactly one send is recorded on success, with what the kernel accepted.
  abbrev pub SendEnds :
      ℕ → List Bytes → Bytes → (closed : List ℕ) → (sent : List Sent) → Exit h ℕ → Type 0
  SendEnds fd iov control closed sent (ok n w) =
      (w.closed ≡ closed)
      × (w.sent
          ≡ sent ++ (record { socket = fd; payload = iov; control = control; accepted = n } ∷ []))
  SendEnds fd iov control closed sent (err e w) =
      (is_interrupted (error_kind h.target e) ≡ false) × (w.closed ≡ closed) × (w.sent ≡ sent)
  SendEnds fd iov control closed sent (panic w) = ⊥
  SendEnds fd iov control closed sent out_of_fuel = Unit {0}

  -- For every bound, an error that the loop of sendmsg_vectored reports is not an interruption and
  -- comes with nothing sent, a success comes with exactly one recorded send of these iovecs and
  -- control bytes, the loop does not panic, and nothing is closed. A run that exceeds the bound is
  -- not constrained.
  pub send_loop-SendEnds :
      (fd : ℕ) (iov : List Bytes) (control : Bytes) (fuel : ℕ) (w : World h)
      → SendEnds fd iov control w.closed w.sent (send_loop h fuel fd iov control w)
  unfolding send_loop
  send_loop-SendEnds fd iov control zero w = tt
  send_loop-SendEnds fd iov control (suc fuel) w =
      go (h.sendmsg fd iov control (send_flags h.target) w.kernel)
        (λ k. send_loop-SendEnds fd iov control fuel (record w { kernel = k }))
    where
      go :
          (a : SysRet × h.Kernel)
          → ((k : h.Kernel)
              → SendEnds fd iov control w.closed w.sent
                  (send_loop h fuel fd iov control (record w { kernel = k })))
          → SendEnds fd iov control w.closed w.sent
              (send_step h (send_loop h fuel fd iov control) fd iov control a w)
      go (ret n, k) later = (refl, refl)
      go (errno e, k) later = elim (Bool-cases (is_interrupted (h.target.errno_kind e))) [
        | inl restart ↦ rw restart (later k)
        | inr final ↦ rw final (final, refl, refl)
      ]

  -- What the loop of `recvmsg` can end in: nothing is closed or sent, and an error is not an
  -- interruption.
  abbrev pub RecvEnds : {A : Type 0} → (closed : List ℕ) → (sent : List Sent) → Exit h A → Type 0
  RecvEnds closed sent (ok a w) = (w.closed ≡ closed) × (w.sent ≡ sent)
  RecvEnds closed sent (err e w) =
      (is_interrupted (error_kind h.target e) ≡ false) × (w.closed ≡ closed) × (w.sent ≡ sent)
  RecvEnds closed sent (panic w) = ⊥
  RecvEnds closed sent out_of_fuel = Unit {0}

  pub recv_loop-RecvEnds :
      (fd : ℕ) (iov : List Bytes) (buf : Bytes) (flags fuel : ℕ) (w : World h)
      → RecvEnds w.closed w.sent (recv_loop h fuel fd iov buf flags w)
  unfolding recv_loop
  recv_loop-RecvEnds fd iov buf flags zero w = tt
  recv_loop-RecvEnds fd iov buf flags (suc fuel) w =
      go (h.recvmsg fd iov buf flags w.kernel)
        (λ k. recv_loop-RecvEnds fd iov buf flags fuel (record w { kernel = k }))
    where
      go :
          (a : RecvRet × h.Kernel)
          → ((k : h.Kernel)
              → RecvEnds w.closed w.sent
                  (recv_loop h fuel fd iov buf flags (record w { kernel = k })))
          → RecvEnds w.closed w.sent (recv_step h (recv_loop h fuel fd iov buf flags) a w)
      go (received n hdr, k) later = (refl, refl)
      go (failed e, k) later = elim (Bool-cases (is_interrupted (h.target.errno_kind e))) [
        | inl restart ↦ rw restart (later k)
        | inr final ↦ rw final (final, refl, refl)
      ]
