-- ===== src/Ext/Stream/Delivers.antt =====
-- `send_fds_all` of src/ext.rs against a kernel that goes on accepting bytes.
use unix_ancillary.Base.{
  ℕ, zero, suc, ◌+◌, ◌-◌, ◌*◌, ◌≤◌, ◌<◌, ◌≡◌, refl, sym, subst, ◌⊎◌, inl, inr, not, false, ◌&&◌,
  List, [], ◌∷◌, ◌++◌, drop, length, Bool-cases, if◌then◌else◌, arith, All, ltb, ◌==◌, some,
}
use unix_ancillary.Bytes.{Bytes}
use unix_ancillary.Target.{IsTarget, TargetOs, i32_max}
use unix_ancillary.System.{
  Host, World, Run, Exit, ok, err, panic, out_of_fuel, Sent, SysRet, ret, and_then,
}
use unix_ancillary.System.Quiet.{and_then_assoc}
use unix_ancillary.Platform.{send_flags, prepare_send, checked_nosigpipe}
use unix_ancillary.Ancillary.Layout.{buffer_size_for_rights, checked_mul, cmsg_space}
use unix_ancillary.Ancillary.Buffer.Fits.{buffer_size_for_rights_enough}
use unix_ancillary.Ancillary.Buffer.RoundTrip.{IsFd}
use unix_ancillary.Cmsg.{passed_control, send_loop, sendmsg_vectored, send_bytes}
use unix_ancillary.Cmsg.Retry.{Answers, send_interrupted, send_loop-Answers}
use unix_ancillary.Ext.{send_fds_vectored_impl, send_fds_impl, validate_stream_send}
use unix_ancillary.Ext.Control.{control_storage-replicate}
use unix_ancillary.Ext.Stream.{after_send, write_zero, send_rest, send_first, send_fds_all}
use unix_ancillary.Ext.Stream.Complete.{Carries, accepted, Completes, send_fds_all-Completes}

-- Every send is accepted with at least one byte after fewer interruptions than the bound on retries,
-- and socket options can be set.
pub record Willing (h : Host) : Type 0 where
  pub accepts :
      (fd : ℕ) (iov : List Bytes) (control : Bytes) (k : h.Kernel)
      → (n : ℕ) × (m : ℕ) × (k' : h.Kernel) × (n < h.retries)
        × Answers h
            (h.sendmsg fd iov control (send_flags h.target))
            (send_interrupted h)
            n
            k
            (ret (suc m))
            k'
  pub options :
      (fd level option value : ℕ) (k : h.Kernel)
      → (n : ℕ) × (k' : h.Kernel) × (h.setsockopt fd level option value k ≡ (ret n, k'))

module _ {h : Host} where
  abbrev Succeeds : {A : Type 0} → Exit h A → Type 0
  Succeeds (ok a w) = Unit {0}
  Succeeds _ = ⊥

  -- At least one byte was accepted.
  abbrev Progresses : Exit h ℕ → Type 0
  Progresses (ok (suc n) w) = Unit {0}
  Progresses _ = ⊥

  then-Succeeds :
      {B : Type 0} (r : Exit h ℕ) (f : ℕ → Run h B)
      → Progresses r
      → ((n : ℕ) (w : World h) → Succeeds (f (suc n) w))
      → Succeeds (and_then r f)
  then-Succeeds (ok (suc n) w) f q g = g n w
  then-Succeeds (ok zero w) f q g = absurd q
  then-Succeeds (err e w) f q g = absurd q
  then-Succeeds (panic w) f q g = absurd q
  then-Succeeds out_of_fuel f q g = absurd q

module _ (h : Host) (will : Willing h) (fd : ℕ) where
  send_loop-Progresses :
      (iov : List Bytes) (control : Bytes) (w : World h)
      → Progresses (send_loop h h.retries fd iov control w)
  send_loop-Progresses iov control w =
      let (n, m, k', few, a) = will.accepts fd iov control w.kernel in
      subst Progresses
        (sym
          (send_loop-Answers h fd iov control h.retries n w.kernel k' (ret (suc m)) w refl few a))
        tt

  sendmsg_vectored-Progresses :
      (iov : List Bytes) (buf : Bytes) (n : ℕ) (w : World h)
      → Progresses (sendmsg_vectored h fd iov buf n w)
  unfolding sendmsg_vectored prepare_send
  sendmsg_vectored-Progresses iov buf n w = go h.target.target_os
    where
      control : Bytes
      control = passed_control h.target buf n

      apple :
          (a : SysRet × h.Kernel) (m : ℕ) (k : h.Kernel)
          → a ≡ (ret m, k)
          → Progresses
              (and_then (checked_nosigpipe h a w) (λ _. send_loop h h.retries fd iov control))
      apple a m k is = rw is (send_loop-Progresses iov control (record w { kernel = k }))

      go :
          (o : TargetOs)
          → Progresses (
              and_then
                (elim o [
                  | TargetOs.apple ↦
                      checked_nosigpipe h
                        (h.setsockopt fd h.target.sol_socket h.target.so_nosigpipe 1 w.kernel)
                        w
                  | _ ↦ ok tt w
                ])
                (λ _. send_loop h h.retries fd iov control))
      go TargetOs.linux = send_loop-Progresses iov control w
      go TargetOs.bsd = send_loop-Progresses iov control w
      go TargetOs.apple =
          let (m, k, is) = will.options fd h.target.sol_socket h.target.so_nosigpipe 1 w.kernel in
          apple _ m k is
      go TargetOs.other_unix = send_loop-Progresses iov control w

  send_fds_impl-Progresses :
      (payload : Bytes) (first : ℕ) (rest : List ℕ) (w : World h)
      → IsTarget h.target
      → length (first ∷ rest) * 4 ≤ i32_max
      → Progresses (send_fds_impl h fd payload (first ∷ rest) w)
  unfolding send_fds_impl send_fds_vectored_impl
  send_fds_impl-Progresses payload first rest w v few =
      let size : ℕ = h.target.libc_cmsg_space (length (first ∷ rest) * 4) in
      let sized : buffer_size_for_rights h.target (length (first ∷ rest)) ≡ some size =
        unfold buffer_size_for_rights checked_mul cmsg_space in ground (arith, v.usize_wide, few) in
      let (a, added) = buffer_size_for_rights_enough h.target first rest size v sized in
      rw (sized, control_storage-replicate h.uninit size, added)
        (sendmsg_vectored-Progresses (payload ∷ []) a.buffer a.filled w)

  send_rest-Succeeds :
      (fuel : ℕ) (payload : Bytes) (at : ℕ) (w : World h)
      → length payload - at < fuel
      → Succeeds (send_rest h fuel fd payload at w)
  unfolding send_rest send_bytes
  send_rest-Succeeds zero payload at w rounds = absurd (omega arith)
  send_rest-Succeeds (suc fuel) payload at w rounds = elim (Bool-cases (ltb at (length payload))) [
    | inr done ↦ rw done tt
    | inl more ↦ rw more (
        then-Succeeds (send_bytes h fd (drop at payload) w)
          (after_send h (send_rest h fuel fd payload) at)
          (sendmsg_vectored-Progresses (drop at payload ∷ []) [] 0 w)
          λ n u.
            after n u (ground arith) (λ less. send_rest-Succeeds fuel payload (at + suc n) u less))
  ]
    where
      after :
          (n : ℕ) (u : World h)
          → at < length payload
          → (length payload - (at + suc n) < fuel
              → Succeeds (send_rest h fuel fd payload (at + suc n) u))
          → Succeeds (after_send h (send_rest h fuel fd payload) at (suc n) u)
      after n u more later =
          let positive : (suc n == 0) ≡ false = ground arith in
          rw positive (later (omega (arith, rounds)))

  send_fds_all-Succeeds :
      (payload : Bytes) (fds : List ℕ) (w : World h)
      → IsTarget h.target
      → length fds * 4 ≤ i32_max
      → (length fds ≡ 0) ⊎ (0 < length payload)
      → Succeeds (send_fds_all h fd payload fds w)
  unfolding send_fds_all validate_stream_send send_first
  send_fds_all-Succeeds payload [] w v few some_byte =
      let passes : ((length payload == 0) && not (0 == 0)) ≡ false = ground arith in
      rw passes (send_rest-Succeeds (suc (length payload)) payload 0 w (omega arith))
  send_fds_all-Succeeds payload (first ∷ rest) w v few some_byte =
      let passes : ((length payload == 0) && not (suc (length rest) == 0)) ≡ false = ground arith in
      rw
        (
          passes,
          and_then_assoc (send_fds_impl h fd payload (first ∷ rest) w)
              (λ n. if n == 0 then write_zero h else ok n) _,
        )
        (then-Succeeds (send_fds_impl h fd payload (first ∷ rest) w) _
          (send_fds_impl-Progresses payload first rest w v few)
          λ n u.
            let positive : (suc n == 0) ≡ false = ground arith in
            rw positive (send_rest-Succeeds (suc (length payload)) payload (suc n) u (omega arith)))

module _ (h : Host) (fd : ℕ) (payload : Bytes) (fds : List ℕ) (closed : List ℕ)
    (sent : List Sent) where
  -- It returns, with success, and everything was sent.
  abbrev pub Delivers : Exit h (Unit {0}) → Type 0
  Delivers (ok u w) =
      (new : List Sent) × (w.sent ≡ sent ++ new)
      × Carries h fd payload fds 0 new
      × (length payload ≤ 0 + accepted h fd payload new)
      × (w.closed ≡ closed)
  Delivers _ = ⊥

  both-Delivers :
      (r : Exit h (Unit {0})) → Succeeds r → Completes h fd payload fds 0 closed sent r → Delivers r
  both-Delivers (ok u w) q c = c
  both-Delivers (err e w) q c = q
  both-Delivers (panic w) q c = q
  both-Delivers out_of_fuel q c = q

-- On a target whose constants obey IsTarget, with a kernel that accepts at least one byte of every
-- send after fewer interruptions than the bound on retries and lets socket options be set, for
-- descriptors that are non-negative i32 values and whose 4-byte numbers together fit i32::MAX
-- bytes, and with at least one payload byte if there are descriptors, send_fds_all returns with
-- success, has sent the whole payload in order, the descriptors with the first send only, and
-- closed nothing.
pub send_fds_all-Delivers :
    (h : Host) (fd : ℕ) (payload : Bytes) (fds : List ℕ) (w : World h)
    → IsTarget h.target
    → Willing h
    → All IsFd fds
    → length fds * 4 ≤ i32_max
    → (length fds ≡ 0) ⊎ (0 < length payload)
    → Delivers h fd payload fds w.closed w.sent (send_fds_all h fd payload fds w)
send_fds_all-Delivers h fd payload fds w v will small few some_byte =
    both-Delivers h fd payload fds w.closed w.sent _
      (send_fds_all-Succeeds h will fd payload fds w v few some_byte)
      (send_fds_all-Completes h fd payload fds w v small)
