-- ===== src/Ext/Send.antt =====
-- One send with descriptors (`send_fds_vectored_impl` of src/ext.rs): what is handed to the kernel.
use unix_ancillary.Base.{
  ℕ, zero, suc, ◌≤◌, ◌<◌, ◌*◌, ◌^◌, ◌%◌, length-replicate, ◌≡◌, refl, ap, ◌∙◌, List, [], ◌∷◌, ◌++◌,
  take, length, Option, none, some, arith, All, append-nil, lt→ltb,
}
use unix_ancillary.Base.Results.{Result}
use unix_ancillary.Bytes.{Bytes}
use unix_ancillary.Target.{Target, IsTarget, TargetOs}
use unix_ancillary.System.{
  Host, World, Exit, ok, err, panic, out_of_fuel, Sent, SysRet, ret, errno, and_then, or_panic,
  ◌>>=◌,
}
use unix_ancillary.Platform.{prepare_send, checked_nosigpipe}
use unix_ancillary.Ancillary.Layout.{buffer_size_for_rights, checked_mul, cmsg_space_inv}
use unix_ancillary.Ancillary.Raw.{rights}
use unix_ancillary.Ancillary.Raw.Parse.{raw_messages}
use unix_ancillary.Ancillary.Take.Owned.{delivered}
use unix_ancillary.Ancillary.Buffer.{SocketAncillary, AncillaryError, new, add_rights}
use unix_ancillary.Ancillary.Buffer.Encode.{raw_messages-encode_all}
use unix_ancillary.Ancillary.Buffer.Refine.{Holds}
use unix_ancillary.Ancillary.Buffer.Append.{add_rights-Holds, appended, rights_message}
use unix_ancillary.Ancillary.Buffer.RoundTrip.{raw_messages-Holds, rights-rights_message, IsFd}
use unix_ancillary.Ancillary.Buffer.Capacity.{add_rights-Extends}
use unix_ancillary.Ext.Control.{control_storage-replicate}
use unix_ancillary.Cmsg.{passed_control, sendmsg_vectored, send_loop}
use unix_ancillary.Cmsg.Retry.{SendEnds, send_loop-SendEnds}
use unix_ancillary.Ext.{send_fds_vectored_impl, or_invalid_input, control_storage, with_control}

pub new-Holds : (h : Host) (buf : Bytes) → Holds h.target (new buf) []
unfolding new
new-Holds h buf = record {
  sending = refl;
  nothing_received = refl;
  inside = omega arith;
  encoded = refl;
  encodable = tt;
}

module _ (h : Host) (fd : ℕ) (iov : List Bytes) (fds : List ℕ) where
  -- A send either hands the kernel the payload with control bytes that decode to exactly these
  -- descriptors, once, or sends nothing. Nothing is closed.
  abbrev pub Sends : (closed : List ℕ) → (sent : List Sent) → Exit h ℕ → Type 0
  Sends closed sent (ok n w) =
      (control : Bytes) × (w.sent
        ≡ sent ++ (record { socket = fd; payload = iov; control = control; accepted = n } ∷ []))
      × (delivered h.target (raw_messages h.target control) ≡ fds)
      × (w.closed ≡ closed)
  Sends closed sent (err e w) = (w.closed ≡ closed) × (w.sent ≡ sent)
  Sends closed sent (panic w) = (w.closed ≡ closed) × (w.sent ≡ sent)
  Sends closed sent out_of_fuel = Unit {0}

  from_send_loop :
      (control : Bytes) (closed : List ℕ) (sent : List Sent)
      → delivered h.target (raw_messages h.target control) ≡ fds
      → (r : Exit h ℕ) → SendEnds h fd iov control closed sent r
      → Sends closed sent r
  from_send_loop control closed sent d (ok n w) q = (control, q.1, d, q.0)
  from_send_loop control closed sent d (err e w) q = (q.1, q.2)
  from_send_loop control closed sent d (panic w) q = absurd q
  from_send_loop control closed sent d out_of_fuel q = tt

  prepared :
      (control : Bytes) (w : World h)
      → delivered h.target (raw_messages h.target control) ≡ fds
      → Sends w.closed w.sent
          (and_then (prepare_send h fd w) (λ _. send_loop h h.retries fd iov control))
  unfolding prepare_send
  prepared control w d = go h.target.target_os
    where
      looped :
          (k : h.Kernel)
          → Sends w.closed w.sent (send_loop h h.retries fd iov control (record w { kernel = k }))
      looped k =
          from_send_loop control w.closed w.sent d _
            (send_loop-SendEnds h fd iov control h.retries (record w { kernel = k }))

      apple :
          (a : SysRet × h.Kernel)
          → Sends w.closed w.sent
              (and_then (checked_nosigpipe h a w) (λ _. send_loop h h.retries fd iov control))
      apple (ret n, k) = looped k
      apple (errno e, k) = (refl, refl)

      go :
          (o : TargetOs)
          → Sends w.closed w.sent (
              and_then
                (elim o [
                  | TargetOs.apple ↦
                      checked_nosigpipe h
                        (h.setsockopt fd h.target.sol_socket h.target.so_nosigpipe 1 w.kernel)
                        w
                  | _ ↦ ok tt w
                ])
                (λ _. send_loop h h.retries fd iov control))
      go TargetOs.linux = looped w.kernel
      go TargetOs.bsd = looped w.kernel
      go TargetOs.apple =
          apple (h.setsockopt fd h.target.sol_socket h.target.so_nosigpipe 1 w.kernel)
      go TargetOs.other_unix = looped w.kernel

  pub sendmsg_vectored-Sends :
      (ancillary_buf : Bytes) (n : ℕ) (w : World h)
      → delivered h.target (raw_messages h.target (passed_control h.target ancillary_buf n)) ≡ fds
      → Sends w.closed w.sent (sendmsg_vectored h fd iov ancillary_buf n w)
  unfolding sendmsg_vectored
  sendmsg_vectored-Sends ancillary_buf n w d =
      prepared (passed_control h.target ancillary_buf n) w d

-- A length that `msg_controllen` can hold is passed as it is.
pub passed_control-take :
    (t : Target) (buf : Bytes) (n : ℕ)
    → n < 2 ^ t.controllen_bits
    → passed_control t buf n ≡ take n buf
passed_control-take t buf zero h = refl
passed_control-take t buf (suc n) h =
    let same : suc n % 2 ^ t.controllen_bits ≡ suc n = grind arith in
    rw (lt→ltb 0 (suc n) (omega arith), same) refl

-- The messages built in a buffer of the computed size are not too long for `msg_controllen`.
filled_bound :
    (t : Target) (uninit : Bytes) (fds : List ℕ) (size : ℕ) (a : SocketAncillary)
    → IsTarget t
    → buffer_size_for_rights t (length fds) ≡ some size
    → add_rights t (new (control_storage uninit size)) fds ≡ Result.ok a
    → a.filled ≤ length a.buffer
    → a.filled < 2 ^ t.controllen_bits
unfolding new buffer_size_for_rights checked_mul
filled_bound t uninit fds size a v is_size added inside =
    let (short, is) = cmsg_space_inv t (length fds * 4) size (ground arith) in
    let kept = add_rights-Extends t (new (control_storage uninit size)) a fds added in
    omega (
      arith,
      inside,
      kept.same_length,
      ap length (control_storage-replicate uninit size),
      length-replicate {A = ℕ} size 0,
      is,
      v.space_c_uint (length fds * 4) short,
      v.controllen_wide,
    )

delivered-appended :
    (h : Host) (first : ℕ) (rest : List ℕ)
    → All IsFd (first ∷ rest)
    → delivered h.target (appended h.target (first ∷ rest)) ≡ first ∷ rest
delivered-appended h first rest small =
    let back = rights-rights_message h.target (first ∷ rest) small in
    ground (arith, back, append-nil (rights h.target (rights_message h.target (first ∷ rest))))

-- On a target whose constants obey IsTarget, for descriptors that are non-negative i32 values,
-- send_fds_vectored_impl on success has made one accepted send of these iovecs, with control bytes
-- from which the parser and take_fds deliver exactly these descriptors in order; on an error or a
-- panic it has sent nothing; it closes nothing. A run that exceeds the bound on retries is not
-- constrained.
pub send_fds_vectored_impl-Sends :
    (h : Host) (fd : ℕ) (iov : List Bytes) (fds : List ℕ) (w : World h)
    → IsTarget h.target
    → All IsFd fds
    → Sends h fd iov fds w.closed w.sent (send_fds_vectored_impl h fd iov fds w)
unfolding send_fds_vectored_impl
send_fds_vectored_impl-Sends h fd iov [] w v small =
    sendmsg_vectored-Sends h fd iov [] [] 0 w
      (ap (delivered h.target) (raw_messages-encode_all h.target [] v tt))
send_fds_vectored_impl-Sends h fd iov (first ∷ rest) w v small =
    sized (buffer_size_for_rights h.target (suc (length rest))) refl
  where
    added :
        (size : ℕ) (r : Result SocketAncillary AncillaryError)
        → buffer_size_for_rights h.target (length (first ∷ rest)) ≡ some size
        → add_rights h.target (new (control_storage h.uninit size)) (first ∷ rest) ≡ r
        → Sends h fd iov
            (first ∷ rest)
            w.closed
            w.sent
            (and_then (or_invalid_input h r w) (λ a. sendmsg_vectored h fd iov a.buffer a.filled))
    added size (Result.err e) is_size is = (refl, refl)
    added size (Result.ok a) is_size is =
        let buf = control_storage h.uninit size in
        let held = add_rights-Holds h.target v (new buf) [] (new-Holds h buf) (first ∷ rest) a is in
        sendmsg_vectored-Sends h fd iov (first ∷ rest) a.buffer a.filled w (
          ap (λ bs. delivered h.target (raw_messages h.target bs))
            (passed_control-take h.target a.buffer a.filled
              (filled_bound h.target h.uninit (first ∷ rest) size a v is_size is held.inside))
          ∙ ap (delivered h.target)
              (raw_messages-Holds h.target a (appended h.target (first ∷ rest)) v held)
          ∙ delivered-appended h first rest small)

    sized :
        (o : Option ℕ)
        → buffer_size_for_rights h.target (length (first ∷ rest)) ≡ o
        → Sends h fd iov (first ∷ rest) w.closed w.sent (
            and_then (or_panic o w) (λ size. with_control h size λ buf.
              or_invalid_input h (add_rights h.target (new buf) (first ∷ rest)) >>= λ a.
              sendmsg_vectored h fd iov a.buffer a.filled))
    sized none is = (refl, refl)
    sized (some size) is = added size _ is refl
