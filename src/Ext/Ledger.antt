-- ===== src/Ext/Ledger.antt =====
-- The ledger of `recv_core`: what a receive returns and what it closes, on every branch.
use unix_ancillary.Base.{
  ℕ, ◌≤◌, ◌≡◌, refl, ap, sym, ◌∙◌, Bool, true, false, ◌&&◌, List, [], ◌++◌, take, drop, length,
  ◌==◌, arith, append-nil, take_all, drop_all, inl, inr, Bool-cases, if◌then◌else◌, length-drop,
}
use unix_ancillary.Bytes.{Bytes}
use unix_ancillary.Target.{ErrorKind}
use unix_ancillary.System.{Host, World, Exit, ok, err, panic, out_of_fuel, Sent, custom}
use unix_ancillary.System.Laws.{closed-drop_fds, sent-drop_fds}
use unix_ancillary.Cmsg.{RecvMsgResult}
use unix_ancillary.Ext.{SocketKind, CountMode, up_to, exact, apply_mode, apply_policy, is_datagram}

-- Whether a receive of these descriptors is accepted.
abbrev pub mode_accepts : CountMode → List ℕ → Bool
mode_accepts (up_to n) fds = true
mode_accepts (exact n) fds = length fds == n

abbrev pub wanted : CountMode → ℕ
wanted (up_to n) = n
wanted (exact n) = n

abbrev pub accepts : SocketKind → CountMode → RecvMsgResult → List ℕ → Bool
accepts kind mode result fds =
    if result.ancillary_truncated
    then false
    else if is_datagram kind && result.data_truncated
    then false
    else mode_accepts mode fds

module _ (h : Host) (result : RecvMsgResult) (fds : List ℕ) (filled : List Bytes) where
  -- Success returns the first wanted descriptors and closes the others; an error closes all.
  abbrev pub PolicyEnds :
      CountMode
      → Bool
      → (closed : List ℕ) → (sent : List Sent) → Exit h (ℕ × List ℕ × ℕ × List Bytes)
      → Type 0
  PolicyEnds mode accepted closed sent (ok (n, kept, surplus, iov) w) =
      (accepted ≡ true)
      × (n ≡ result.bytes_read)
      × (kept ≡ take (wanted mode) fds)
      × (surplus ≡ length (drop (wanted mode) fds))
      × (iov ≡ filled)
      × (w.closed ≡ closed ++ drop (wanted mode) fds)
      × (w.sent ≡ sent)
  PolicyEnds mode accepted closed sent (err e w) =
      (accepted ≡ false)
      × (e ≡ custom ErrorKind.invalid_data)
      × (w.closed ≡ closed ++ fds)
      × (w.sent ≡ sent)
  PolicyEnds mode accepted closed sent (panic w) = ⊥
  PolicyEnds mode accepted closed sent out_of_fuel = ⊥

  -- For every result of a receive, kind and mode, apply_policy succeeds exactly when the control
  -- data was not truncated, a datagram's payload was not truncated, and an exact count is met; it
  -- then returns the bytes read, the first N descriptors and the number of the others, which it has
  -- closed. Otherwise the error is InvalidData and all descriptors are closed. Nothing is sent.
  pub apply_policy-PolicyEnds :
      (kind : SocketKind) (mode : CountMode) (w : World h)
      → PolicyEnds mode
          (accepts kind mode result fds)
          w.closed
          w.sent
          (apply_policy h kind mode result fds filled w)
  unfolding apply_policy apply_mode
  apply_policy-PolicyEnds kind mode w = elim (Bool-cases result.ancillary_truncated) [
    | inl cut ↦ rw cut (refl, refl, closed-drop_fds h fds w, sent-drop_fds h fds w)
    | inr whole ↦ rw whole (elim (Bool-cases (is_datagram kind && result.data_truncated)) [
      | inl short ↦ rw short (refl, refl, closed-drop_fds h fds w, sent-drop_fds h fds w)
      | inr fine ↦ rw fine (by_mode mode)
    ])
  ]
    where
      by_mode :
          (m : CountMode)
          → PolicyEnds m
              (mode_accepts m fds)
              w.closed
              w.sent
              (apply_mode h m result.bytes_read fds filled w)
      by_mode (up_to n) = (
        refl,
        refl,
        refl,
        sym (length-drop n fds),
        refl,
        closed-drop_fds h (drop n fds) w,
        sent-drop_fds h (drop n fds) w,
      )
      by_mode (exact n) = elim (Bool-cases (length fds == n)) [
        | inl same ↦
            let few : length fds ≤ n = ground arith in
            let none_left : drop n fds ≡ [] = drop_all n fds few in
            rw (same, apply_mode)
              (
                refl,
                refl,
                sym (take_all n fds few),
                ap length (sym none_left),
                refl,
                sym (append-nil w.closed) ∙ ap (λ ds. w.closed ++ ds) (sym none_left),
                refl,
              )
        | inr other ↦
            rw (other, apply_mode) (refl, refl, closed-drop_fds h fds w, sent-drop_fds h fds w)
      ]
