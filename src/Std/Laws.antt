-- ===== src/Std/Laws.antt =====
-- Calls of std close no descriptor of the program's and send nothing; the end of a scope closes those
-- that it owns.
use unix_ancillary.Base.{ℕ, ◌≡◌, ap, ◌∙◌, List, ◌++◌}
use unix_ancillary.Base.Results.{Result}
use unix_ancillary.System.{Host, World, Exit, ok, err, panic, out_of_fuel, IoError, Sent}
use unix_ancillary.System.Laws.{closed-drop_fds, sent-drop_fds}
use unix_ancillary.System.Quiet.{Quiet}
use unix_ancillary.Cmsg.Returns.{Returns}
use unix_ancillary.Std.{Call, answered, call, scoped, cleaned}

module _ {h : Host} where
  pub call-Quiet :
      {A : Type 0} (c : Call h A) (closed : List ℕ) (sent : List Sent) (w : World h)
      → w.closed ≡ closed
      → w.sent ≡ sent
      → Quiet closed sent (call c w)
  call-Quiet {A} c closed sent w is_closed is_sent = go (c w.kernel)
    where
      go : (a : Result A IoError × h.Kernel) → Quiet closed sent (answered a w)
      go (Result.ok a, k) = (is_closed, is_sent)
      go (Result.err e, k) = (is_closed, is_sent)

  pub scoped-Quiet :
      {A : Type 0} (fds closed : List ℕ) (sent : List Sent) (r : Exit h A)
      → Quiet closed sent r
      → Quiet (closed ++ fds) sent (scoped fds r)
  scoped-Quiet fds closed sent (ok a w) (c, s) =
      (closed-drop_fds h fds w ∙ ap (λ ds. ds ++ fds) c, sent-drop_fds h fds w ∙ s)
  scoped-Quiet fds closed sent (err e w) (c, s) =
      (closed-drop_fds h fds w ∙ ap (λ ds. ds ++ fds) c, sent-drop_fds h fds w ∙ s)
  scoped-Quiet fds closed sent (panic w) q = absurd q
  scoped-Quiet fds closed sent out_of_fuel q = absurd q

  pub call-Returns : {A : Type 0} (c : Call h A) (w : World h) → Returns (call c w)
  call-Returns {A} c w = go (c w.kernel)
    where
      go : (a : Result A IoError × h.Kernel) → Returns (answered a w)
      go (Result.ok a, k) = tt
      go (Result.err e, k) = tt

  pub scoped-Returns :
      {A : Type 0} (fds : List ℕ) (r : Exit h A) → Returns r → Returns (scoped fds r)
  scoped-Returns fds (ok a w) q = tt
  scoped-Returns fds (err e w) q = tt
  scoped-Returns fds (panic w) q = tt
  scoped-Returns fds out_of_fuel q = q

  pub cleaned-Returns :
      {A : Type 0} (remove : h.Kernel → h.Kernel) (r : Exit h A)
      → Returns r
      → Returns (cleaned remove r)
  cleaned-Returns remove (ok a w) q = tt
  cleaned-Returns remove (err e w) q = tt
  cleaned-Returns remove (panic w) q = tt
  cleaned-Returns remove out_of_fuel q = q
