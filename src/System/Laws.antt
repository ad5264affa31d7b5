-- ===== src/System/Laws.antt =====
-- Laws of dropping descriptors.
use unix_ancillary.Base.{ℕ, ◌≡◌, refl, sym, ◌∙◌, List, [], ◌∷◌, ◌++◌, append-nil, append_assoc}
use unix_ancillary.System.{Host, World, close_fd, drop_fds}

module _ (h : Host) where
  pub drop_fds-append :
      (xs ys : List ℕ) (w : World h) → drop_fds h (xs ++ ys) w ≡ drop_fds h ys (drop_fds h xs w)
  unfolding drop_fds
  drop_fds-append [] ys w = refl
  drop_fds-append (x ∷ xs) ys w = drop_fds-append xs ys (close_fd h x w)

  -- Every dropped descriptor is closed, in order, and nothing is sent.
  pub closed-drop_fds : (fds : List ℕ) (w : World h) → (drop_fds h fds w).closed ≡ w.closed ++ fds
  unfolding drop_fds close_fd
  closed-drop_fds [] w = sym (append-nil w.closed)
  closed-drop_fds (fd ∷ fds) w =
      closed-drop_fds fds (close_fd h fd w) ∙ append_assoc w.closed (fd ∷ []) fds

  pub sent-drop_fds : (fds : List ℕ) (w : World h) → (drop_fds h fds w).sent ≡ w.sent
  unfolding drop_fds close_fd
  sent-drop_fds [] w = refl
  sent-drop_fds (fd ∷ fds) w = sent-drop_fds fds (close_fd h fd w)
