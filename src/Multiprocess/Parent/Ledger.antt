-- ===== src/Multiprocess/Parent/Ledger.antt =====
-- The descriptors and the send of the parent of examples/multiprocess.rs.
pub mod Accepts
pub mod Handoff
use unix_ancillary.Base.{
  ℕ, ◌+◌, ◌≤◌, ◌≡◌, refl, ap, sym, ◌∙◌, List, [], ◌∷◌, ◌++◌, append_assoc, append-nil, All,
  All-append, true, arith, ◌⊎◌, inl, inr,
}
use unix_ancillary.Base.Results.{Result}
use unix_ancillary.Bytes.{Bytes}
use unix_ancillary.System.{
  Host, World, Run, Exit, ok, err, panic, out_of_fuel, IoError, Sent, and_then, drop_fds,
}
use unix_ancillary.System.Laws.{closed-drop_fds, sent-drop_fds}
use unix_ancillary.Ext.Stream.Complete.{Carries}
use unix_ancillary.Ext.Stream.Complete
use unix_ancillary.Multiprocess.Parent.{child_flag}
use unix_ancillary.Std.{Std, Call, call, answered, scoped, cleaned}

-- The call has come to this value at some time.
abbrev pub Answered : (h : Host) → {A : Type 0} → Call h A → A → Type 0
Answered h c a = (k : h.Kernel) × (k' : h.Kernel) × (c k ≡ (Result.ok a, k'))

module _ (h : Host) (std : Std h) where
  -- A descriptor that the parent got from std.
  pub data IsAcquired : ℕ → Type 0 where
    bound : (path : Bytes) {fd : ℕ} → Answered h (std.bind path) fd → IsAcquired fd
    created :
        (directory name : Bytes) {fd : ℕ}
        → Answered h (std.new_in directory) (fd, name)
        → IsAcquired fd
    opened : (path : Bytes) {fd : ℕ} → Answered h (std.open_file path) fd → IsAcquired fd
    accepted : (listener : ℕ) {fd : ℕ} → Answered h (std.accept listener) fd → IsAcquired fd

  -- The marker byte went out over the socket, with the descriptor, and was acknowledged.
  pub record Handed (socket read_only : ℕ) (new : List Sent) : Type 0 where
    pub carried : Carries h socket (70 ∷ []) (read_only ∷ []) 0 new
    pub whole : 1 ≤ Complete.accepted h socket (70 ∷ []) new
    pub acknowledged : Answered h (std.read_exact socket 1) (89 ∷ [])

  -- What a successful handoff has closed and sent: the socket, then what is closed after it.
  abbrev pub Served : (listener read_only : ℕ) → (after : List ℕ) → List ℕ → List Sent → Type 0
  Served listener read_only after fds new =
      (socket : ℕ) × Answered h (std.accept listener) socket
      × (fds ≡ socket ∷ after)
      × Handed socket read_only new

  -- And the worker that was spawned as a child was waited for, with success.
  abbrev pub Reaped : (listener read_only : ℕ) → (after : List ℕ) → List ℕ → List Sent → Type 0
  Reaped listener read_only after fds new =
      Served listener read_only after fds new
      × (program : Bytes) × (path : Bytes) × (worker : ℕ) × Answered h
          (std.spawn program (child_flag ∷ path ∷ [])) worker
      × Answered h (std.wait worker) true

  -- The read-only file was opened under the name of the temporary one, and is closed next.
  abbrev pub Opened :
      (listener : ℕ) → (name : Bytes) → (after : List ℕ) → List ℕ → List Sent → Type 0
  Opened listener name after fds new =
      (read_only : ℕ) × Answered h (std.open_file name) read_only
      × Reaped listener read_only (read_only ∷ after) fds new

  -- The temporary file was created, and is closed next.
  abbrev pub Created : (listener : ℕ) → (after : List ℕ) → List ℕ → List Sent → Type 0
  Created listener after fds new =
      (directory : Bytes) × (name : Bytes) × (original : ℕ) × Answered h (std.new_in directory)
        (original, name)
      × Opened listener name (original ∷ after) fds new

  -- The listener was bound, and is closed last.
  abbrev pub Bound : List ℕ → List Sent → Type 0
  Bound fds new =
      (path : Bytes) × (listener : ℕ) × Answered h (std.bind path) listener
      × Created listener (listener ∷ []) fds new

  -- One more descriptor is closed at the end.
  pub snoc-Reaped :
      (listener read_only fd : ℕ) (after fds : List ℕ) (new : List Sent)
      → Reaped listener read_only after fds new
      → Reaped listener read_only (after ++ (fd ∷ [])) (fds ++ (fd ∷ [])) new
  snoc-Reaped listener read_only fd after fds new
        ((socket, from_listener, is_fds, handed), program, path, worker, spawned, waited) =
      (
        (socket, from_listener, ap (λ ds. ds ++ (fd ∷ [])) is_fds, handed),
        program,
        path,
        worker,
        spawned,
        waited,
      )

  pub snoc-Opened :
      (listener : ℕ) (name : Bytes) (fd : ℕ) (after fds : List ℕ) (new : List Sent)
      → Opened listener name after fds new
      → Opened listener name (after ++ (fd ∷ [])) (fds ++ (fd ∷ [])) new
  snoc-Opened listener name fd after fds new (read_only, is_open, q) =
      (read_only, is_open, snoc-Reaped listener read_only fd (read_only ∷ after) fds new q)

  pub snoc-Created :
      (listener fd : ℕ) (after fds : List ℕ) (new : List Sent)
      → Created listener after fds new
      → Created listener (after ++ (fd ∷ [])) (fds ++ (fd ∷ [])) new
  snoc-Created listener fd after fds new (directory, name, original, is_created, q) = (
    directory,
    name,
    original,
    is_created,
    snoc-Opened listener name fd (original ∷ after) fds new q,
  )

  -- What is closed comes from std, and the marker was sent at most, with one descriptor.
  abbrev pub Broken : (closed : List ℕ) → (sent : List Sent) → World h → Type 0
  Broken closed sent w =
      (fds : List ℕ) × (new : List Sent) × (socket : ℕ) × (read_only : ℕ) × All IsAcquired fds
      × Carries h socket (70 ∷ []) (read_only ∷ []) 0 new
      × (w.closed ≡ closed ++ fds)
      × (w.sent ≡ sent ++ new)

  -- How the parent ends: a success has closed the descriptors and sent as `Done` says.
  abbrev pub Ends :
      (Done : List ℕ → List Sent → Type 0)
      → (closed : List ℕ) → (sent : List Sent) → Exit h (Unit {0})
      → Type 0
  Ends Done closed sent (ok u w) =
      (fds : List ℕ) × (new : List Sent) × Done fds new
      × (w.closed ≡ closed ++ fds)
      × (w.sent ≡ sent ++ new)
  Ends Done closed sent (err e w) = Broken closed sent w
  Ends Done closed sent (panic w) = Broken closed sent w
  Ends Done closed sent out_of_fuel = Unit {0}

  module _ (Done : List ℕ → List Sent → Type 0) (closed : List ℕ) (sent : List Sent) where
    -- A failure before anything was acquired.
    pub failed-Ends :
        (e : IoError) (w : World h)
        → w.closed ≡ closed
        → w.sent ≡ sent
        → Ends Done closed sent (err e w)
    failed-Ends e w c s =
        ([], [], 0, 0, tt, tt, c ∙ sym (append-nil closed), s ∙ sym (append-nil sent))

    pub after_call-Ends :
        {A : Type 0} (c : Call h A) (f : A → Run h (Unit {0})) (w : World h)
        → w.closed ≡ closed
        → w.sent ≡ sent
        → ((a : A) (u : World h)
            → Answered h c a
            → u.closed ≡ closed
            → u.sent ≡ sent
            → Ends Done closed sent (f a u))
        → Ends Done closed sent (and_then (call c w) f)
    after_call-Ends {A} c f w is_closed is_sent g = go (c w.kernel) refl
      where
        go :
            (a : Result A IoError × h.Kernel)
            → c w.kernel ≡ a
            → Ends Done closed sent (and_then (answered a w) f)
        go (Result.ok a, k) e = g a (record w { kernel = k }) (w.kernel, k, e) is_closed is_sent
        go (Result.err x, k) e = failed-Ends x (record w { kernel = k }) is_closed is_sent

    pub cleaned-Ends :
        (remove : h.Kernel → h.Kernel) (r : Exit h (Unit {0}))
        → Ends Done closed sent r
        → Ends Done closed sent (cleaned remove r)
    cleaned-Ends remove (ok u w) q = q
    cleaned-Ends remove (err e w) q = q
    cleaned-Ends remove (panic w) q = q
    cleaned-Ends remove out_of_fuel q = q

  dropped-Broken :
      (closed : List ℕ) (sent : List Sent) (fd : ℕ) (w : World h)
      → IsAcquired fd
      → Broken closed sent w
      → Broken closed sent (drop_fds h (fd ∷ []) w)
  dropped-Broken closed sent fd w one (fds, new, socket, read_only, all, carried, c, s) = (
    fds ++ (fd ∷ []),
    new,
    socket,
    read_only,
    All-append _ fds (fd ∷ []) all (one, tt),
    carried,
    closed-drop_fds h (fd ∷ []) w
        ∙ ap (λ ds. ds ++ (fd ∷ [])) c
        ∙ append_assoc closed fds (fd ∷ []),
    sent-drop_fds h (fd ∷ []) w ∙ s,
  )

  -- A scope closes its descriptor last.
  pub scoped-Ends :
      (Done Then : List ℕ → List Sent → Type 0) (closed : List ℕ) (sent : List Sent) (fd : ℕ)
      (r : Exit h (Unit {0}))
      → IsAcquired fd
      → ((fds : List ℕ) (new : List Sent) → Done fds new → Then (fds ++ (fd ∷ [])) new)
      → Ends Done closed sent r
      → Ends Then closed sent (scoped (fd ∷ []) r)
  scoped-Ends Done Then closed sent fd (ok u w) one then_done (fds, new, d, c, s) = (
    fds ++ (fd ∷ []),
    new,
    then_done fds new d,
    closed-drop_fds h (fd ∷ []) w
        ∙ ap (λ ds. ds ++ (fd ∷ [])) c
        ∙ append_assoc closed fds (fd ∷ []),
    sent-drop_fds h (fd ∷ []) w ∙ s,
  )
  scoped-Ends Done Then closed sent fd (err e w) one then_done q =
      dropped-Broken closed sent fd w one q
  scoped-Ends Done Then closed sent fd (panic w) one then_done q =
      dropped-Broken closed sent fd w one q
  scoped-Ends Done Then closed sent fd out_of_fuel one then_done q = tt
