-- ===== src/Multiprocess/Parent/Closes.antt =====
-- The whole parent of examples/multiprocess.rs: what it closes and sends.
use unix_ancillary.Base.{ℕ, ◌≡◌, refl, true, List, [], ◌∷◌}
use unix_ancillary.Bytes.{Bytes}
use unix_ancillary.Target.{IsTarget}
use unix_ancillary.System.{Host, World, Sent}
use unix_ancillary.System.Quiet.{and_then_assoc}
use unix_ancillary.Ancillary.Buffer.RoundTrip.{IsFd}
use unix_ancillary.Std.{Std, call, cleaned}
use unix_ancillary.Multiprocess.{contents}
use unix_ancillary.Multiprocess.Parent.{
  channel, child_flag, with_worker, with_original, with_listener, in_directory, parent,
  attempt_handoff,
}
use unix_ancillary.Multiprocess.Parent.Ledger.{
  Answered, IsAcquired, Reaped, Opened, Created, Bound, snoc-Reaped, snoc-Opened, snoc-Created,
  Ends, after_call-Ends, cleaned-Ends, scoped-Ends,
}
use unix_ancillary.Multiprocess.Parent.Ledger.Handoff.{attempt_handoff-Ends, supervise-Ends}

-- `File::open` answers a descriptor that is a non-negative `i32`.
abbrev pub OpensFds : (h : Host) → Std h → Type 0
OpensFds h std = (path : Bytes) (fd : ℕ) → Answered h (std.open_file path) fd → IsFd fd

module _ (h : Host) (std : Std h) (v : IsTarget h.target) (opens : OpensFds h std) (closed : List ℕ)
    (sent : List Sent) where
  with_worker-Ends :
      (path : Bytes) (listener read_only : ℕ) (w : World h)
      → IsFd read_only
      → w.closed ≡ closed
      → w.sent ≡ sent
      → Ends h std
          (Reaped h std listener read_only [])
          closed
          sent
          (with_worker h std path listener read_only w)
  unfolding with_worker
  with_worker-Ends path listener read_only w small c s =
      let D : List ℕ → List Sent → Type 0 = Reaped h std listener read_only [] in
      after_call-Ends h std D closed sent std.current_exe _ w c s λ program w₁ _ c₁ s₁.
        after_call-Ends h std D closed sent (std.spawn program (child_flag ∷ path ∷ [])) _ w₁ c₁ s₁
          λ worker w₂ spawned c₂ s₂.
            supervise-Ends h std closed sent program path listener worker read_only
              (attempt_handoff h std listener worker read_only w₂) spawned
              (attempt_handoff-Ends h std closed sent listener worker read_only w₂ v small c₂ s₂)

  with_original-Ends :
      (path : Bytes) (listener original : ℕ) (name : Bytes) (w : World h)
      → w.closed ≡ closed
      → w.sent ≡ sent
      → Ends h std
          (Opened h std listener name [])
          closed
          sent
          (with_original h std path listener original name w)
  unfolding with_original
  with_original-Ends path listener original name w c s =
      let D : List ℕ → List Sent → Type 0 = Opened h std listener name [] in
      rw
        (and_then_assoc (call (std.write_all original contents) w) (λ _. call (std.open_file name))
          _)
        (after_call-Ends h std D closed sent (std.write_all original contents) _ w c s
          λ _ w₁ _ c₁ s₁.
            after_call-Ends h std D closed sent (std.open_file name) _ w₁ c₁ s₁
              λ read_only w₂ is_open c₂ s₂.
                scoped-Ends h std (Reaped h std listener read_only []) D closed sent read_only
                  (with_worker h std path listener read_only w₂) (IsAcquired.opened name is_open)
                  (λ fds new q. (
                    read_only,
                    is_open,
                    snoc-Reaped h std listener read_only read_only [] fds new q,
                  ))
                  (with_worker-Ends path listener read_only w₂ (opens name read_only is_open) c₂
                    s₂))

  with_listener-Ends :
      (directory path : Bytes) (listener : ℕ) (w : World h)
      → w.closed ≡ closed
      → w.sent ≡ sent
      → Ends h std
          (Created h std listener [])
          closed
          sent
          (with_listener h std directory path listener w)
  unfolding with_listener
  with_listener-Ends directory path listener w c s =
      let D : List ℕ → List Sent → Type 0 = Created h std listener [] in
      rw
        (and_then_assoc (call (std.set_nonblocking listener true) w)
          (λ _. call (std.new_in directory)) _)
        (after_call-Ends h std D closed sent (std.set_nonblocking listener true) _ w c s
          λ _ w₁ _ c₁ s₁.
            after_call-Ends h std D closed sent (std.new_in directory) _ w₁ c₁ s₁
              λ (original, name) w₂ is_created c₂ s₂.
                let body = with_original h std path listener original name w₂ in
                scoped-Ends h std (Opened h std listener name []) D closed sent original
                  (cleaned (std.remove_file name) body)
                  (IsAcquired.created directory name is_created)
                  (λ fds new q. (
                    directory,
                    name,
                    original,
                    is_created,
                    snoc-Opened h std listener name original [] fds new q,
                  ))
                  (cleaned-Ends h std (Opened h std listener name []) closed sent
                    (std.remove_file name) body
                    (with_original-Ends path listener original name w₂ c₂ s₂)))

  in_directory-Ends :
      (directory : Bytes) (w : World h)
      → w.closed ≡ closed
      → w.sent ≡ sent
      → Ends h std (Bound h std) closed sent (in_directory h std directory w)
  unfolding in_directory
  in_directory-Ends directory w c s =
      let path : Bytes = std.join directory channel in
      after_call-Ends h std (Bound h std) closed sent (std.bind path) _ w c s
        λ listener w₁ is_bound c₁ s₁.
          scoped-Ends h std (Created h std listener []) (Bound h std) closed sent listener
            (with_listener h std directory path listener w₁) (IsAcquired.bound path is_bound)
            (λ fds new q.
              (path, listener, is_bound, snoc-Created h std listener listener [] fds new q))
            (with_listener-Ends directory path listener w₁ c₁ s₁)

-- On a target whose constants obey IsTarget, and where File::open answers non-negative i32
-- descriptors, the parent of the multiprocess example, if it succeeds, has sent the marker byte
-- over the socket that it accepted, the first send with exactly the read-only file, which it opened
-- under the name of its temporary file; it has read the acknowledgment, and a worker that it
-- spawned as a child was waited for with success; and it has closed the socket, the read-only file,
-- the temporary file and the listener, in this order, and nothing else. If it fails or panics it
-- has closed only descriptors that it got from std, and has sent the marker at most, the first send
-- with one descriptor. A run that exceeds a bound is not constrained.
pub parent-Ends :
    (h : Host) (std : Std h) (w : World h)
    → IsTarget h.target
    → OpensFds h std
    → Ends h std (Bound h std) w.closed w.sent (parent h std w)
unfolding parent
parent-Ends h std w v opens =
    after_call-Ends h std (Bound h std) w.closed w.sent std.tempdir _ w refl refl
      λ directory u _ c s.
        cleaned-Ends h std (Bound h std) w.closed w.sent (std.remove_dir directory)
          (in_directory h std directory u)
          (in_directory-Ends h std v opens w.closed w.sent directory u c s)
