-- ===== src/Fuzz.antt =====
-- fuzz/fuzz_targets/parse_cmsg.rs: the parser at every offset up to the alignment of `usize`.
use unix_ancillary.Base.{
  ℕ, zero, suc, ◌+◌, ◌≤◌, ◌≡◌, refl, min, leb, drop, length, true, Option, some, arith,
}
use unix_ancillary.Base.Options.{◌>>=◌, when}
use unix_ancillary.Bytes.{Bytes}
use unix_ancillary.Target.{Target, IsTarget}
use unix_ancillary.Ancillary.Take.{fuzz_parse}
use unix_ancillary.Ancillary.Take.Owned.{fuzz_parse-length}

-- `&input[offset..]`; `none` is the panic out of range.
abbrev pub slice_from : ℕ → Bytes → Option Bytes
slice_from offset input = when (leb offset (length input)) (drop offset input)

-- The loop from `offset` on, for `rounds` offsets.
unfoldable pub fuzz_offsets : Target → (rounds offset : ℕ) → Bytes → Option (Unit {0})
unfolding fuzz_parse
fuzz_offsets t zero offset input = some tt
fuzz_offsets t (suc rounds) offset input = do
  slice ← slice_from offset input
  _ ← fuzz_parse t slice
  fuzz_offsets t rounds (offset + 1) input

unfoldable pub fuzz_target : Target → Bytes → Option (Unit {0})
unfolding fuzz_offsets
fuzz_target t input = fuzz_offsets t (min (length input) t.align_of_usize + 1) 0 input

module _ (t : Target) (v : IsTarget t) where
  fuzz_offsets-some :
      (rounds offset : ℕ) (input : Bytes)
      → offset + rounds ≤ length input + 1
      → fuzz_offsets t rounds offset input ≡ some tt
  unfolding fuzz_offsets
  fuzz_offsets-some zero offset input inside = refl
  fuzz_offsets-some (suc rounds) offset input inside =
      let fits : leb offset (length input) ≡ true = ground arith in
      rw (fits, fuzz_parse-length t (drop offset input) v)
        (fuzz_offsets-some rounds (offset + 1) input (omega arith))

  -- On a target whose constants obey IsTarget and on every input, the fuzz target slices inside the
  -- input and parses to the end at every offset.
  fuzz_target-some : (input : Bytes) → fuzz_target t input ≡ some tt
  unfolding fuzz_target
  fuzz_target-some input =
      fuzz_offsets-some (min (length input) t.align_of_usize + 1) 0 input (omega arith)
