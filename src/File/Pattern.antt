-- ===== src/File/Pattern.antt =====
-- `File::read_until_pattern` (src/file/file.rs): reading in chunks up to a byte pattern.
--
-- The loop runs on fuel, one unit for a chunk; a chunk that is not the last takes at least a byte, so
-- more fuel than there are bytes ahead is enough. Positions stay below 2^63, so the casts to `i64` keep them.
pub mod Laws
pub mod Search
use atoman_rs.Prelude.{
  ℕ, zero, suc, ◌+◌, ◌-◌, Bool, true, false, not, ◌&&◌, Option, none, some, List, [], ◌∷◌, ◌++◌,
  length, take, drop, is_empty, ltb, ◌==◌, if◌then◌else◌,
}
use atoman_rs.Prelude.Result.{Result, success, failure}
use atoman_rs.File.Stream.{Stream, current, neg}
use atoman_rs.File.Window.{find_window}

-- How a call ends: a value or an error with the reader as it is left, a panic (`windows(0)`), or
-- no more fuel.
pub data Exit (R E A : Type 0) : Type 0 where
  value : A → R → Exit R E A
  error : E → R → Exit R E A
  panic : Exit R E A
  out_of_fuel : Exit R E A

module _ (S : Stream) where
  open S use {R, E, read, seek}

  abbrev pub Answer : Type 0
  Answer = Exit R E (Option (List ℕ))

  -- `seek_current(-(k as i64))`, then return.
  unfoldable pub give_back : ℕ → Option (List ℕ) → R → Answer
  give_back k out r =
      let (p, r') = seek (current (neg k)) r in
      elim p [ failure e ↦ error e r' | success _ ↦ value out r' ]

  unfoldable pub at_end : Bool → List ℕ → R → Answer
  unfolding give_back
  at_end capt_eof buffer r =
      if capt_eof && not (is_empty buffer)
      then value (some buffer) r
      else if not (is_empty buffer)
      then give_back (length buffer) none r
      else value none r

  -- The buffer with the new chunk, its `n` bytes included; `more` is the next round of the loop.
  unfoldable pub on_chunk : (List ℕ → R → Answer) → List ℕ → List ℕ → ℕ → R → Answer
  unfolding give_back
  on_chunk more stop buffer n r =
      let search_start = length buffer - (n + length stop - 1) in
      if is_empty stop then panic else elim (find_window stop (drop search_start buffer)) [
        | none ↦ more buffer r
        | some rel_pos ↦
            let abs_pos = search_start + rel_pos in
            let match_end = abs_pos + length stop in
            let over_read = length buffer - match_end in
            if ltb 0 over_read
            then give_back over_read (some (take abs_pos buffer)) r
            else value (some (take abs_pos buffer)) r
      ]

  unfoldable pub on_read :
      (List ℕ → R → Answer) → List ℕ → Bool → List ℕ → Result E (List ℕ) × R → Answer
  unfolding at_end on_chunk
  on_read more stop capt_eof buffer (failure e, r) = error e r
  on_read more stop capt_eof buffer (success [], r) = at_end capt_eof buffer r
  on_read more stop capt_eof buffer (success (b ∷ bs), r) =
      on_chunk more stop (buffer ++ b ∷ bs) (length (b ∷ bs)) r

  unfoldable pub pattern_loop : ℕ → List ℕ → Bool → List ℕ → R → Answer
  unfolding on_read
  pattern_loop zero stop capt_eof buffer r = out_of_fuel
  pattern_loop (suc fuel) stop capt_eof buffer r =
      on_read (pattern_loop fuel stop capt_eof) stop capt_eof buffer (read 1024 r)

  unfoldable pub read_until_pattern : ℕ → List ℕ → Bool → R → Answer
  unfolding pattern_loop
  read_until_pattern fuel stop_bytes capt_eof r = pattern_loop fuel stop_bytes capt_eof [] r
