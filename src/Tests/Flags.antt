-- ===== src/Tests/Flags.antt =====
-- `Flag` at concrete inputs (src/flag/mod.rs).
use atoman_rs.Prelude.{◌≡◌, refl, true, false, List, [], ◌∷◌}
use atoman_rs.Flag.{Flag, Call, call_enable, call_guard, call_read, run_calls}
use atoman_rs.Flag.Calls.{wins, taken, wins-taken}

abbrev off : Flag
off = record { state = false }

abbrev on : Flag
on = record { state = true }

abbrev racers : List Call
racers = call_read ∷ call_enable ∷ call_enable ∷ call_guard ∷ call_enable ∷ []

racers_run : wins racers (run_calls racers off).0 ≡ 1
unfolding run_calls
racers_run = refl

wins-taken_example : wins racers (run_calls racers off).0 ≡ taken false racers
wins-taken_example = wins-taken racers off (refl, (refl, (refl, (refl, (refl, tt)))))
