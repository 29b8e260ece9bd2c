-- ===== src/Tests/States.antt =====
-- `State` and `StateGuard` at concrete inputs (src/state/mod.rs, src/state/guard.rs).
use atoman_rs.State.Threads
use atoman_rs.Prelude.{
  ℕ, ℕ_discrete, suc, ◌*◌, ◌≡◌, refl, Bool, true, false, some, none, List, [], ◌∷◌, ◌++◌,
  set as put, ok, blocked, panicked,
}
use atoman_rs.State.{
  State, StateWrap, Heap, new, from_value, lock, set, blocking_set, get, get_locked, fresh,
}
use atoman_rs.State.Guard.{StateGuard, drop}
use atoman_rs.State.Session.{Op, write, cancel_op, sync_op, sync_n_op, run, steps, view, run-steps}
use atoman_rs.State.Calls.{Holds, IsValid, lock_excludes, get-from_value}
use atoman_rs.State.Threads.{
  System, Pc, idle, loading, holding, init, Reach, start, later, pick, acquire, load, storing, Step,
  write as write_step, opened, is_holding, mutual_exclusion, no_stale_guard, set_lost,
}

abbrev guard : StateGuard ℕ
guard = record { swap = 0; current_arc = 10; mutated_data = none; counter = 0 }

abbrev session : List (Op ℕ)
session =
    write suc ∷ sync_op ∷ write (λ n. n * 2) ∷ cancel_op ∷ write suc ∷ sync_n_op 3 ∷ write suc ∷ []

session-drop : drop (run session (guard, 10)).0 (run session (guard, 10)).1 ≡ 13
unfolding run drop
session-drop = refl

run-steps_example :
    (view (run session (guard, 10)) ≡ steps session (view (guard, 10)))
    × (drop (run session (guard, 10)).0 (run session (guard, 10)).1
        ≡ (steps session (view (guard, 10))).draft)
run-steps_example = run-steps session (guard, 10) refl

abbrev state : State ℕ
state = record { wrap = some 0; init_fn = ok 7 }

abbrev other : State ℕ
other = record { wrap = some 0; init_fn = panicked }

abbrev heap : Heap ℕ
heap = fresh 10 ∷ []

abbrev wrap₀ : StateWrap ℕ
wrap₀ = fresh 10

held_at : Holds state heap 0 wrap₀
held_at = record { wrap = refl; there = refl }

other_at : Holds other heap 0 wrap₀
other_at = record { wrap = refl; there = refl }

lock_excludes_example :
    let h₁ = put heap 0 (record { held = true; value = 12 }) in
    (lock state heap
      ≡ ok (
        record { swap = 0; current_arc = 10; mutated_data = none; counter = 0 },
        state,
        put heap 0 (record { held = true; value = 10 }),
      ))
    × (lock other h₁ ≡ blocked)
    × (set other 5 h₁ ≡ blocked)
    × (blocking_set other 5 h₁ ≡ blocked)
    × (get other h₁ ≡ ok (12, other, h₁))
    × (get_locked other h₁ ≡ ok (12, other, h₁))
lock_excludes_example = lock_excludes state other heap held_at other_at 5 12 refl

lazy-IsValid : IsValid (new (ok 7)) heap
unfolding new
lazy-IsValid = record { full = λ a e. cc; empty = λ e. (7, refl) }

get-from_value_example :
    ((from_value 3 heap).0.init_fn ≡ panicked)
    × (get (from_value 3 heap).0 (from_value 3 heap).1
        ≡ ok (3, (from_value 3 heap).0, (from_value 3 heap).1))
    × (get (new (ok 3)) heap
        ≡ ok (3, record { wrap = some 1; init_fn = ok 3 }, heap ++ fresh 3 ∷ []))
get-from_value_example = get-from_value 3 heap

abbrev locked : System ℕ
locked = record {
  wrap = record { held = true; value = 4 };
  pc = Threads.update (Threads.update (λ _. idle) 1 loading) 1 (holding (opened 4));
}

locked-Reach : {b : Bool} → Reach b (init 4) locked
unfolding ℕ_discrete
locked-Reach = later (later start (pick 1 (acquire refl))) (pick 1 load)

mutual_exclusion_example :
    ((i j : ℕ) → is_holding (locked.pc i) ≡ true → is_holding (locked.pc j) ≡ true → i ≡ j)
    × (locked.wrap.held ≡ false → (i : ℕ) → is_holding (locked.pc i) ≡ false)
mutual_exclusion_example = mutual_exclusion (locked-Reach {b = true})

no_stale_guard_example : (opened {T = ℕ} 4).current_arc ≡ locked.wrap.value
unfolding ℕ_discrete
no_stale_guard_example = no_stale_guard locked-Reach 1 (opened 4) refl

set_lost_example :
    (r t s : System ℕ) × (g : StateGuard ℕ) × Reach true (init 1) r
    × (r.pc 0 ≡ storing 5)
    × (r.pc 1 ≡ holding g)
    × Step true r t
    × (t.pc 0 ≡ idle)
    × (t.pc 1 ≡ holding g)
    × (t.wrap.value ≡ 5)
    × Reach false t s
    × (s.wrap ≡ record { held = false; value = drop g 5 })
    × (s.wrap.value ≡ 2)
set_lost_example = set_lost 1 5 suc
