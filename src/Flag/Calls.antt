-- ===== src/Flag/Calls.antt =====
-- Calls of a `Flag` (src/flag/mod.rs, src/flag/guard.rs) by several threads, in any order.
use Prim.Native.Nat.{Ordering}
use mathlib.Core.Bool.{xor}
use atoman_rs.Prelude.{
  ℕ, zero, suc, ◌≡◌, refl, Bool, true, false, not, Option, none, some, List, [], ◌∷◌, ◌++◌, arith,
  ◌↔◌, ap, ◌∙◌, ◌∙◌,
}
use atoman_rs.Flag.{
  Flag, enable, disable, set, is_enabled, is_disabled, deref, eq, eq_bool, bool_eq, partial_cmp,
  partial_cmp_bool, guard, drop_guard, Call, call_enable, call_disable, call_toggle, call_guard,
  call_drop, call_read, call_set, run_call, run_calls,
}

-- Calls that never clear the flag.
abbrev pub keeps : Call → Bool
keeps call_enable = true
keeps call_read = true
keeps call_guard = true
keeps _ = false

abbrev pub AllKeep : List Call → Type 0
AllKeep [] = Unit {0}
AllKeep (c ∷ cs) = (keeps c ≡ true) × AllKeep cs

-- How many results say that the flag was off.
abbrev pub wins : List Call → List (Option Bool) → ℕ
wins (call_enable ∷ cs) (some false ∷ rs) = suc (wins cs rs)
wins (_ ∷ cs) (_ ∷ rs) = wins cs rs
wins _ _ = 0

wins-enabled :
    (cs : List Call) (f : Flag) → f.state ≡ true → AllKeep cs → wins cs (run_calls cs f).0 ≡ 0
unfolding run_calls
wins-enabled [] f e k = refl
wins-enabled (call_enable ∷ cs) f e k =
    ground (arith, wins-enabled cs (record { state = true }) refl k.1)
wins-enabled (call_disable ∷ cs) f e k = cc
wins-enabled (call_toggle ∷ cs) f e k = cc
wins-enabled (call_guard ∷ cs) f e k =
    ground (arith, wins-enabled cs (record { state = true }) refl k.1)
wins-enabled (call_drop ∷ cs) f e k = cc
wins-enabled (call_read ∷ cs) f e k = ground (arith, wins-enabled cs f e k.1)
wins-enabled (call_set v ∷ cs) f e k = cc

-- How many of the calls find the flag off and take it by `enable`, from what the flag is: the first call that
-- is no read takes it, if it is an `enable`.
abbrev pub taken : Bool → List Call → ℕ
taken true cs = 0
taken false [] = 0
taken false (call_enable ∷ cs) = 1
taken false (call_guard ∷ cs) = 0
taken false (_ ∷ cs) = taken false cs

wins-state :
    (cs : List Call) (b : Bool)
    → AllKeep cs
    → wins cs (run_calls cs (record { state = b })).0 ≡ taken b cs
unfolding run_calls
wins-state cs true k = wins-enabled cs (record { state = true }) refl k
wins-state [] false k = refl
wins-state (call_enable ∷ cs) false k =
    ap (λ n. suc n) (wins-enabled cs (record { state = true }) refl k.1)
wins-state (call_disable ∷ cs) false k = cc
wins-state (call_toggle ∷ cs) false k = cc
wins-state (call_guard ∷ cs) false k = wins-enabled cs (record { state = true }) refl k.1
wins-state (call_drop ∷ cs) false k = cc
wins-state (call_read ∷ cs) false k = wins-state cs false k.1
wins-state (call_set v ∷ cs) false k = cc

-- Of any calls of `enable`, `guard` and `is_enabled` on one flag, in any order, while no guard is dropped: if the
-- flag is off and an `enable` comes before every `guard`, exactly one `enable` returns false; otherwise none does.
pub wins-taken :
    (cs : List Call) (f : Flag) → AllKeep cs → wins cs (run_calls cs f).0 ≡ taken f.state cs
wins-taken cs f k = wins-state cs f.state k

abbrev pub toggles : List Call → ℕ
toggles [] = 0
toggles (call_toggle ∷ cs) = suc (toggles cs)
toggles (_ ∷ cs) = toggles cs

abbrev pub is_read_or_toggle : Call → Bool
is_read_or_toggle call_read = true
is_read_or_toggle call_toggle = true
is_read_or_toggle _ = false

abbrev pub AllReadOrToggle : List Call → Type 0
AllReadOrToggle [] = Unit {0}
AllReadOrToggle (c ∷ cs) = (is_read_or_toggle c ≡ true) × AllReadOrToggle cs

abbrev pub flip_if_odd : ℕ → Bool → Bool
flip_if_odd zero b = b
flip_if_odd (suc n) b = not (flip_if_odd n b)

flip_if_odd-not : (n : ℕ) (b : Bool) → flip_if_odd n (not b) ≡ not (flip_if_odd n b)
flip_if_odd-not zero b = refl
flip_if_odd-not (suc n) b = ap not (flip_if_odd-not n b)

xor-true : (b : Bool) → xor b true ≡ not b
unfolding xor
xor-true true = refl
xor-true false = refl

after_toggles :
    (cs : List Call) (f : Flag)
    → AllReadOrToggle cs
    → (run_calls cs f).1.state ≡ flip_if_odd (toggles cs) f.state
unfolding run_calls
after_toggles [] f k = refl
after_toggles (call_read ∷ cs) f k = after_toggles cs f k.1
after_toggles (call_toggle ∷ cs) f k =
    after_toggles cs (record { state = xor f.state true }) k.1
    ∙ ap (flip_if_odd (toggles cs)) (xor-true f.state)
    ∙ flip_if_odd-not (toggles cs) f.state
after_toggles (call_enable ∷ cs) f k = cc
after_toggles (call_disable ∷ cs) f k = cc
after_toggles (call_guard ∷ cs) f k = cc
after_toggles (call_drop ∷ cs) f k = cc
after_toggles (call_set v ∷ cs) f k = cc

run_calls-append :
    (cs ds : List Call) (f : Flag)
    → (run_calls (cs ++ ds) f).1 ≡ (run_calls ds (run_calls cs f).1).1
unfolding run_calls
run_calls-append [] ds f = refl
run_calls-append (c ∷ cs) ds f = run_calls-append cs ds (run_call c f).1

-- A call that fixes the flag, and the value that it fixes.
abbrev pub fixes : Call → Option Bool
fixes call_enable = some true
fixes call_guard = some true
fixes call_disable = some false
fixes call_drop = some false
fixes (call_set v) = some v
fixes _ = none

-- After any calls, then a call that fixes the flag to `b`, then only reads and toggles, the flag
-- reads `b`, flipped if the number of those toggles is odd; the calls before do not matter.
pub last_fix :
    (cs ds : List Call) (c : Call) {b : Bool} (f : Flag)
    → fixes c ≡ some b
    → AllReadOrToggle ds
    → is_enabled (run_calls (cs ++ c ∷ ds) f).1 ≡ flip_if_odd (toggles ds) b
unfolding is_enabled
last_fix cs ds c {b} f e k =
    ap (λ (g : Flag). g.state) (run_calls-append cs (c ∷ ds) f)
    ∙ unfold run_calls in
      after_toggles ds (run_call c (run_calls cs f).1).1 k
      ∙ ap (flip_if_odd (toggles ds)) (fixed c (run_calls cs f).1 e)
  where
    fixed : (d : Call) (g : Flag) → fixes d ≡ some b → (run_call d g).1.state ≡ b
    fixed d g q = unfold run_call enable disable set guard drop_guard in ground arith

-- Every way to compare a flag agrees with the Boolean that it reads as: both equalities hold
-- exactly for equal readings, the orders agree with them, and `deref` and `is_disabled` are the
-- reading and its negation.
pub comparisons :
    (f g : Flag)
    → ((eq f g ≡ true) ↔ (is_enabled f ≡ is_enabled g))
      × (eq_bool f (is_enabled g) ≡ eq f g)
      × (bool_eq (is_enabled f) g ≡ eq f g)
      × ((partial_cmp f g ≡ some Ordering.eq) ↔ (eq f g ≡ true))
      × (partial_cmp_bool f (is_enabled g) ≡ partial_cmp f g)
      × (deref f ≡ is_enabled f)
      × (is_disabled f ≡ not (is_enabled f))
unfolding eq eq_bool bool_eq partial_cmp partial_cmp_bool deref is_disabled is_enabled
comparisons f g = (ground arith, refl, refl, ground arith, refl, ground arith, refl)
