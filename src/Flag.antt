-- ===== src/Flag.antt =====
-- src/flag/mod.rs and src/flag/guard.rs: `Flag`, an atomic Boolean, and `FlagGuard`.
--
-- Each method is one atomic access, so a run of several threads is a list of calls in some order.
pub mod Calls
use Prim.Native.Nat.{Ordering}
use mathlib.Core.Bool.{xor}
use atoman_rs.Prelude.{ℕ, Bool, true, false, not, Option, none, some, List, [], ◌∷◌, if◌then◌else◌}

pub record Flag : Type 0 where
  pub state : Bool

pub new : Bool → Flag
new initial = record { state = initial }

-- `swap` and `fetch_xor` return the value of before.
pub enable : Flag → Bool × Flag
enable f = (f.state, record { state = true })

pub disable : Flag → Bool × Flag
disable f = (f.state, record { state = false })

pub toggle : Flag → Bool × Flag
unfolding xor
toggle f = (f.state, record { state = xor f.state true })

pub set : Bool → Flag → Flag
set v f = record { state = v }

pub is_enabled : Flag → Bool
is_enabled f = f.state

pub is_disabled : Flag → Bool
unfolding is_enabled
is_disabled f = not (is_enabled f)

pub deref : Flag → Bool
unfolding is_enabled
deref f = if is_enabled f then true else false

same : Bool → Bool → Bool
unfolding xor
same a b = not (xor a b)

-- `false < true`
compare_bool : Bool → Bool → Ordering
compare_bool false true = Ordering.lt
compare_bool true false = Ordering.gt
compare_bool _ _ = Ordering.eq

pub eq : Flag → Flag → Bool
unfolding same is_enabled
eq f g = same (is_enabled f) (is_enabled g)

pub eq_bool : Flag → Bool → Bool
unfolding same is_enabled
eq_bool f b = same (is_enabled f) b

pub bool_eq : Bool → Flag → Bool
unfolding same is_enabled
bool_eq b f = same b (is_enabled f)

pub partial_cmp : Flag → Flag → Option Ordering
unfolding compare_bool is_enabled
partial_cmp f g = some (compare_bool (is_enabled f) (is_enabled g))

pub partial_cmp_bool : Flag → Bool → Option Ordering
unfolding compare_bool is_enabled
partial_cmp_bool f b = some (compare_bool (is_enabled f) b)

-- `guard` enables the flag; the `Drop` of the `FlagGuard` disables it.
pub guard : Flag → Flag
unfolding enable
guard f = (enable f).1

pub drop_guard : Flag → Flag
unfolding disable
drop_guard f = (disable f).1

pub data Call : Type 0 where
  call_enable call_disable call_toggle call_guard call_drop call_read : Call
  call_set : Bool → Call

-- What a call returns, if it returns a Boolean, and the flag after it.
pub run_call : Call → Flag → Option Bool × Flag
unfolding enable disable toggle set is_enabled guard drop_guard
run_call call_enable f = let (b, g) = enable f in (some b, g)
run_call call_disable f = let (b, g) = disable f in (some b, g)
run_call call_toggle f = let (b, g) = toggle f in (some b, g)
run_call call_guard f = (none, guard f)
run_call call_drop f = (none, drop_guard f)
run_call call_read f = (some (is_enabled f), f)
run_call (call_set v) f = (none, set v f)

unfoldable pub run_calls : List Call → Flag → List (Option Bool) × Flag
unfolding run_call
run_calls [] f = ([], f)
run_calls (c ∷ cs) f = let (r, g) = run_call c f in let (rs, h) = run_calls cs g in (r ∷ rs, h)
