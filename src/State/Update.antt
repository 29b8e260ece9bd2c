-- ===== src/State/Update.antt =====
-- A write through a guard of `State` that is dropped at once (src/state/guard.rs), as the other parts make it.
use atoman_rs.State.Guard.{drop, deref_mut}
use atoman_rs.State.Threads.{opened}

-- The value that is published then.
unfoldable pub through_guard {ℓ} : {T : Type ℓ} → (T → T) → T → T
unfolding drop deref_mut
through_guard f v = drop (deref_mut f (opened v)) v
