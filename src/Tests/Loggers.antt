-- ===== src/Tests/Loggers.antt =====
-- The logger at concrete inputs (src/logger/mod.rs), over a clock of seconds and a disk that keeps what it
-- is given.
use atoman_rs.Prelude.{
  Bool, ℕ, ◌+◌, ◌/◌, ◌≡◌, refl, ap, sym, true, false, Option, none, some, List, [], ◌∷◌, ◌++◌, map,
  length, Every, Text,
}
use Prim.Native.Nat.{min}
use mathlib.Core.List.{Perm, append_assoc, append-nil}
use native.Mathlib.Omega.{arith}
use atoman_rs.Prelude.Result.{Result, success, failure}
use atoman_rs.Logger.{warn, Statics}
use atoman_rs.Logger.Disk.{Clock, Disk, IsReliable}
use atoman_rs.Logger.Worker.{RawLogEvent, LogCmd, log, flush_now, World, worker, gen_path}
use atoman_rs.Logger.Bounds.{IsBounded, worker-IsBounded}
use atoman_rs.Logger.Stages.{flat, sent}
use atoman_rs.Logger.Delivery.{IsReady, lines, flush_writes_all}
use atoman_rs.Logger.Rotation.{LogFile, Found, init, LogFiles, older, init_rotates}
use atoman_rs.Logger.Lines.{Picked, trace_file, trace-Picked}
use atoman_rs.Logger.Lines

abbrev pub clock : Clock
clock = record {
  Time = ℕ;
  seconds = λ t. t;
  day = λ t. t / 100;
  to_second = λ t. t ∷ [];
  to_microsecond = λ t. b'0' ∷ [];
  to_microsecond-IsName = λ t. (refl, tt);
  to_second_lem = λ t u e. ap (λ s. s ∷ []) e;
}

abbrev pub up : List Text → Option (List Text)
up [] = none
up (name ∷ dir) = some dir

abbrev pub Kept : Type 0
Kept = List (List Text × Text)

abbrev pub AllOf : Kept → List Text → Type 0
AllOf d p = Every (λ q. q ≡ p) (map (λ r. r.0) d)

pub held_one :
    (h : Kept) (p : List Text) (t : Text) → map (λ r. r.0) h ≡ [] → AllOf (h ++ (p, t) ∷ []) p
held_one [] p t e = (refl, tt)
held_one (x ∷ h) p t e = cc

pub stored_all : (s h : Kept) → map (λ r. r.0) h ≡ [] → s ≡ s ++ h
stored_all s [] e = sym (append-nil s)
stored_all s (x ∷ h) e = cc

-- What is in the files, and what the writers hold until they are flushed.
abbrev pub disk : Disk
disk = record {
  D = Kept × Kept;
  FilePath = List Text;
  parent = up;
  join = λ d t. t ∷ d;
  open_append = λ p d. (true, d);
  write_all = λ p t d. (true, (d.0, d.1 ++ (p, t) ∷ []));
  flush = λ p d. (true, (d.0 ++ d.1, []));
  written = λ d. d.0 ++ d.1;
  stored = λ d. d.0;
  holders = λ d. map (λ r. r.0) d.1;
  parent-join = λ d t n. refl;
  written-open_append = λ p d. refl;
  written-flush = λ p d. append-nil (d.0 ++ d.1);
  written-write_all = λ p t d e. sym (append_assoc d.0 d.1 ((p, t) ∷ []));
  holders-open_append = λ p d e. e;
  holders-write_all = λ p t d e. held_one d.1 p t e;
  holders-flush = λ p d e h. refl;
  stored-written = λ d e. stored_all d.0 d.1 e;
}

pub reliable : IsReliable disk
reliable = record { opens = λ p d. refl; writes = λ p t d. refl; flushes = λ p d. refl }

abbrev pub world : World clock disk
world = record {
  file = none;
  buffer = [];
  date = some 0;
  datetime = [];
  timestamp_sec = 0;
  state = record { level = none; path = some ((b'a' ∷ []) ∷ []); tx = true };
  disk = ([], []);
  answered = 0;
}

abbrev event : ℕ → Option Text → RawLogEvent clock disk
event t spans = record { level = warn; timestamp = t; spans = spans; message = b'm' ∷ [] }

-- Two events of one day, one of the next.
abbrev commands : List (LogCmd clock disk)
commands =
    log (event 50 none) 50 false
    ∷ log (event 50 (some (b'[' ∷ b']' ∷ b' ' ∷ []))) 50 true
    ∷ log (event 150 none) 150 false
    ∷ []

pub bounded : IsBounded clock disk world
bounded = record { closed = λ e. refl; small = omega arith }

pub ready : IsReady clock disk reliable (b'1' ∷ []) (refl, tt) world
ready = record {
  path = ((b'a' ∷ []) ∷ [], refl, ([], refl));
  cached = λ t late e. absurd (omega arith);
}

worker-answers : (worker clock disk (b'1' ∷ []) (commands ++ flush_now ∷ []) world).answered ≡ 1
unfolding worker
worker-answers = refl

worker-IsBounded_example : IsBounded clock disk (worker clock disk (b'1' ∷ []) commands world)
worker-IsBounded_example = worker-IsBounded clock disk (b'1' ∷ []) commands world bounded

flush_writes_all_example :
    let w' = worker clock disk (b'1' ∷ []) (commands ++ flush_now ∷ []) world in
    (flat w'.disk.0
      ≡ sent clock disk world ++ lines clock disk reliable (b'1' ∷ []) (refl, tt) commands)
    × (map (λ r. r.0) w'.disk.1 ≡ [])
    × (w'.buffer ≡ [])
    × (w'.answered ≡ (worker clock disk (b'1' ∷ []) commands world).answered + 1)
flush_writes_all_example =
    flush_writes_all clock disk reliable (b'1' ∷ []) (refl, tt) commands world ready bounded refl
      (omega arith)

not_done : {A : Type 0} {x y : A} → false ≡ true → x ≡ y
not_done e = cc

-- A disk where nothing works.
abbrev broken : Disk
broken = record {
  D = List (List Text × Text);
  FilePath = List Text;
  parent = up;
  join = λ d t. t ∷ d;
  open_append = λ p d. (false, d);
  write_all = λ p t d. (false, d);
  flush = λ p d. (false, d);
  written = λ d. d;
  stored = λ d. d;
  holders = λ d. [];
  parent-join = λ d t n. refl;
  written-open_append = λ p d. refl;
  written-flush = λ p d. refl;
  written-write_all = λ p t d e. not_done e;
  holders-open_append = λ p d e. e;
  holders-write_all = λ p t d e. tt;
  holders-flush = λ p d e h. refl;
  stored-written = λ d e. refl;
}

abbrev broken_world : World clock broken
broken_world = record {
  file = some [];
  buffer = b'x' ∷ [];
  date = some 0;
  datetime = [];
  timestamp_sec = 0;
  state = world.state;
  disk = [];
  answered = 4;
}

abbrev statics : Statics (List Text)
statics = record { current_level = 3; state = world.state }

abbrev field : Text × Text
field = (b'k' ∷ [], b'1' ∷ [])

abbrev span : Text × Option Text
span = (b's' ∷ [], some (b'k' ∷ b'=' ∷ b'1' ∷ []))

abbrev log_file : ℕ → Option ℕ → LogFile (List Text)
log_file n time = record { path = (n ∷ []) ∷ []; is_log = true; created = time }

abbrev three_logs : List (LogFile (List Text))
three_logs =
    log_file 1 (some 30)
    ∷ record { path = (8 ∷ []) ∷ []; is_log = false; created = some 1 }
    ∷ log_file 2 (some 10)
    ∷ log_file 3 none
    ∷ []

abbrev logs_found : Found clock disk ℕ
logs_found = record {
  logs_dir = some [];
  made = success tt;
  listing = success (map success three_logs);
  now = 7;
}

init_rotates_example :
    (files : List (LogFile (List Text))) × LogFiles three_logs files
    × (old : List (LogFile (List Text))) × (init clock disk ℕ (b'1' ∷ []) 2 logs_found
        ≡ success (
          map (λ f. f.path) old,
          record { level = none; path = some (gen_path clock disk (b'1' ∷ []) [] 7); tx = true },
        ))
    × (kept : List (LogFile (List Text))) × Perm (old ++ kept) files
    × (length kept ≡ min 2 (length files))
    × Every (λ o. Every (λ k. older o k ≡ true) kept) old
init_rotates_example =
    init_rotates clock disk ℕ (b'1' ∷ []) 2 logs_found refl refl refl (omega arith)

abbrev two_lines : List Text
two_lines = (b'a' ∷ b'b' ∷ []) ∷ (b'b' ∷ []) ∷ []

-- The world says whether it was flushed; only then are the lines in the file.
abbrev open_lines : ℕ → Bool → Result ℕ (List (Result ℕ Text))
open_lines p true = success (map success two_lines)
open_lines p false = success []

abbrev broken_lines : ℕ → Bool → Result ℕ (List (Result ℕ Text))
broken_lines p w = success (map success two_lines ++ failure 5 ∷ [])

abbrev no_lines : ℕ → Bool → Result ℕ (List (Result ℕ Text))
no_lines p w = failure 5

abbrev flush : Bool → Bool
flush w = true

trace-Picked_example :
    let filters : List Text = (b'a' ∷ []) ∷ [] in
    ((t : Text) × (Lines.trace flush open_lines 9 (λ w. some 0) filters false ≡ (success t, true))
      × Picked filters two_lines t)
    × (Lines.trace flush broken_lines 9 (λ w. some 0) filters false ≡ (failure 5, true))
    × (Lines.trace flush no_lines 9 (λ w. some 0) filters false ≡ (failure 5, true))
    × (Lines.trace flush open_lines 9 (λ w. none) filters false ≡ (failure 9, false))
trace-Picked_example =
    trace-Picked ((b'a' ∷ []) ∷ []) flush open_lines broken_lines no_lines 9 (λ w. some 0)
      (λ w. none) false 0 two_lines [] 5 refl refl refl refl refl
