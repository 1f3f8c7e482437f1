-- ===== src/V3/SpinLock.antt =====
-- `SpinLock` of `v3/src/Common.h`, for any number of threads: one step for each access to the flag.
-- A failed attempt is followed by `cpuPause`, and from the 1024th on by `yield`, which change
-- nothing here. The count of spins does not wrap. The lock of `v2/include/Common.h` is the same but
-- for `yield` from the 64th attempt on.
pub mod Exclusion
use my_memory_pool.Prelude.{ℕ, suc, Bool, true, false, ◌==◌, if◌then◌else◌, ◌≡◌}

-- Where a thread is: outside, in the loop of the constructor, or past it and before the destructor.
pub data Place : Type 0 where
  outside : Place
  spinning : (spins : ℕ) → Place
  holding : Place

pub record Lock : Type 0 where
  pub flag : Bool
  pub place : ℕ → Place

abbrev pub free_lock : Lock
free_lock = record { flag = false; place = λ _. outside }

abbrev pub move : Lock → ℕ → Bool → Place → Lock
move s i flag to = record { flag = flag; place = λ j. if i == j then to else s.place j }

-- `flag_.test_and_set()` by the thread `i` in the loop
abbrev pub attempt : Lock → (i spins : ℕ) → Lock
attempt s i spins = move s i true (if s.flag then spinning (suc spins) else holding)

pub data Step : Lock → Lock → Type 0 where
  enter : (s : Lock) (i : ℕ) → s.place i ≡ outside → Step s (move s i s.flag (spinning 0))
  test_and_set : (s : Lock) (i spins : ℕ) → s.place i ≡ spinning spins → Step s (attempt s i spins)
  clear : (s : Lock) (i : ℕ) → s.place i ≡ holding → Step s (move s i false outside)

pub data Steps : Lock → Lock → Type 0 where
  here : (s : Lock) → Steps s s
  then_step : {s t u : Lock} → Steps s t → Step t u → Steps s u
