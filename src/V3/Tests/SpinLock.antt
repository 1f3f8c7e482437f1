-- ===== src/V3/Tests/SpinLock.antt =====
-- Two threads at the lock: the first one holds it, the second one waits.
use my_memory_pool.Prelude.{ℕ, ◌≡◌, refl, false}
use my_memory_pool.V3.SpinLock.{
  Lock, spinning, holding, free_lock, move, attempt, enter, test_and_set, Steps, here, then_step,
}
use my_memory_pool.V3.SpinLock.Exclusion.{Steps-exclusive, Steps-live}

abbrev entered : Lock
entered = move (move free_lock 0 false (spinning 0)) 1 false (spinning 0)

abbrev contended : Lock
contended = attempt (attempt entered 0 0) 1 0

contended_path : Steps free_lock contended
contended_path =
    then_step
      (then_step
        (then_step (then_step (here free_lock) (enter free_lock 0 refl))
          (enter (move free_lock 0 false (spinning 0)) 1 refl))
        (test_and_set entered 0 0 refl))
      (test_and_set (attempt entered 0 0) 1 0 refl)

Steps-exclusive_example : ◌≡◌ {A = ℕ} 0 0
Steps-exclusive_example = Steps-exclusive contended 0 0 contended_path refl refl

Steps-live_example : (t : Lock) × (Steps contended t × (t.place 1 ≡ holding))
Steps-live_example = Steps-live contended 1 1 contended_path refl
