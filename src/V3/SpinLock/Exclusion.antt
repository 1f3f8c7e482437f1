-- ===== src/V3/SpinLock/Exclusion.antt =====
-- The lock excludes: at most one thread is past it, and none waits for ever without cause.
use my_memory_pool.Prelude.{
  ℕ, ◌≡◌, refl, sym, ◌∙◌, ap, Bool, true, false, arith, ◌==◌, ==_refl, ne→==, Bool-cases, inl, inr,
  ◌≢◌,
}
use my_memory_pool.V3.SpinLock.{
  Place, outside, spinning, holding, Lock, free_lock, move, attempt, Step, enter, test_and_set,
  clear, Steps, here, then_step,
}

is_holding : Place → Bool
is_holding holding = true
is_holding outside = false
is_holding (spinning spins) = false

-- The flag is set just when a thread holds the lock, and then it is one.
record Inv (s : Lock) : Type 0 where
  pub held : s.flag ≡ true → (i : ℕ) × (s.place i ≡ holding)
  pub set : (i : ℕ) → s.place i ≡ holding → s.flag ≡ true
  pub alone : (i j : ℕ) → s.place i ≡ holding → s.place j ≡ holding → i ≡ j

apart : (s : Lock) (i j : ℕ) {p q : Place} → s.place i ≡ p → s.place j ≡ q → p ≢ q → i ≢ j
apart s i j a b ne e = ne (sym a ∙ (ap s.place e ∙ b))

free_lock-Inv : Inv free_lock
free_lock-Inv = record {
  held = λ h. ground arith;
  set = λ i h. ground arith;
  alone = λ i j h g. ground arith;
}

Step-Inv : (s t : Lock) → Step s t → Inv s → Inv t
Step-Inv s _ (enter _ i e) v = record {
  held = λ h.
      let (j, at) = v.held h in
      let other : (i == j) ≡ false = ne→== i j (apart s i j e at (λ h. cc)) in (j, rw other at);
  set = λ j h. v.set j (ground arith);
  alone = λ j k h g. v.alone j k (ground arith) (ground arith);
}
Step-Inv s _ (test_and_set _ i spins e) v = elim (Bool-cases s.flag) [
  | inl taken ↦
      let (j, at) = v.held taken in
      let other : (i == j) ≡ false = ne→== i j (apart s i j e at (λ h. cc)) in
      record {
        held = λ h. (j, rw other at);
        set = λ j h. refl;
        alone = λ j k h g. v.alone j k (ground arith) (ground arith);
      }
  | inr free ↦
      let none_holds : (j : ℕ) → s.place j ≢ holding =
        λ j h. let t : s.flag ≡ true = v.set j h in cc in
      record {
        held = λ h. (i, rw (==_refl i, free) refl);
        set = λ j h. refl;
        alone = λ j k h g. ground (arith, none_holds j, none_holds k);
      }
]
Step-Inv s _ (clear _ i e) v = record {
  held = λ h. ground arith;
  set = λ j h. ground (arith, v.alone i j e);
  alone = λ j k h g. v.alone j k (ground arith) (ground arith);
}

Steps-Inv : {s t : Lock} → Steps s t → Inv s → Inv t
Steps-Inv (here s) v = v
Steps-Inv (then_step {s} {t} {u} path step) v = Step-Inv t u step (Steps-Inv path v)

-- From the free lock, whatever steps any threads take, two threads that are past the constructor
-- and before the destructor are the same thread.
pub Steps-exclusive :
    (s : Lock) (i j : ℕ) → Steps free_lock s → s.place i ≡ holding → s.place j ≡ holding → i ≡ j
Steps-exclusive s i j path = let v : Inv s = Steps-Inv path free_lock-Inv in v.alone i j

-- From every state that is reached from the free lock, for every thread in the loop there are
-- steps after which it holds the lock: no state is a deadlock.
pub Steps-live :
    (s : Lock) (i spins : ℕ)
    → Steps free_lock s
    → s.place i ≡ spinning spins
    → (t : Lock) × (Steps s t × (t.place i ≡ holding))
Steps-live s i spins path e = elim (Bool-cases s.flag) [
  | inl taken ↦
      let v : Inv s = Steps-Inv path free_lock-Inv in
      let (j, at) = v.held taken in
      let other : (j == i) ≡ false = ne→== j i (apart s j i at e (λ h. cc)) in
      let waits : (move s j false outside).place i ≡ spinning spins = rw other e in
      (
        attempt (move s j false outside) i spins,
        (
          then_step (then_step (here s) (clear s j at))
              (test_and_set (move s j false outside) i spins waits),
          rw (==_refl i) refl,
        ),
      )
  | inr free ↦ (
    attempt s i spins,
    (then_step (here s) (test_and_set s i spins e), rw (==_refl i, free) refl),
  )
]
