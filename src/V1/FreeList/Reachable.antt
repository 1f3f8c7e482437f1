-- ===== src/V1/FreeList/Reachable.antt =====
-- What any number of threads can do to the list, from the empty list on.
use my_memory_pool.Prelude.{Ptr, null, ℕ, ◌≡◌, refl, List, [], subst}
use my_memory_pool.Prelude.Blocks.{end}
use my_memory_pool.V1.FreeList.{
  Pc, idle, Shared, tagged, set_next, Move, pop_start, pop_empty, pop_read, pop_retry, pop_done,
  push_start, push_link, push_retry, push_done,
}
use my_memory_pool.V1.FreeList.Invariant.{
  Inv, Owned, Permitted, Effect, set_pc, Move-Inv, write-Inv,
}

-- The states that steps of the threads and writes of the users to their own slots lead to, with
-- the slots that were pushed and not popped since, the last one first.
pub data Reachable : List Ptr → Shared → (ℕ → Pc) → Type 0 where
  start :
      (next : Ptr → Ptr) → Reachable [] (record { head = tagged null 0; next = next }) (λ _. idle)
  step :
      {xs ys : List Ptr} {m m' : Shared} {pc : ℕ → Pc} {p p' : Pc} (i : ℕ) (mv : Move m p m' p')
      → Reachable xs m pc
      → pc i ≡ p
      → Permitted xs pc mv
      → Effect xs ys mv
      → Reachable ys m' (set_pc pc i p')
  write :
      {xs : List Ptr} {m : Shared} {pc : ℕ → Pc} (a v : Ptr)
      → Reachable xs m pc
      → Owned xs pc a
      → Reachable xs (set_next m a v) pc

-- A step has one effect.
Effect-unique :
    (xs ys zs : List Ptr) {m m' : Shared} {p p' : Pc} (mv : Move m p m' p')
    → Effect xs ys mv
    → Effect xs zs mv
    → ys ≡ zs
Effect-unique xs ys zs pop_start a b = cc
Effect-unique xs ys zs (pop_empty e) a b = cc
Effect-unique xs ys zs (pop_read e) a b = cc
Effect-unique xs ys zs pop_retry a b = cc
Effect-unique xs ys zs (pop_done e) a b = cc
Effect-unique xs ys zs (push_start slot) a b = cc
Effect-unique xs ys zs push_link a b = cc
Effect-unique xs ys zs push_retry a b = cc
Effect-unique xs ys zs (push_done e) a b = cc

-- In every state that any number of threads can reach from the empty list by interleaving pushes
-- of their own slots and pops, with spurious failures and with writes to slots in use, the links
-- from the head lead through exactly the slots pushed and not popped since, all different, and no
-- two threads push one slot.
pub Reachable-Inv : {xs : List Ptr} {m : Shared} {pc : ℕ → Pc} → Reachable xs m pc → Inv xs m pc
Reachable-Inv (start next) = record { stack = end; local = λ i. tt; apart = λ i j ne a h. refl }
Reachable-Inv (step {xs = xs} {ys = ys} {m' = m'} {pc = pc} {p' = p'} i mv r at ok effect) =
    let (zs, inv, effect') = Move-Inv (Reachable-Inv r) i mv at ok in
    subst (λ l. Inv l m' (set_pc pc i p')) (Effect-unique xs zs ys mv effect' effect) inv
Reachable-Inv (write a v r own) = write-Inv a v (Reachable-Inv r) own
