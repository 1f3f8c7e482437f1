-- ===== src/V2/ThreadCache/Stack.antt =====
-- A thread's list of a class, followed by the central list, is one stack: `allocate` takes the top,
-- `deallocate` puts a block there, and blocks that go back to the central cache stay in place.
use mathlib.Core.List.{head-eq_of_cons-eq, tail-eq_of_cons-eq}
use my_memory_pool.Prelude.{
  Ptr, null, update, ℕ, zero, suc, ◌+◌, ◌≤◌, ◌<◌, ◌≡◌, refl, ◌≢◌, false, arith, List, [], ◌∷◌, ◌++◌,
  ◌==◌, leb, ltb, ne→==, ==_refl, Bool-cases, inl, inr, subst, ◌∙◌, sym,
}
use my_memory_pool.Prelude.Command.{Returns, returns, bind, weaken}
use my_memory_pool.Prelude.Blocks.{Blocks, end, has, frame, push, head_null}
use my_memory_pool.Prelude.Blocks.Join.{Apart, has-append, first, first_some, first_fresh, rest}
use my_memory_pool.V2.SizeTable.{max_bytes, free_list_size, get_size}
use my_memory_pool.V2.SizeTable.Laws.{free_list_size_lem}
use my_memory_pool.V2.SizeClass.{get_index}
use my_memory_pool.V2.SizeClass.Agreement.{small_class}
use my_memory_pool.V2.World.{World, Platform, done, and_then}
use my_memory_pool.V2.World.Rules.{load-ok, store-ok}
use my_memory_pool.V2.CentralCache.{fetch_range}
use my_memory_pool.V2.CentralCache.Lists.{NotDue, take_block-first}
use my_memory_pool.V2.ThreadCache.{
  ThreadCache, set_list, max_blocks, should_return_to_central_cache, count_links,
  fetch_from_central_cache, allocate_small, allocate, deallocate,
}
use my_memory_pool.V2.ThreadCache.Cut.{Free, StackIs, return_to_central_cache-Free}

pub count_links-null : (fuel n : ℕ) (w : World) → 0 < fuel → count_links fuel n null w ≡ done n w
unfolding count_links
count_links-null zero n w h = absurd (omega arith)
count_links-null (suc fuel) n w h = refl

module _ (os : Platform) (fuel : ℕ) where
  -- The free blocks of a class that a thread sees, its own and then the central ones, are well-
  -- formed lists that share no block, and its own are counted and within the limit. A block that
  -- is on neither and not at nullptr, freed with a size of at most MAX_BYTES while no delayed
  -- return of its class is due, is the new top of the stack: no other block moves, whether or not
  -- part of the thread's list goes back to the central cache, and the thread's list is within its
  -- limit again.
  pub deallocate-StackIs :
      (t : ThreadCache) (ptr size : ℕ) (xs ys : List Ptr) (w : World)
      → size ≤ max_bytes
      → ptr ≢ null
      → has ptr (xs ++ ys) ≡ false
      → Free (get_index size) t w xs ys
      → NotDue os w (get_index size)
      → Returns (StackIs (get_index size) ((ptr ∷ xs) ++ ys)) (deallocate os fuel t ptr size w)
  unfolding deallocate should_return_to_central_cache
  deallocate-StackIs t ptr size xs ys w small some_block fresh f wait =
      let index : ℕ = get_index size in
      let not_large : ltb max_bytes size ≡ false = ground arith in
      let own : Blocks (update w.word ptr (t.free_list index)) ptr (ptr ∷ xs) =
        push ptr f.own some_block (ground (arith, has-append ptr xs ys)) in
      let central : Blocks (update w.word ptr (t.free_list index)) (w.central_free_list index) ys =
        frame ptr (t.free_list index) f.central (ground (arith, has-append ptr xs ys)) in
      let far : Apart (ptr ∷ xs) ys = λ a h. elim (Bool-cases (a == ptr)) [
        | inl same ↦
            subst (λ (c : Ptr). has c ys ≡ false) {x = ptr} (ground arith)
              (ground (arith, has-append ptr xs ys))
        | inr other ↦ f.apart a (ground arith)
      ] in
      elim (Bool-cases (ltb (max_blocks (get_size index)) (t.free_list_size index + 1))) [
        | inl over ↦
            rw (not_large, store-ok w ptr (t.free_list index) some_block, ==_refl index, over)
              (return_to_central_cache-Free os fuel
                (set_list t index ptr (t.free_list_size index + 1)) ptr size ptr xs ys _
                (small_class size small) small wait own central far
                (rw (==_refl index) (omega (arith, f.counted)))
                (ground (arith, f.counted, f.bounded)))
        | inr within ↦
            rw (not_large, store-ok w ptr (t.free_list index) some_block, ==_refl index, within)
              (returns (
                ptr ∷ xs,
                (
                  ys,
                  (
                    refl,
                    record {
                      own = rw (==_refl index) own;
                      counted = rw (==_refl index) (omega (arith, f.counted));
                      bounded = ground (arith, f.counted);
                      central = central;
                      apart = far;
                    },
                  ),
                ),
              ))
      ]

  allocate_own :
      (t : ThreadCache) (index : ℕ) (x : Ptr) (xs ys : List Ptr) (w : World)
      → Free index t w (x ∷ xs) ys
      → Returns (λ (r, t') w'. (r ≡ x) × Free index t' w' xs ys) (allocate_small os fuel t index w)
  unfolding allocate_small
  allocate_own t index x xs ys w f =
      rw (ne→== _ null (first_some f.own), load-ok w _ (first_some f.own))
        (returns (
          first f.own,
          record {
            own = rw (==_refl index) (rest f.own);
            counted = rw (==_refl index) (ground (arith, f.counted));
            bounded = omega (arith, f.bounded);
            central = f.central;
            apart = λ a h. f.apart a (ground arith);
          },
        ))

  allocate_central :
      (t : ThreadCache) (index : ℕ) (y : Ptr) (ys : List Ptr) (w : World)
      → index < 56
      → 0 < fuel
      → Free index t w [] (y ∷ ys)
      → Returns (λ (r, t') w'. (r ≡ y) × Free index t' w' [] ys) (allocate_small os fuel t index w)
  unfolding allocate_small fetch_from_central_cache fetch_range count_links
  allocate_central t index y ys w class pos f =
      let none_own : t.free_list index ≡ null = head_null f.own in
      let known : leb free_list_size index ≡ false = ground (arith, free_list_size_lem) in
      let e : w.central_free_list index ≡ y = first f.central in
      rw (none_own, known, ne→== _ null (first_some f.central))
        (bind (take_block-first index _ y ys w f.central refl) (λ r w' (same, memory, lists).
          let some_r : r ≢ null = λ h. first_some f.central (e ∙ (sym same ∙ h)) in
          let cleared : w'.word r ≡ null = rw (memory, same, ==_refl y) refl in
          rw
            (
              ne→== r null some_r,
              load-ok w' r some_r,
              cleared,
              and_then,
              count_links-null fuel 0 w' pos,
              and_then,
            )
            (returns (
              same,
              record {
                own = rw (==_refl index) end;
                counted = rw (==_refl index) (omega (arith, f.counted));
                bounded = f.bounded;
                central =
                    rw (memory, lists index, ==_refl index)
                      (frame y null
                        (subst (λ (c : Ptr). Blocks w.word (w.word c) ys) e (rest f.central))
                        (first_fresh f.central));
                apart = λ a h. ground arith;
              },
            ))))

  -- For well-formed lists of free blocks, the thread's, counted and within its limit, and the
  -- central one, that share no block and are not both empty, a request for 1 to
  -- MAX_BYTES bytes takes the top block of the stack: the first of the thread's blocks, or of the
  -- central ones when the thread has none. Every other free block stays in place. One step of
  -- fuel is enough.
  pub allocate-StackIs :
      (t : ThreadCache) (size : ℕ) (xs ys : List Ptr) (p : Ptr) (zs : List Ptr) (w : World)
      → 0 < size
      → size ≤ max_bytes
      → 0 < fuel
      → Free (get_index size) t w xs ys
      → xs ++ ys ≡ p ∷ zs
      → Returns
          (λ (r, t') w'. (r ≡ p) × StackIs (get_index size) zs t' w')
          (allocate os fuel t size w)
  unfolding allocate
  allocate-StackIs t size xs ys p zs w pos small enough f e =
      let given : (size == 0) ≡ false = ground arith in
      let not_large : ltb max_bytes size ≡ false = ground arith in
      rw (given, not_large) (top xs ys f e)
    where
      top :
          (xs ys : List Ptr)
          → Free (get_index size) t w xs ys
          → xs ++ ys ≡ p ∷ zs
          → Returns
              (λ (r, t') w'. (r ≡ p) × StackIs (get_index size) zs t' w')
              (allocate_small os fuel t (get_index size) w)
      top [] [] f e = cc
      top [] (y ∷ ys) f e =
          weaken (allocate_central t (get_index size) y ys w (small_class size small) enough f)
            (λ r w' (same, f').
              (same ∙ head-eq_of_cons-eq e, ([], (ys, (tail-eq_of_cons-eq e, f')))))
      top (x ∷ xs) ys f e =
          weaken (allocate_own t (get_index size) x xs ys w f) (λ r w' (same, f').
            (same ∙ head-eq_of_cons-eq e, (xs, (ys, (tail-eq_of_cons-eq e, f')))))
