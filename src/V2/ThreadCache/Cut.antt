-- ===== src/V2/ThreadCache/Cut.antt =====
-- `returnToCentralCache`: a list over the limit is cut, and what is cut off goes back in order.
use native.Mathlib.Nat.{mul-div_cancel}
use mathlib.Core.List.{append_assoc}
use my_memory_pool.Prelude.{
  Ptr, null, ℕ, ◌+◌, ◌-◌, ◌*◌, ◌≤◌, ◌<◌, ◌≡◌, refl, true, false, arith, List, [], ◌∷◌, ◌++◌, leb,
  ltb, ne→==, ==_refl, length, ap, subst, ◌∙◌, sym, length-append,
}
use my_memory_pool.Prelude.Command.{Returns, returns, bind, weaken}
use my_memory_pool.Prelude.Blocks.{Blocks, link, has, frame}
use my_memory_pool.Prelude.Blocks.Split.{Split, length-Split}
use my_memory_pool.Prelude.Blocks.Join.{
  last, Apart, cut, halves-Apart, has-append, has-last, last_some, first_some,
}
use my_memory_pool.V2.SizeTable.{max_bytes, get_size}
use my_memory_pool.V2.SizeTable.Laws.{get_size_multiple}
use my_memory_pool.V2.SizeClass.{get_index, round_up}
use my_memory_pool.V2.World.{World, Platform, done, and_then}
use my_memory_pool.V2.World.Rules.{load-ok, store-ok}
use my_memory_pool.V2.CentralCache.Lists.{NotDue, return_range-joined}
use my_memory_pool.V2.ThreadCache.{
  ThreadCache, max_blocks, keep_num, split_node, cut_list, return_to_central_cache,
}

-- The free blocks of a class as one thread sees them: `xs` on its own list, which is counted and
-- within its limit, and `ys` on the central list.
pub record Free (index : ℕ) (t : ThreadCache) (w : World) (xs ys : List Ptr) : Type 0 where
  pub own : Blocks w.word (t.free_list index) xs
  pub counted : t.free_list_size index ≡ length xs
  pub bounded : length xs ≤ max_blocks (get_size index)
  pub central : Blocks w.word (w.central_free_list index) ys
  pub apart : Apart xs ys

-- The walk of `returnToCentralCache` finds the last block that is kept.
split_node-last :
    (i batch_num return_num : ℕ) (p x : Ptr) (xs ys : List Ptr) (w : World)
    → Blocks w.word p ((x ∷ xs) ++ ys)
    → split_node (length xs) i p batch_num return_num w ≡ done (last x xs, return_num) w
unfolding split_node
split_node-last i n r _ x [] ys w (link ne e fresh l) = refl
split_node-last i n r _ x (y ∷ xs) ys w (link {p} ne e fresh l) =
    rw (load-ok w p ne, and_then, e, ne→== _ null (first_some l))
      (split_node-last (i + 1) n r _ y xs ys w l)

max_blocks_ge : (size : ℕ) → 8 ≤ max_blocks size
unfolding max_blocks
max_blocks_ge size = omega arith

round_up_class : (size : ℕ) → size ≤ max_bytes → round_up size ≡ get_size (get_index size)
unfolding round_up
round_up_class size le = ground arith

-- What is left of the stack below: some blocks on the thread's list, the others central.
abbrev pub StackIs : ℕ → List Ptr → ThreadCache → World → Type 0
StackIs index zs t w =
    (kept : List Ptr) × ((given : List Ptr) × ((kept ++ given ≡ zs) × Free index t w kept given))

module _ (os : Platform) (fuel : ℕ) where
  -- The list `x ∷ (xs ++ b ∷ bs)` is cut behind `xs`, and the rest goes before the central list.
  cut_list-Free :
      (t : ThreadCache) (start size : ℕ) (x b : Ptr) (xs bs ys : List Ptr) (w : World)
      → get_index size < 56
      → size ≤ max_bytes
      → NotDue os w (get_index size)
      → Blocks w.word start ((x ∷ xs) ++ (b ∷ bs))
      → Blocks w.word (w.central_free_list (get_index size)) ys
      → Apart ((x ∷ xs) ++ (b ∷ bs)) ys
      → length (x ∷ xs) ≤ max_blocks (get_size (get_index size))
      → Returns
          (λ t' w'. Free (get_index size) t' w' (x ∷ xs) ((b ∷ bs) ++ ys))
          (cut_list os fuel t start
            (last x xs)
            (get_index size)
            (length (x ∷ xs))
            (length (b ∷ bs))
            (round_up size)
            w)
  unfolding cut_list
  cut_list-Free t start size x b xs bs ys w class small wait l m far limit =
      let kept_end : has (last x xs) ((x ∷ xs) ++ (b ∷ bs)) ≡ true =
        ground (arith, has-append (last x xs) (x ∷ xs) (b ∷ bs), has-last x xs) in
      let (kept, given) = cut xs (b ∷ bs) l in
      let between : Apart (x ∷ xs) (b ∷ bs) = halves-Apart (x ∷ xs) (b ∷ bs) l in
      let beyond : Apart (b ∷ bs) ys =
        λ a h. far a (ground (arith, has-append a (x ∷ xs) (b ∷ bs))) in
      let outside : has (last b bs) (x ∷ xs) ≡ false =
        ground (arith, has-last b bs, between (last b bs)) in
      let within : Apart (x ∷ xs) ((b ∷ bs) ++ ys) = λ a h.
        let far' : has a ys ≡ false = far a (ground (arith, has-append a (x ∷ xs) (b ∷ bs))) in
        let near : has a (b ∷ bs) ≡ false = between a h in
        ground (arith, has-append a (b ∷ bs) ys) in
      let some_given : ltb 0 (length (b ∷ bs)) ≡ true = ground arith in
      let size_pos : 0 < get_size (get_index size) = (get_size_multiple (get_index size) class).1 in
      rw
        (
          load-ok w (last x xs) (last_some xs (kept)),
          and_then,
          store-ok w (last x xs) null (last_some xs (kept)),
          and_then,
          ne→== _ null (first_some given),
          some_given,
          round_up_class size small,
        )
        (bind
          (return_range-joined os fuel (w.word (last x xs)) b
            (length (b ∷ bs) * get_size (get_index size)) (get_index size) bs ys _ class
            (omega (arith, mul-div_cancel (length (b ∷ bs)) size_pos)) wait given
            (frame (last x xs) null m (far (last x xs) kept_end)) beyond)
          (λ _ w' (central, memory). returns (record {
            own =
                rw (memory, ==_refl (get_index size))
                  (frame (last b bs) (w.central_free_list (get_index size)) kept outside);
            counted = rw (==_refl (get_index size)) refl;
            bounded = limit;
            central = central;
            apart = λ a h. within a h;
          })))

  -- A list over the limit, of the thread's blocks and the one just freed, is cut.
  pub return_to_central_cache-Free :
      (t : ThreadCache) (start size : ℕ) (x : Ptr) (xs ys : List Ptr) (w : World)
      → get_index size < 56
      → size ≤ max_bytes
      → NotDue os w (get_index size)
      → Blocks w.word start (x ∷ xs)
      → Blocks w.word (w.central_free_list (get_index size)) ys
      → Apart (x ∷ xs) ys
      → t.free_list_size (get_index size) ≡ length (x ∷ xs)
      → length (x ∷ xs) ≡ max_blocks (get_size (get_index size)) + 1
      → Returns
          (StackIs (get_index size) ((x ∷ xs) ++ ys))
          (return_to_central_cache os fuel t start size w)
  unfolding return_to_central_cache
  return_to_central_cache-Free t start size x xs ys w class small wait l m far counted over =
      let index : ℕ = get_index size in
      let room : 8 ≤ max_blocks (get_size index) = max_blocks_ge (get_size index) in
      let n : ℕ = keep_num (length (x ∷ xs)) - 1 in
      let some_list : leb (length (x ∷ xs)) 1 ≡ false = ground arith in
      let s : Split n xs = length-Split n xs (omega arith) in
      let l' : Blocks w.word start ((x ∷ s.front) ++ (s.next ∷ s.back)) =
        subst (λ (zs : List Ptr). Blocks w.word start (x ∷ zs)) s.whole l in
      let far' : Apart ((x ∷ s.front) ++ (s.next ∷ s.back)) ys =
        subst (λ (zs : List Ptr). Apart (x ∷ zs) ys) s.whole far in
      let sum : length xs ≡ length s.front + length (s.next ∷ s.back) =
        ap length s.whole ∙ length-append s.front (s.next ∷ s.back) in
      let keep : keep_num (length (x ∷ xs)) ≡ length (x ∷ s.front) = omega (arith, s.kept) in
      let steps : length (x ∷ s.front) - 1 ≡ length s.front = omega arith in
      let whole : (x ∷ s.front) ++ ((s.next ∷ s.back) ++ ys) ≡ (x ∷ xs) ++ ys = sym (
        ap (λ (zs : List Ptr). (x ∷ zs) ++ ys) s.whole
        ∙ append_assoc (x ∷ s.front) (s.next ∷ s.back) ys) in
      let back : length (x ∷ xs) - length (x ∷ s.front) ≡ length (s.next ∷ s.back) = omega arith in
      rw
        (
          counted,
          some_list,
          keep,
          steps,
          split_node-last 0 (length (x ∷ xs)) (length (x ∷ xs) - length (x ∷ s.front)) start x
              s.front (s.next ∷ s.back) w l',
          and_then,
          ne→== _ null (last_some s.front (cut s.front (s.next ∷ s.back) l').0),
          back,
        )
        (weaken
          (cut_list-Free t start size x s.next s.front s.back ys w class small wait l' m far'
            (omega arith))
          (λ t' w' f. (x ∷ s.front, (s.next ∷ s.back ++ ys, (whole, f)))))
