-- ===== src/V2/CentralCache/Remove.antt =====
-- The loop of `updateSpanFreeCount` that takes the blocks of a span off the list of its class.
use my_memory_pool.Prelude.{
  Ptr, null, update, ℕ, zero, suc, ◌<◌, ◌≡◌, refl, ◌≢◌, true, false, arith, List, [], ◌∷◌, ◌++◌,
  ne→==, length, Bool-cases, inl, inr, All,
}
use my_memory_pool.Prelude.Command.{Returns, returns}
use my_memory_pool.Prelude.Blocks.{Blocks, end, link, has, frame}
use my_memory_pool.V2.World.{World, SpanTracker, done, and_then}
use my_memory_pool.V2.World.Rules.{load-ok, store-ok}
use my_memory_pool.V2.CentralCache.{in_span, remove_blocks}

module _ (tracker : SpanTracker) where
  -- Behind a block that stays, the new head is settled.
  remove_blocks_behind :
      (fuel new_head prev cur : ℕ) (xs : List Ptr) (w : World)
      → prev ≢ null
      → has prev xs ≡ false
      → Blocks w.word cur xs
      → length xs < fuel
      → Returns
          (λ h w'. (h ≡ new_head) × (w' ≡ record w { word = w'.word }))
          (remove_blocks fuel tracker new_head prev cur w)
  unfolding remove_blocks
  remove_blocks_behind zero new_head prev cur xs w ne out l h = absurd (omega arith)
  remove_blocks_behind (suc fuel) new_head prev _ [] w ne out end h = returns (refl, refl)
  remove_blocks_behind (suc fuel) new_head prev _ (x ∷ xs) w ne out (link {p} {q} some_p e fresh l)
        h =
      elim (Bool-cases (in_span tracker p)) [
        | inl inside ↦
            rw
              (
                ne→== p null some_p,
                load-ok w p some_p,
                and_then,
                inside,
                ne→== prev null ne,
                store-ok w prev (w.word p) ne,
                e,
              )
              (remove_blocks_behind fuel new_head prev q xs
                (record w { word = update w.word prev q }) ne (ground arith)
                (frame prev q l (ground arith)) (omega arith))
        | inr outside ↦
            rw (ne→== p null some_p, load-ok w p some_p, and_then, outside, e)
              (remove_blocks_behind fuel new_head p q xs w some_p fresh l (omega arith))
      ]

  -- If the list of a class begins with a block of another span, the loop answers nullptr,
  -- whatever follows, and writes nothing but links; the fuel exceeds the number of blocks.
  pub remove_blocks_lost :
      (fuel p x : ℕ) (xs : List Ptr) (w : World)
      → in_span tracker p ≡ false
      → Blocks w.word p (x ∷ xs)
      → length (x ∷ xs) < fuel
      → Returns
          (λ new_head w'. (new_head ≡ null) × (w' ≡ record w { word = w'.word }))
          (remove_blocks fuel tracker null null p w)
  unfolding remove_blocks
  remove_blocks_lost zero p x xs w outside l h = absurd (omega arith)
  remove_blocks_lost (suc fuel) _ x xs w outside (link {p} {q} some_p e fresh l) h =
      rw (ne→== p null some_p, load-ok w p some_p, and_then, outside, e)
        (remove_blocks_behind fuel null p q xs w some_p fresh l (omega arith))

  remove_blocks_none :
      (fuel new_head prev cur : ℕ) (ys : List Ptr) (w : World)
      → All (λ y. in_span tracker y ≡ false) ys
      → Blocks w.word cur ys
      → length ys < fuel
      → remove_blocks fuel tracker new_head prev cur w ≡ done new_head w
  unfolding remove_blocks
  remove_blocks_none zero new_head prev cur ys w out l h = absurd (omega arith)
  remove_blocks_none (suc fuel) new_head prev _ [] w out end h = refl
  remove_blocks_none (suc fuel) new_head prev _ (y ∷ ys) w out (link {p} {q} some_p e fresh l) h =
      rw (ne→== p null some_p, load-ok w p some_p, and_then, out.0, e)
        (remove_blocks_none fuel new_head p q ys w out.1 l (omega arith))

  remove_blocks_prefix :
      (fuel cur : ℕ) (xs ys : List Ptr) (w : World)
      → All (λ x. in_span tracker x ≡ true) xs
      → All (λ y. in_span tracker y ≡ false) ys
      → Blocks w.word cur (xs ++ ys)
      → length (xs ++ ys) < fuel
      → Returns
          (λ new_head w'. Blocks w'.word new_head ys × (w' ≡ w))
          (remove_blocks fuel tracker cur null cur w)
  unfolding remove_blocks
  remove_blocks_prefix fuel cur [] ys w inside out l h =
      rw (remove_blocks_none fuel cur null cur ys w out l h) (returns (l, refl))
  remove_blocks_prefix zero cur (x ∷ xs) ys w inside out l h = absurd (omega arith)
  remove_blocks_prefix (suc fuel) _ (x ∷ xs) ys w inside out (link {p} {q} some_p e fresh l) h =
      rw (ne→== p null some_p, load-ok w p some_p, and_then, inside.0, e)
        (remove_blocks_prefix fuel q xs ys w inside.1 out l (omega arith))

  -- If the blocks of the span are the first ones on the list, one or more, the loop answers the
  -- list of the others and writes nothing, given more fuel than the list has blocks.
  pub remove_blocks-Blocks :
      (fuel p x : ℕ) (xs ys : List Ptr) (w : World)
      → All (λ a. in_span tracker a ≡ true) (x ∷ xs)
      → All (λ y. in_span tracker y ≡ false) ys
      → Blocks w.word p ((x ∷ xs) ++ ys)
      → length ((x ∷ xs) ++ ys) < fuel
      → Returns
          (λ new_head w'. Blocks w'.word new_head ys × (w' ≡ w))
          (remove_blocks fuel tracker null null p w)
  unfolding remove_blocks
  remove_blocks-Blocks zero p x xs ys w inside out l h = absurd (omega arith)
  remove_blocks-Blocks (suc fuel) _ x xs ys w inside out (link {p} {q} some_p e fresh l) h =
      rw (ne→== p null some_p, load-ok w p some_p, and_then, inside.0, e)
        (remove_blocks_prefix fuel q xs ys w inside.1 out l (omega arith))
