-- ===== src/V3/ThreadCache/Refusal.antt =====
-- What `deallocate` does with a pointer that the pool did not hand out.
use my_memory_pool.Prelude.{
  Ptr, null, ℕ, ◌<◌, ◌≡◌, refl, ◌≢◌, ◌⊎◌, arith, none, true, false, ltb, leb, ◌==◌, if◌then◌else◌,
  Bool-cases, inl, inr, ne→==, size_max,
}
use my_memory_pool.Prelude.Assoc.{lookup}
use my_memory_pool.V3.SizeClass.{alignment, max_bytes, free_list_size, get_index, round_up}
use my_memory_pool.V3.World.{World, Platform, done}
use my_memory_pool.V3.PageCache.{page_id, find_span, find_span_locked}
use my_memory_pool.V3.ThreadCache.{
  ThreadCache, deallocate, deallocate_large, deallocate_small, deallocate_sized,
  debug_validate_and_mark_freed,
}

module _ (os : Platform) (t : ThreadCache) (ptr : Ptr) (w : World) (ne : ptr ≢ null)
    (foreign : lookup (page_id os ptr) w.page_map ≡ none) where
  nobody : find_span os ptr w ≡ done null w
  unfolding find_span find_span_locked
  nobody = rw (ne→== ptr null ne, foreign) refl

  deallocate-foreign : deallocate os t ptr w ≡ done (false, t) w
  unfolding deallocate
  deallocate-foreign = rw (ne→== ptr null ne, nobody) refl

  invalid :
      (expected : ℕ)
      → os.debug_guards ≡ true
      → debug_validate_and_mark_freed os null ptr expected w ≡ done false w
  unfolding debug_validate_and_mark_freed
  invalid expected e = rw e refl

  deallocate_large-foreign : deallocate_large os t ptr w ≡ done (false, t) w
  unfolding deallocate_large
  deallocate_large-foreign = elim (Bool-cases os.debug_guards) [
    | inl on ↦ simp (on, nobody, invalid size_max on)
    | inr off ↦ simp (off, deallocate-foreign)
  ]

  deallocate_small-foreign :
      (index : ℕ) → os.debug_guards ≡ true → deallocate_small os t ptr index w ≡ done (false, t) w
  unfolding deallocate_small
  deallocate_small-foreign index on = simp (on, nobody, invalid index on)

  -- A pointer other than nullptr into a page of no span is refused by `deallocate`, and by
  -- `deallocate` with a size if that is above MAX_BYTES or the debug guards are on; the lists of
  -- the thread and the state are untouched.
  pub deallocate-refused :
      (size : ℕ)
      → (max_bytes < size) ⊎ (os.debug_guards ≡ true)
      → (deallocate os t ptr w ≡ done (false, t) w)
        × (deallocate_sized os t ptr size w ≡ done (false, t) w)
  unfolding deallocate_sized
  deallocate-refused size why = (
    deallocate-foreign,
    elim (Bool-cases (ltb max_bytes (if size == 0 then alignment else size))) [
      | inl large ↦ simp (ne→== ptr null ne, large, deallocate_large-foreign)
      | inr small ↦
          let on : os.debug_guards ≡ true = guarded why small in
          elim (Bool-cases
            (leb free_list_size (get_index (round_up (if size == 0 then alignment else size))))) [
              | inl none_such ↦ simp (ne→== ptr null ne, small, none_such, deallocate-foreign)
              | inr class ↦ simp (
                ne→== ptr null ne,
                small,
                class,
                deallocate_small-foreign
                    (get_index (round_up (if size == 0 then alignment else size))) on,
              )
            ]
    ],
  )
    where
      guarded :
          (max_bytes < size) ⊎ (os.debug_guards ≡ true)
          → ltb max_bytes (if size == 0 then alignment else size) ≡ false
          → os.debug_guards ≡ true
      guarded (inl over) small = absurd (ground arith)
      guarded (inr on) small = on
