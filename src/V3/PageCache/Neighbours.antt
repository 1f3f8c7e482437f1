-- ===== src/V3/PageCache/Neighbours.antt =====
-- The neighbours of a span that is given back: those that are free are merged with it.
use my_memory_pool.Prelude.{
  Ptr, null, ℕ, ◌+◌, ◌-◌, ◌*◌, ◌≡◌, refl, ◌≢◌, arith, some, Bool, true, false, ◌==◌, if◌then◌else◌,
  Bool-cases, Option-cases, inl, inr, subst, sym, ne→==,
}
use my_memory_pool.Prelude.Assoc.{lookup, key_ge}
use my_memory_pool.V3.World.{World, Span, Platform, pure, page_size}
use my_memory_pool.Prelude.Command.{Returns, returns, bind}
use my_memory_pool.V3.World.Rules.{read_span-ok}
use my_memory_pool.V3.PageCache.{
  page_id, find_span_locked, follows, precedes, take_next, take_prev, merge_next, merge_prev,
  absorb_next, absorb_prev,
}
use my_memory_pool.V3.PageCache.Invariant.{Inv}
use my_memory_pool.V3.PageCache.Unlink.{taken}
use my_memory_pool.V3.PageCache.Remove.{Tried, remove_from_free_list-Tried}
use my_memory_pool.V3.PageCache.Kept.{Keeps-refl}
use my_memory_pool.V3.PageCache.Absorb.{
  Merged, merged_others, absorb_next-run, absorb_prev-run, merged-InUse,
}

module _ (os : Platform) (w : World) (inv : Inv os w) (p : Ptr) (s : Span)
    (alive : lookup p w.spans ≡ some s) (used : s.in_free_list ≡ false) where
  unchanged : Merged os p w p w
  unchanged = record {
    now = record { inv = inv; span = s; alive = alive; used = used };
    keeps = Keeps-refl;
  }

  take_next-Merged :
      (q : Ptr) (u : Span)
      → lookup q w.spans ≡ some u
      → u.in_free_list ≡ true
      → q ≢ p
      → u.page_addr ≡ s.page_addr + s.num_pages * page_size os
      → Returns (λ _ w'. Merged os p w p w') (take_next os p q w)
  unfolding take_next
  take_next-Merged q u there free ne adjacent =
      bind (remove_from_free_list-Tried os w inv q u there free) after
    where
      after :
          (removed : Bool) (w' : World)
          → Tried os w q u removed w'
          → Returns
              (λ _ w''. Merged os p w p w'')
              ((if removed then absorb_next os p q else pure tt) w')
      after removed w' (inl (e, same)) =
          rw e (returns (subst (Merged os p w p) (sym same) unchanged))
      after removed w' (inr (e, r)) =
          let kept = r.kept p s alive used in
          rw (e, absorb_next-run os w' r.inv q p (taken u) s r.q_now refl kept used ne adjacent)
            (returns (record {
              now = merged-InUse os w' r.inv q p (taken u) s r.q_now refl kept used ne adjacent;
              keeps = record {
                others = λ a t here in_use other. (
                  merged_others os w' r.inv q p (taken u) s r.q_now refl kept used ne adjacent a t
                      (r.kept a t here in_use) (ground arith) other,
                  other,
                );
              };
            }))

  take_prev-Merged :
      (q : Ptr) (u : Span)
      → lookup q w.spans ≡ some u
      → u.in_free_list ≡ true
      → p ≢ q
      → s.page_addr ≡ u.page_addr + u.num_pages * page_size os
      → Returns (λ r w'. Merged os p w r w') (take_prev os p q s.num_pages w)
  unfolding take_prev
  take_prev-Merged q u there free ne adjacent =
      bind (remove_from_free_list-Tried os w inv q u there free) after
    where
      after :
          (removed : Bool) (w' : World)
          → Tried os w q u removed w'
          → Returns
              (λ r w''. Merged os p w r w'')
              ((if removed then absorb_prev os p q s.num_pages else pure p) w')
      after removed w' (inl (e, same)) =
          rw e (returns (subst (Merged os p w p) (sym same) unchanged))
      after removed w' (inr (e, r)) =
          let kept = r.kept p s alive used in
          rw (e, absorb_prev-run os w' r.inv p q s (taken u) kept used r.q_now refl ne adjacent)
            (returns (record {
              now = merged-InUse os w' r.inv p q s (taken u) kept used r.q_now refl ne adjacent;
              keeps = record {
                others = λ a t here in_use other.
                    let not_q : a ≢ q = ground arith in
                    (
                      merged_others os w' r.inv p q s (taken u) kept used r.q_now refl ne adjacent a
                          t (r.kept a t here in_use) other not_q,
                      not_q,
                    );
              };
            }))

  -- A page that leads to a span leads to one that is alive.
  page_alive :
      (j : ℕ) (q : Ptr)
      → lookup j w.page_map ≡ some q
      → (u : Span) × (lookup q w.spans ≡ some u) × (q ≢ null)
  page_alive j q e =
      let (u, there, _, _) = inv.mapped.owned j q e in
      (u, there, ground (arith, key_ge 1 q u w.spans inv.mapped.sorted there))

  pub merge_next-Merged : Returns (λ _ w'. Merged os p w p w') (merge_next os p w)
  unfolding merge_next find_span_locked
  merge_next-Merged =
      let addr = s.page_addr + s.num_pages * page_size os in
      elim (Option-cases (lookup (page_id os addr) w.page_map)) [
        | inl nobody ↦ rw (read_span-ok w p alive, nobody) (returns unchanged)
        | inr (q, found) ↦
            let (u, there, ne) = page_alive (page_id os addr) q found in
            elim (Bool-cases (follows os s p addr q u)) [
              | inl joins ↦
                  rw (read_span-ok w p alive, found, ne→== q null ne, read_span-ok w q there, joins)
                    (take_next-Merged q u there (ground arith) (ground arith) (ground arith))
              | inr apart ↦
                  rw (read_span-ok w p alive, found, ne→== q null ne, read_span-ok w q there, apart)
                    (returns unchanged)
            ]
      ]

  -- Merging with the span before answers a span in use.
  pub merge_prev-Merged : Returns (λ r w'. Merged os p w r w') (merge_prev os p w)
  unfolding merge_prev find_span_locked
  merge_prev-Merged = elim (Bool-cases (s.page_addr == s.origin_addr)) [
    | inl first ↦ rw (read_span-ok w p alive, first) (returns unchanged)
    | inr later ↦ elim (Option-cases (lookup (page_id os (s.page_addr - 1)) w.page_map)) [
      | inl nobody ↦ rw (read_span-ok w p alive, later, nobody) (returns unchanged)
      | inr (q, found) ↦
          let (u, there, ne) = page_alive (page_id os (s.page_addr - 1)) q found in
          elim (Bool-cases (precedes os s p q u)) [
            | inl joins ↦
                rw
                  (
                    read_span-ok w p alive,
                    later,
                    found,
                    ne→== q null ne,
                    read_span-ok w q there,
                    joins,
                  )
                  (take_prev-Merged q u there (ground arith) (ground arith) (ground arith))
            | inr apart ↦
                rw
                  (
                    read_span-ok w p alive,
                    later,
                    found,
                    ne→== q null ne,
                    read_span-ok w q there,
                    apart,
                  )
                  (returns unchanged)
          ]
    ]
  ]
