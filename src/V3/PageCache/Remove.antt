-- ===== src/V3/PageCache/Remove.antt =====
-- `removeFromFreeList`: wherever on its list the span stands.
use my_memory_pool.Prelude.{
  Ptr, null, ℕ, ◌+◌, ◌≡◌, refl, ◌≢◌, ◌⊎◌, arith, List, some, Bool, true, false, ◌==◌, Bool-cases,
  Option-cases, inl, inr, subst, sym, length,
}
use my_memory_pool.Prelude.Assoc.{lookup, insert, IsSorted, lookup-insert, insert-IsSorted, key_ge}
use my_memory_pool.V3.World.{World, Span, Platform, done, and_then}
use my_memory_pool.Prelude.Command.{Returns, returns, weaken}
use my_memory_pool.V3.World.Rules.{read_span-ok, write_span-ok}
use my_memory_pool.V3.PageCache.{unlink_head, remove_from_free_list}
use my_memory_pool.V3.PageCache.Invariant.{
  SpanMap, Chain, frame, not_listed, Inv, total_free-insert,
}
use my_memory_pool.V3.PageCache.Unlink.{taken, Head, list-Head, free_pages_le}
use my_memory_pool.V3.PageCache.Split.{Mapped-write}
use my_memory_pool.V3.PageCache.Reuse.{after_take, after_take-Inv}
use my_memory_pool.V3.PageCache.Walk.{
  Chain-length, relinked, Unlinked, after_unlink, Walked, unlink_free_span-Walked,
}

module _ (os : Platform) (w : World) (inv : Inv os w) {k : ℕ} {a : Ptr} {xs : List Ptr} (q : Ptr)
    (u : Span) (prev : Ptr) (before : Span) (here : lookup q w.spans ≡ some u)
    (listed : lookup k w.free_spans ≡ some a) (r : Unlinked w.spans k a xs q u prev before) where
  abbrev relinked_spans : SpanMap
  relinked_spans = insert prev (relinked before u) w.spans

  q_still : lookup q relinked_spans ≡ some u
  q_still = ground (arith, lookup-insert prev q (relinked before u) w.spans, r.ne)

  relinked-IsSorted : IsSorted 1 relinked_spans
  relinked-IsSorted =
      insert-IsSorted 1 prev (relinked before u) w.spans
        (key_ge 1 prev before w.spans inv.mapped.sorted r.alive) inv.mapped.sorted

  unlinked_lists :
      (j : ℕ) (p : Ptr)
      → lookup j w.free_spans ≡ some p
      → (p ≢ null) × ((ys : List Ptr) × Chain (insert q (taken u) relinked_spans) j p ys)
  unlinked_lists j p e = elim (Bool-cases (k == j)) [
    | inl same ↦
        let key : k ≡ j = ground arith in
        let head : a ≡ p = ground arith in
        (
          (inv.listed.lists j p e).0,
          (
            r.left,
            subst (λ i. Chain (insert q (taken u) relinked_spans) i p r.left) key
                (subst (λ b. Chain (insert q (taken u) relinked_spans) k b r.left) head r.chain),
          ),
        )
    | inr other ↦
        let (ne, (ys, chain)) = inv.listed.lists j p e in
        let no_prev = not_listed prev before chain r.alive (λ e. ground (arith, r.size)) in
        let no_q = not_listed q u chain here (λ e. ground (arith, r.q_size)) in
        (ne, (ys, frame q (taken u) (frame prev (relinked before u) chain no_prev) no_q))
  ]

  after_unlink-Inv : Inv os (after_unlink w prev before q u)
  after_unlink-Inv = record {
    mapped =
        Mapped-write os q u (taken u)
          (Mapped-write os prev before (relinked before u) inv.mapped r.alive refl refl) q_still
          refl refl;
    listed = record {
      keys = inv.listed.keys;
      lists = unlinked_lists;
      counted = ground (
        arith,
        free_pages_le w.spans q u inv.mapped.sorted here r.q_free,
        total_free-insert 1 prev (relinked before u) w.spans inv.mapped.sorted,
        total_free-insert 1 q (taken u) relinked_spans relinked-IsSorted,
        q_still,
        inv.listed.counted,
        here,
        r.alive,
        r.free,
        r.q_free,
      );
    };
  }

-- The free span `q` is off its list: it is alive as before, and so is every span in use.
pub record Removed (os : Platform) (w : World) (q : Ptr) (u : Span) (w' : World) : Type 0 where
  pub inv : Inv os w'
  pub q_now : lookup q w'.spans ≡ some (taken u)
  pub kept :
      (p : Ptr) (s : Span)
      → lookup p w.spans ≡ some s
      → s.in_free_list ≡ false
      → lookup p w'.spans ≡ some s

-- Either nothing happens, or the span is taken off its list.
abbrev pub Tried : Platform → World → Ptr → Span → Bool → World → Type 0
Tried os w q u removed w' =
    ((removed ≡ false) × (w' ≡ w)) ⊎ ((removed ≡ true) × Removed os w q u w')

module _ (os : Platform) (w : World) (inv : Inv os w) (q : Ptr) (u : Span)
    (here : lookup q w.spans ≡ some u) (free : u.in_free_list ≡ true) where
  unlink_head-run : unlink_head os q u w ≡ done true (after_take w u.num_pages q u)
  unfolding unlink_head
  unlink_head-run =
      rw
        (write_span-ok (record (after_take w u.num_pages q u) { spans = w.spans }) q here (taken u))
        refl

  Head-Removed :
      {ys : List Ptr}
      → Head w.spans u.num_pages q u ys
      → Removed os w q u (after_take w u.num_pages q u)
  Head-Removed {ys} h = record {
    inv = after_take-Inv os w u.num_pages q u ys inv h;
    q_now = ground (arith, lookup-insert q q (taken u) w.spans);
    kept = λ p s alive used. ground (arith, lookup-insert q p (taken u) w.spans);
  }

  some_span : q ≢ null
  some_span = ground (arith, key_ge 1 q u w.spans inv.mapped.sorted here)

  behind_Removed :
      {k : ℕ} {a : Ptr} {xs : List Ptr}
      → lookup k w.free_spans ≡ some a
      → (removed : Bool) (w' : World) → Walked os w k q u here some_span a xs removed w'
      → Tried os w q u removed w'
  behind_Removed listed removed w' (inl same) = inl same
  behind_Removed listed removed w' (inr (e, (prev, before, r, e'))) = inr (
    e,
    subst (Removed os w q u) (sym e') (record {
      inv = after_unlink-Inv os w inv q u prev before here listed r;
      q_now = ground (arith, lookup-insert q q (taken u) (insert prev (relinked before u) w.spans));
      kept = λ p s alive used. ground (
        arith,
        lookup-insert q p (taken u) (insert prev (relinked before u) w.spans),
        lookup-insert prev p (relinked before u) w.spans,
        r.alive,
        r.free,
      );
    }),
  )

  -- `removeFromFreeList` runs to the end.
  pub remove_from_free_list-Tried : Returns (Tried os w q u) (remove_from_free_list os q w)
  unfolding remove_from_free_list
  remove_from_free_list-Tried = elim (Option-cases (lookup u.num_pages w.free_spans)) [
    | inl absent ↦ rw (read_span-ok w q here, absent, and_then) (returns (inl (refl, refl)))
    | inr (list, listed) ↦ elim (Bool-cases (list == q)) [
      | inl at_head ↦
          let (s, ys, h) = list-Head inv.listed listed in
          let head : list ≡ q = ground arith in
          let same : s ≡ u = ground (arith, h.alive) in
          rw (read_span-ok w q here, listed, and_then, at_head, unlink_head-run)
            (returns (
              inr (
                refl,
                Head-Removed (
                    subst (λ x. Head w.spans u.num_pages q x ys) same
                      (subst (λ b. Head w.spans u.num_pages b s ys) head h)),
              )))
      | inr behind ↦
          let (ne, (xs, chain)) = inv.listed.lists u.num_pages list listed in
          rw (read_span-ok w q here, listed, and_then, behind)
            (weaken
              (unlink_free_span-Walked os w u.num_pages q u here some_span (length w.spans + 1) list
                xs chain (omega (arith, Chain-length xs chain)) ne (ground arith))
              (behind_Removed listed))
    ]
  ]
