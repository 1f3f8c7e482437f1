-- ===== src/V2/PageCache/Destroy.antt =====
-- The destructor: every span is deleted, and every mapping goes back to the system.
use my_memory_pool.Prelude.{
  Ptr, null, ℕ, ◌≡◌, refl, ◌≢◌, false, arith, none, some, List, [], ◌∷◌, ◌++◌, map, ne→==,
  if◌then◌else◌, All, ◌∙◌, sym, ap,
}
use mathlib.Core.List.{reverse, reverse-cons, append_assoc}
use my_memory_pool.Prelude.Command.{Returns, returns, bind, weaken}
use my_memory_pool.Prelude.Assoc.{lookup, erase, lookup-erase}
use my_memory_pool.Prelude.Blocks.{has}
use my_memory_pool.V2.World.{Span, World, and_then, free_pages}
use my_memory_pool.V2.World.Rules.{delete_span-ok}
use my_memory_pool.V2.PageCache.{delete_spans, release_mappings, destroy}

abbrev spans_of : List (Ptr × Ptr) → List Ptr
spans_of [] = []
spans_of ((_, p) ∷ m) = p ∷ spans_of m

-- Every span of the map is alive, and recorded once.
abbrev pub Owned : List (Ptr × Ptr) → List (Ptr × Span) → Type 0
Owned [] spans = Unit
Owned ((_, p) ∷ m) spans =
    ((s : Span) × (lookup p spans ≡ some s)) × ((has p (spans_of m) ≡ false) × Owned m spans)

Owned-erase :
    (p : Ptr) (m : List (Ptr × Ptr)) (spans : List (Ptr × Span))
    → has p (spans_of m) ≡ false
    → Owned m spans
    → Owned m (erase p spans)
Owned-erase p [] spans out o = tt
Owned-erase p ((a, q) ∷ m) spans out ((s, at), (fresh, o)) = (
  (s, rw (lookup-erase p q spans) (ground arith)),
  (fresh, Owned-erase p m spans (ground arith) o),
)

delete_spans_lem :
    (m : List (Ptr × Ptr)) (w : World)
    → Owned m w.spans
    → Returns
        (λ _ w'.
          ((q : Ptr) → lookup q w'.spans ≡ (if has q (spans_of m) then none else lookup q w.spans))
          × (w'.unmapped ≡ w.unmapped))
        (delete_spans m w)
unfolding delete_spans
delete_spans_lem [] w o = returns ((λ q. refl), refl)
delete_spans_lem ((a, p) ∷ m) w ((s, at), (fresh, o)) =
    rw (delete_span-ok w p at, and_then)
      (weaken (delete_spans_lem m _ (Owned-erase p m w.spans fresh o))
        (λ _ w' (gone, same). ((λ q. rw (gone q, lookup-erase p q w.spans) (ground arith)), same)))

release_mappings_lem :
    (allocs : List (Ptr × ℕ)) (w : World)
    → All (λ (ptr, _). ptr ≢ null) allocs
    → Returns
        (λ _ w'.
          (w'.unmapped ≡ reverse allocs ++ w.unmapped)
          × ((w'.span_map ≡ w.span_map) × ((w'.free_spans ≡ w.free_spans) × (w'.spans ≡ w.spans))))
        (release_mappings allocs w)
unfolding release_mappings free_pages
release_mappings_lem [] w valid = returns (refl, (refl, (refl, refl)))
release_mappings_lem ((ptr, bytes) ∷ rest) w (ne, valid) = rw (ne→== ptr null ne) (
    weaken (release_mappings_lem rest _ valid) (λ _ w' (e, same). (
      e
          ∙ sym (
              ap (λ (l : List (Ptr × ℕ)). l ++ w.unmapped) (reverse-cons (ptr, bytes) rest)
              ∙ append_assoc (reverse rest) ((ptr, bytes) ∷ []) w.unmapped),
      same,
    )))

-- If every span of the map is alive and recorded once, and no mapping begins at nullptr, the
-- destructor ends: the maps are empty, just the spans of the map are deleted, and every mapping is
-- given back to the system with its size, in the order in which they were made.
pub destroy-unmapped :
    (w : World)
    → Owned w.span_map w.spans
    → All (λ (ptr, _). ptr ≢ null) w.system_allocs
    → Returns
        (λ _ w'.
          (w'.unmapped ≡ reverse w.system_allocs ++ w.unmapped)
          × ((w'.span_map ≡ [])
              × ((w'.free_spans ≡ [])
                  × ((q : Ptr)
                      → lookup q w'.spans
                        ≡ (if has q (spans_of w.span_map) then none else lookup q w.spans)))))
        (destroy w)
unfolding destroy
destroy-unmapped w o valid = bind (delete_spans_lem w.span_map w o) (λ _ w' (gone, same).
    weaken (release_mappings_lem w.system_allocs _ valid)
      (λ _ w'' (released, (map, (lists, spans))). (
        released ∙ ap (λ (u : List (Ptr × ℕ)). reverse w.system_allocs ++ u) same,
        (map, (lists, λ q. rw spans (gone q))),
      )))
