-- ===== src/V3/PageCache/Destroy.antt =====
-- The destructor of the page cache: every span is deleted, and every mapping goes back.
use mathlib.Core.List.{reverse, reverse-cons, append_assoc}
use my_memory_pool.Prelude.{
  Ptr, null, ℕ, suc, ◌+◌, ◌≡◌, refl, ◌≢◌, true, false, ◌||◌, arith, none, some, List, [], ◌∷◌, ◌++◌,
  ◌==◌, if◌then◌else◌, ne→==, All, Option-cases, Bool-cases, subst, ==_refl, inl, inr, ◌∙◌, sym, ap,
}
use my_memory_pool.Prelude.Assoc.{lookup, erase, IsSorted, lookup-erase, key_ge}
use my_memory_pool.Prelude.Blocks.{has}
use my_memory_pool.Prelude.Command.{Returns, returns, bind, weaken}
use my_memory_pool.V3.World.{
  World, Span, Platform, Cmd, ◌>>=◌, ◌>>◌, and_then, get, put, skip, delete_span, free_pages,
}
use my_memory_pool.V3.World.Rules.{delete_span-ok}
use my_memory_pool.V3.PageCache.Invariant.{Inv, first_page}

-- `spans.insert(p)` on a set of pointers; the order of the set does not matter
abbrev pub add_span : Ptr → List Ptr → List Ptr
add_span p set = if has p set then set else p ∷ set

-- the set of the spans that the page map leads to
abbrev pub span_set : List (ℕ × Ptr) → List Ptr
span_set [] = []
span_set ((_, p) ∷ m) = add_span p (span_set m)

unfoldable pub delete_spans : List Ptr → Cmd (Unit {0})
delete_spans [] = skip
delete_spans (p ∷ rest) = do delete_span p; delete_spans rest

unfoldable pub release_mappings : List (Ptr × ℕ) → Cmd (Unit {0})
release_mappings [] = skip
release_mappings ((ptr, bytes) ∷ rest) = do free_pages ptr bytes; release_mappings rest

unfoldable pub destroy : Cmd (Unit {0})
destroy = do
  w ← get
  put (record w { page_map = []; free_spans = [] })
  delete_spans (span_set w.page_map)
  release_mappings w.system_allocs
  w' ← get
  put (record w' { system_allocs = [] })

-- Different pointers to spans that are alive.
abbrev Alive : List Ptr → List (Ptr × Span) → Type 0
Alive [] spans = Unit
Alive (p ∷ ps) spans =
    ((s : Span) × (lookup p spans ≡ some s)) × ((has p ps ≡ false) × Alive ps spans)

Alive-erase :
    (p : Ptr) (ps : List Ptr) (spans : List (Ptr × Span))
    → has p ps ≡ false
    → Alive ps spans
    → Alive ps (erase p spans)
Alive-erase p [] spans out o = tt
Alive-erase p (q ∷ ps) spans out ((s, at), (fresh, o)) = (
  (s, rw (lookup-erase p q spans) (ground arith)),
  (fresh, Alive-erase p ps spans (ground arith) o),
)

delete_spans_lem :
    (ps : List Ptr) (w : World)
    → Alive ps w.spans
    → Returns
        (λ _ w'.
          ((q : Ptr) → lookup q w'.spans ≡ (if has q ps then none else lookup q w.spans))
          × ((w'.unmapped ≡ w.unmapped)
              × ((w'.page_map ≡ w.page_map) × (w'.free_spans ≡ w.free_spans))))
        (delete_spans ps w)
unfolding delete_spans
delete_spans_lem [] w o = returns ((λ q. refl), (refl, (refl, refl)))
delete_spans_lem (p ∷ ps) w ((s, at), (fresh, o)) =
    rw (delete_span-ok w p at, and_then)
      (weaken (delete_spans_lem ps _ (Alive-erase p ps w.spans fresh o))
        (λ _ w' (gone, same). ((λ q. rw (gone q, lookup-erase p q w.spans) (ground arith)), same)))

release_mappings_lem :
    (allocs : List (Ptr × ℕ)) (w : World)
    → All (λ (ptr, _). ptr ≢ null) allocs
    → Returns
        (λ _ w'.
          (w'.unmapped ≡ reverse allocs ++ w.unmapped)
          × ((w'.page_map ≡ w.page_map) × ((w'.free_spans ≡ w.free_spans) × (w'.spans ≡ w.spans))))
        (release_mappings allocs w)
unfolding release_mappings free_pages
release_mappings_lem [] w valid = returns (refl, (refl, (refl, refl)))
release_mappings_lem ((ptr, bytes) ∷ rest) w (ne, valid) = rw (ne→== ptr null ne) (
    weaken (release_mappings_lem rest _ valid) (λ _ w' (e, same). (
      e
          ∙ sym (
              ap (λ (l : List (Ptr × ℕ)). l ++ w.unmapped) (reverse-cons (ptr, bytes) rest)
              ∙ append_assoc (reverse rest) ((ptr, bytes) ∷ []) w.unmapped),
      same,
    )))

has-add_span : (a q : Ptr) (ps : List Ptr) → has a (add_span q ps) ≡ ((a == q) || has a ps)
has-add_span a q ps = elim (Bool-cases (has q ps)) [
  | inl inside ↦ rw inside (elim (Bool-cases (a == q)) [
    | inl same ↦
        rw same (subst (λ (b : Ptr). has b ps ≡ true) {x = q} {y = a} (ground arith) inside)
    | inr other ↦ rw other refl
  ])
  | inr outside ↦ rw outside refl
]

-- A span that some page leads to is in the set.
span_set-has : (j p : ℕ) (m : List (ℕ × Ptr)) → lookup j m ≡ some p → has p (span_set m) ≡ true
unfolding lookup
span_set-has j p [] e = cc
span_set-has j p ((i, q) ∷ m) e =
    rw (has-add_span p q (span_set m)) (ground (arith, span_set-has j p m))

later_key :
    (i j p : ℕ) (m : List (ℕ × Ptr)) → IsSorted (suc i) m → lookup j m ≡ some p → (i == j) ≡ false
later_key i j p m sorted e = ground (arith, key_ge (suc i) j p m sorted e)

-- Where the page map is in key order, each of its entries can be looked up.
span_set-Alive :
    (lo : ℕ) (m : List (ℕ × Ptr)) (spans : List (Ptr × Span))
    → IsSorted lo m
    → ((j p : ℕ) → lookup j m ≡ some p → (s : Span) × (lookup p spans ≡ some s))
    → Alive (span_set m) spans
unfolding lookup
span_set-Alive lo [] spans sorted alive = tt
span_set-Alive lo ((i, q) ∷ m) spans sorted alive =
    let rest : Alive (span_set m) spans =
      span_set-Alive (suc i) m spans sorted.1
        (λ j p e. alive j p (rw (later_key i j p m sorted.1 e) e)) in
    elim (Bool-cases (has q (span_set m))) [
      | inl inside ↦ rw inside rest
      | inr outside ↦ rw outside (alive i q (rw (==_refl i) refl), (outside, rest))
    ]

-- In a page cache that keeps its invariant, with the page map in key order and no mapping at
-- nullptr, the destructor ends without a dangling pointer: no span is left, the maps are empty, and
-- every mapping is given back to the system with its size, in the order in which they were made.
pub destroy_releases :
    (os : Platform) (w : World)
    → Inv os w
    → IsSorted 0 w.page_map
    → All (λ (ptr, _). ptr ≢ null) w.system_allocs
    → Returns
        (λ _ w'.
          (w'.unmapped ≡ reverse w.system_allocs ++ w.unmapped)
          × (((p : Ptr) → lookup p w'.spans ≡ none)
              × ((w'.page_map ≡ []) × ((w'.free_spans ≡ []) × (w'.system_allocs ≡ [])))))
        (destroy w)
unfolding destroy
destroy_releases os w v sorted valid =
    bind
      (delete_spans_lem (span_set w.page_map) _ (
        span_set-Alive 0 w.page_map w.spans sorted
          (λ j p e. let (s, alive, _, _) = v.mapped.owned j p e in (s, alive))))
      (λ _ w' (gone, (same, (map, lists))).
        bind (release_mappings_lem w.system_allocs w' valid)
          (λ _ w'' (released, (map', (lists', spans))). returns (
            released ∙ ap (λ (u : List (Ptr × ℕ)). reverse w.system_allocs ++ u) same,
            ((λ p. rw spans (gone p ∙ all_gone p)), (map' ∙ map, (lists' ∙ lists, refl))),
          )))
  where
    all_gone : (p : Ptr) → (if has p (span_set w.page_map) then none else lookup p w.spans) ≡ none
    all_gone p = elim (Option-cases (lookup p w.spans)) [
      | inl absent ↦ rw absent (ground arith)
      | inr (s, alive) ↦
          let first : lookup (first_page os s + 0) w.page_map ≡ some p =
            v.mapped.registered p s 0 alive (v.mapped.nonempty p s alive) in
          rw (span_set-has (first_page os s + 0) p w.page_map first) refl
    ]
