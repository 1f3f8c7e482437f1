-- ===== src/V1/FreeList/Invariant.antt =====
-- The lock-free list is a stack under any interleaving.
use my_memory_pool.Prelude.{
  Ptr, null, ℕ, ◌≤◌, ◌≡◌, refl, ◌≢◌, inl, inr, Bool, true, false, arith, ◌==◌, List, ◌∷◌,
  if◌then◌else◌, ==_refl, Bool-cases, subst, sym, ap, ◌∙◌,
}
use my_memory_pool.Prelude.Blocks.{Blocks, end, link, has, frame}
use my_memory_pool.V1.Pool.{TaggedPtr}
use my_memory_pool.V1.FreeList.{
  Pc, idle, popping, swapping, pushing, linked, Shared, set_next, swap, Move, pop_start, pop_empty,
  pop_read, pop_retry, pop_done, push_start, push_link, push_retry, push_done,
}

-- the slot that a thread is pushing
abbrev pub holds : Pc → Ptr → Bool
holds (pushing slot _) a = slot == a
holds (linked slot _) a = slot == a
holds _ a = false

-- What a loaded head tells: while the tag is the same, so is the head.
pub record Seen (m : Shared) (old : TaggedPtr) : Type 0 where
  pub not_later : old.tag ≤ m.head.tag
  pub current : old.tag ≡ m.head.tag → old.ptr ≡ m.head.ptr

-- What the locals of a thread say about shared memory, over the stack `xs`.
abbrev pub Local : Shared → List Ptr → Pc → Type 0
Local m xs idle = Unit {0}
Local m xs (popping old) = Seen m old
Local m xs (swapping old n) =
    (old.ptr ≢ null) × Seen m old × (old.tag ≡ m.head.tag → n ≡ m.next old.ptr)
Local m xs (pushing slot old) = (slot ≢ null) × (has slot xs ≡ false) × Seen m old
Local m xs (linked slot old) =
    (slot ≢ null) × (has slot xs ≡ false) × Seen m old × (m.next slot ≡ old.ptr)

pub record Inv (xs : List Ptr) (m : Shared) (pc : ℕ → Pc) : Type 0 where
  pub stack : Blocks m.next m.head.ptr xs
  pub local : (i : ℕ) → Local m xs (pc i)
  pub apart : (i j : ℕ) → i ≢ j → (a : Ptr) → holds (pc i) a ≡ true → holds (pc j) a ≡ false

abbrev pub set_pc : (ℕ → Pc) → ℕ → Pc → ℕ → Pc
set_pc pc i p j = if i == j then p else pc j

-- The caller of `deallocate` owns the slot: it is not free and nobody else gives it back.
abbrev pub Owned : List Ptr → (ℕ → Pc) → Ptr → Type 0
Owned xs pc a = (a ≢ null) × (has a xs ≡ false) × ((j : ℕ) → holds (pc j) a ≡ false)

abbrev pub Permitted : List Ptr → (ℕ → Pc) → {m m' : Shared} {p p' : Pc} → Move m p m' p' → Type 0
Permitted xs pc (push_start slot) = Owned xs pc slot
Permitted xs pc pop_start = Unit {0}
Permitted xs pc _ = Unit {0}

-- What a step does to the stack: a pop that succeeds takes the top, a push that succeeds puts its
-- slot there, and nothing else changes it.
abbrev pub Effect : List Ptr → List Ptr → {m m' : Shared} {p p' : Pc} → Move m p m' p' → Type 0
Effect xs ys (pop_done {old} _) = xs ≡ old.ptr ∷ ys
Effect xs ys (push_done {slot} _) = ys ≡ slot ∷ xs
Effect xs ys pop_start = ys ≡ xs
Effect xs ys _ = ys ≡ xs

-- A thread that did not move, after a change of the head with a new tag.
Local-swap :
    (m : Shared) (xs ys : List Ptr) (p : Ptr) (old : TaggedPtr) (q : Pc)
    → m.head ≡ old
    → Local m xs q
    → ((a : Ptr) → holds q a ≡ true → has a xs ≡ false → has a ys ≡ false)
    → Local (swap m p old) ys q
Local-swap m xs ys p old idle e l out = tt
Local-swap m xs ys p old (popping seen) e l out = record {
  not_later = ground arith;
  current = ground arith;
}
Local-swap m xs ys p old (swapping seen n) e l out =
    (l.0, record { not_later = ground arith; current = ground arith }, ground arith)
Local-swap m xs ys p old (pushing slot seen) e l out =
    (l.0, out slot (==_refl slot) l.1, record { not_later = ground arith; current = ground arith })
Local-swap m xs ys p old (linked slot seen) e l out = (
  l.0,
  out slot (==_refl slot) l.1,
  record { not_later = ground arith; current = ground arith },
  l.3,
)

head_mem :
    {word : Ptr → Ptr} {p : Ptr} {xs : List Ptr} → Blocks word p xs → p ≢ null → has p xs ≡ true
head_mem end ne = absurd (ne refl)
head_mem (link {p} ne e fresh l) ne' = ground (arith, ==_refl p)

-- A thread that did not move, after a write to a slot that is neither free nor its own.
Local-write :
    (m : Shared) (xs : List Ptr) (a v : Ptr) (q : Pc)
    → (m.head.ptr ≢ null → has m.head.ptr xs ≡ true)
    → has a xs ≡ false
    → holds q a ≡ false
    → Local m xs q
    → Local (set_next m a v) xs q
Local-write m xs a v idle top out mine l = tt
Local-write m xs a v (popping seen) top out mine l = record {
  not_later = l.not_later;
  current = l.current;
}
Local-write m xs a v (swapping seen n) top out mine l = (
  l.0,
  record { not_later = l.1.not_later; current = l.1.current },
  ground (arith, top, l.1.current, l.2),
)
Local-write m xs a v (pushing slot seen) top out mine l =
    (l.0, l.1, record { not_later = l.2.not_later; current = l.2.current })
Local-write m xs a v (linked slot seen) top out mine l =
    (l.0, l.1, record { not_later = l.2.not_later; current = l.2.current }, ground (arith, l.3))

module _ {xs : List Ptr} {m : Shared} {pc : ℕ → Pc} (inv : Inv xs m pc) (i : ℕ) where
  -- The thread `i` went to `p'` while the stack became `ys`.
  rebuild :
      (ys : List Ptr) (m' : Shared) (p' : Pc)
      → Blocks m'.next m'.head.ptr ys
      → Local m' ys p'
      → ((j : ℕ) → i ≢ j → Local m' ys (pc j))
      → ((a : Ptr) → holds p' a ≡ true → (j : ℕ) → i ≢ j → holds (pc j) a ≡ false)
      → Inv ys m' (set_pc pc i p')
  rebuild ys m' p' stack mine others claims = record {
    stack = stack;
    local = λ j. elim (Bool-cases (i == j)) [
      | inl here ↦ rw here mine
      | inr there ↦ rw there (others j (ground arith))
    ];
    apart = λ j k ne a h. elim (Bool-cases (i == j)) [
      | inl here ↦ elim (Bool-cases (i == k)) [
        | inl also ↦ absurd (ne (ground arith))
        | inr there ↦ rw there (claims a (rw here at h) k (ground arith))
      ]
      | inr there ↦ elim (Bool-cases (i == k)) [
        | inl here ↦ rw here (unclaimed a j (ground arith) (rw there at h))
        | inr also ↦ rw also (inv.apart j k ne a (rw there at h))
      ]
    ];
  }
    where
      unclaimed : (a : Ptr) (j : ℕ) → i ≢ j → holds (pc j) a ≡ true → holds p' a ≡ false
      unclaimed a j ne h = elim (Bool-cases (holds p' a)) [
        | inl yes' ↦ cc (claims a yes' j ne)
        | inr no' ↦ no'
      ]

  same_stack :
      (p' : Pc)
      → Local m xs p'
      → ((a : Ptr) → holds p' a ≡ true → (j : ℕ) → i ≢ j → holds (pc j) a ≡ false)
      → Inv xs m (set_pc pc i p')
  same_stack p' mine claims = rebuild xs m p' inv.stack mine (λ j ne. inv.local j) claims

  Seen-head : Seen m m.head
  Seen-head = record { not_later = omega arith; current = λ e. refl }

  Local-at : {p : Pc} → pc i ≡ p → Local m xs p
  Local-at e = subst (Local m xs) e (inv.local i)

  claims_at :
      {p : Pc} → pc i ≡ p → (a : Ptr) → holds p a ≡ true → (j : ℕ) → i ≢ j → holds (pc j) a ≡ false
  claims_at e a h j ne = inv.apart i j ne a (subst (λ q. holds q a ≡ true) (sym e) h)

  -- `old` is the head, so its links are those of the stack, and the pop takes the top.
  pop_step :
      {old : TaggedPtr} {n : Ptr} {head : Ptr} {zs : List Ptr}
      → m.head ≡ old
      → pc i ≡ swapping old n
      → Blocks m.next head zs
      → head ≡ m.head.ptr
      → zs ≡ xs
      → (ys : List Ptr) × Inv ys (swap m n old) (set_pc pc i idle) × (xs ≡ old.ptr ∷ ys)
  pop_step e at end h z = absurd ((Local-at at).0 (ground arith))
  pop_step {old} {n} e at (link {p} {q} {xs = ys} ne f fresh rest) h z =
      let mine = Local-at at in
      let top : n ≡ q = ground (arith, mine.2) in
      (
        ys,
        rebuild ys (swap m n old) idle (rw top rest) tt
            (λ j other.
              Local-swap m xs ys n old (pc j) e (inv.local j) (λ a h' out. shorter a p ys z out))
            (λ a h'. cc),
        ground arith,
      )
    where
      shorter : (a p : Ptr) (ys : List Ptr) → p ∷ ys ≡ xs → has a xs ≡ false → has a ys ≡ false
      shorter a p ys z out = ground arith

  push_step :
      {slot : Ptr} {old : TaggedPtr}
      → m.head ≡ old
      → pc i ≡ linked slot old
      → Inv (slot ∷ xs) (swap m slot old) (set_pc pc i idle)
  push_step {slot} {old} e at =
      let mine = Local-at at in
      rebuild (slot ∷ xs) (swap m slot old) idle
        (link mine.0 (mine.3 ∙ sym (ap (λ t. t.ptr) e)) mine.1 inv.stack) tt
        (λ j other.
          Local-swap m xs (slot ∷ xs) slot old (pc j) e (inv.local j)
            (λ a h out. ground (arith, claims_at at slot (==_refl slot) j other)))
        (λ a h. cc)

  -- A step of any thread from where it stands keeps the invariant, if a slot that it starts to
  -- push is its own: a pop that succeeds takes the top of the stack, a push that succeeds puts
  -- its slot on top, and any other step leaves the stack alone.
  pub Move-Inv :
      {m' : Shared} {p p' : Pc} (mv : Move m p m' p')
      → pc i ≡ p
      → Permitted xs pc mv
      → (ys : List Ptr) × Inv ys m' (set_pc pc i p') × Effect xs ys mv
  Move-Inv pop_start at ok = (xs, same_stack (popping m.head) Seen-head (λ a h. cc), refl)
  Move-Inv (pop_empty e) at ok = (xs, same_stack idle tt (λ a h. cc), refl)
  Move-Inv (pop_read {old} ne) at ok = (
    xs,
    same_stack (swapping old (m.next old.ptr)) (ne, Local-at at, λ e. refl) (λ a h. cc),
    refl,
  )
  Move-Inv pop_retry at ok = (xs, same_stack (popping m.head) Seen-head (λ a h. cc), refl)
  Move-Inv (pop_done e) at ok = pop_step e at inv.stack refl refl
  Move-Inv (push_start slot) at ok = (
    xs,
    same_stack (pushing slot m.head) (ok.0, ok.1, Seen-head) (λ a h j ne. ground (arith, ok.2 j)),
    refl,
  )
  Move-Inv (push_link {slot} {old}) at ok =
      let mine = Local-at at in
      let out : has slot xs ≡ false = mine.1 in
      (
        xs,
        rebuild xs (set_next m slot old.ptr) (linked slot old) (frame slot old.ptr inv.stack out)
            (
              mine.0,
              out,
              record { not_later = mine.2.not_later; current = mine.2.current },
              ground arith,
            )
            (λ j other.
              Local-write m xs slot old.ptr (pc j) (head_mem inv.stack) out
                (claims_at at slot (==_refl slot) j other) (inv.local j))
            (λ a h. claims_at at a h),
        refl,
      )
  Move-Inv (push_retry {slot} {old}) at ok =
      let mine = Local-at at in
      (
        xs,
        same_stack (pushing slot m.head) (mine.0, mine.1, Seen-head) (λ a h. claims_at at a h),
        refl,
      )
  Move-Inv (push_done {slot} e) at ok = (slot ∷ xs, push_step e at, refl)

-- The user of a slot may write anything to it.
pub write-Inv :
    {xs : List Ptr} {m : Shared} {pc : ℕ → Pc} (a v : Ptr)
    → Inv xs m pc
    → Owned xs pc a
    → Inv xs (set_next m a v) pc
write-Inv {xs} {m} {pc} a v inv own = record {
  stack = frame a v inv.stack own.1;
  local = λ j. Local-write m xs a v (pc j) (head_mem inv.stack) own.1 (own.2 j) (inv.local j);
  apart = inv.apart;
}
