-- ===== src/Prelude/Blocks/Join.antt =====
-- Two lists of blocks joined, and one list cut in two, by one write to a last block.
use my_memory_pool.Prelude.Tests.{Ptr, null, update, ◌==◌}
use my_memory_pool.Prelude.Blocks.{Blocks, end, link, has, frame}
use mathlib.Core.Path.{◌≡◌, refl, sym, ap, subst}
use mathlib.Core.Logic.{◌≢◌}
use mathlib.Core.Bool.{true, false, ◌||◌}
use mathlib.Core.List.{List, [], ◌∷◌, ◌++◌}
use native.Mathlib.Omega.{arith}

-- the last of `x ∷ xs`
abbrev pub last : Ptr → List Ptr → Ptr
last x [] = x
last x (y ∷ xs) = last y xs

abbrev pub Apart : List Ptr → List Ptr → Type 0
Apart xs ys = (a : Ptr) → has a xs ≡ true → has a ys ≡ false

pub has-append : (a : Ptr) (xs ys : List Ptr) → has a (xs ++ ys) ≡ (has a xs || has a ys)
has-append a [] ys = refl
has-append a (x ∷ xs) ys = ground (arith, has-append a xs ys)

last_inside : (a x : Ptr) (xs : List Ptr) → has a (x ∷ xs) ≡ false → (last x xs == a) ≡ false
last_inside a x [] h = ground arith
last_inside a x (y ∷ xs) h = last_inside a y xs (ground arith)

pub has-last : (x : Ptr) (xs : List Ptr) → has (last x xs) (x ∷ xs) ≡ true
has-last x [] = ground arith
has-last x (y ∷ xs) = ground (arith, has-last y xs)

module _ {word : Ptr → Ptr} where
  pub first : {p x : Ptr} {xs : List Ptr} → Blocks word p (x ∷ xs) → p ≡ x
  first (link ne e fresh l) = refl

  pub first_some : {p x : Ptr} {xs : List Ptr} → Blocks word p (x ∷ xs) → p ≢ null
  first_some (link ne e fresh l) = ne

  pub first_fresh : {p x : Ptr} {xs : List Ptr} → Blocks word p (x ∷ xs) → has x xs ≡ false
  first_fresh (link ne e fresh l) = fresh

  pub rest : {p x : Ptr} {xs : List Ptr} → Blocks word p (x ∷ xs) → Blocks word (word p) xs
  rest {xs = xs} (link ne e fresh l) = subst (λ (r : Ptr). Blocks word r xs) (sym e) l

  pub last_some : {p x : Ptr} (xs : List Ptr) → Blocks word p (x ∷ xs) → last x xs ≢ null
  last_some [] (link ne e fresh l) = ne
  last_some (y ∷ xs) (link ne e fresh l) = last_some xs l

  -- The list from `q` is hung behind the last block of the list from `p`.
  pub join :
      {p q x : Ptr} (xs ys : List Ptr)
      → Blocks word p (x ∷ xs)
      → Blocks word q ys
      → Apart (x ∷ xs) ys
      → Blocks (update word (last x xs) q) p ((x ∷ xs) ++ ys)
  join {q = q} [] ys (link {p} ne e fresh l) m far =
      link ne (ground arith) (far p (ground arith)) (frame p q m (far p (ground arith)))
  join {q = q} (y ∷ xs) ys (link {p} ne e fresh l) m far =
      link ne (ground (arith, last_inside p y xs fresh))
        (ground (arith, has-append p (y ∷ xs) ys, far p))
        (join xs ys l m (λ a h. far a (ground arith)))

  -- The list is cut behind the last block of `x ∷ xs`.
  pub cut :
      {p x : Ptr} (xs ys : List Ptr)
      → Blocks word p ((x ∷ xs) ++ ys)
      → Blocks (update word (last x xs) null) p (x ∷ xs)
        × Blocks (update word (last x xs) null) (word (last x xs)) ys
  cut [] ys (link {p} ne e fresh l) = (
    link ne (ground arith) refl end,
    subst (λ (r : Ptr). Blocks (update word p null) r ys) (sym e) (frame p null l fresh),
  )
  cut (y ∷ xs) ys (link {p} ne e fresh l) =
      let (a, b) = cut xs ys l in
      let inside : has p (y ∷ xs) ≡ false = ground (arith, has-append p (y ∷ xs) ys) in
      (link ne (ground (arith, last_inside p y xs inside)) inside a, b)

-- No block stands twice on a list.
pub halves-Apart :
    {word : Ptr → Ptr} {p : Ptr} (xs ys : List Ptr) → Blocks word p (xs ++ ys) → Apart xs ys
halves-Apart [] ys l a h = cc
halves-Apart (x ∷ xs) ys (link {p} ne e fresh l) a h =
    ground (arith, has-append p xs ys, halves-Apart xs ys l a, same)
  where
    same : a ≡ p → has a ys ≡ has p ys
    same e = ap (λ (b : Ptr). has b ys) e
