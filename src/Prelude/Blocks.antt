-- ===== src/Prelude/Blocks.antt =====
-- Lists of free blocks in pool memory: each block holds the address of the next one.
pub mod Join
pub mod Held
pub mod Split
pub mod Shuffle
use mathlib.Core.Path.{◌≡◌, refl}
use mathlib.Core.Logic.{◌≢◌}
use mathlib.Core.Bool.{Bool, false, ◌||◌}
use mathlib.Core.List.{List, [], ◌∷◌}
use native.Mathlib.Omega.{arith}
use my_memory_pool.Prelude.Tests.{Ptr, null, update, ◌==◌}
use my_memory_pool.Prelude.Lists.{length}

abbrev pub has : Ptr → List Ptr → Bool
has a [] = false
has a (p ∷ xs) = (a == p) || has a xs

-- From `p` the links lead through the distinct blocks `xs`, and the last one ends the list.
pub data Blocks (word : Ptr → Ptr) : Ptr → List Ptr → Type 0 where
  end : Blocks word null []
  link :
      {p q : Ptr} {xs : List Ptr}
      → p ≢ null
      → word p ≡ q
      → has p xs ≡ false
      → Blocks word q xs
      → Blocks word p (p ∷ xs)

module _ {word : Ptr → Ptr} where
  -- A write outside the list leaves it as it is.
  pub frame :
      {p : Ptr} {xs : List Ptr} (a b : Ptr)
      → Blocks word p xs
      → has a xs ≡ false
      → Blocks (update word a b) p xs
  frame a b end out = end
  frame a b (link {p} ne e fresh l) out = link ne (ground arith) fresh (frame a b l (ground arith))

  pub push :
      {p : Ptr} {xs : List Ptr} (a : Ptr)
      → Blocks word p xs
      → a ≢ null
      → has a xs ≡ false
      → Blocks (update word a p) a (a ∷ xs)
  push {p} a l ne out = link ne (ground arith) out (frame a p l out)

  pub head_null : {p : Ptr} → Blocks word p [] → p ≡ null
  head_null end = refl

  pub null_empty : {xs : List Ptr} {p : Ptr} → Blocks word p xs → p ≡ null → length xs ≡ 0
  null_empty end e = refl
  null_empty (link ne f fresh l) e = absurd (ne e)
