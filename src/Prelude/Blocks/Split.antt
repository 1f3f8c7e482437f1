-- ===== src/Prelude/Blocks/Split.antt =====
-- A list cut after a given number of elements, and lists of blocks in memories that agree on them.
use Prim.Native.Nat.{ℕ, zero, suc, ◌<◌}
use mathlib.Core.Path.{◌≡◌, refl, ap, ◌∙◌}
use mathlib.Core.Bool.{true}
use mathlib.Core.List.{List, [], ◌∷◌, ◌++◌}
use native.Mathlib.Omega.{arith}
use my_memory_pool.Prelude.Tests.{Ptr}
use my_memory_pool.Prelude.Lists.{length}
use my_memory_pool.Prelude.Blocks.{Blocks, end, link, has}

-- A list that is longer than what is kept.
pub record Split (n : ℕ) (zs : List Ptr) : Type 0 where
  pub front : List Ptr
  pub next : Ptr
  pub back : List Ptr
  pub whole : zs ≡ front ++ (next ∷ back)
  pub kept : length front ≡ n

pub length-Split : (n : ℕ) (zs : List Ptr) → n < length zs → Split n zs
length-Split n [] h = absurd (omega arith)
length-Split zero (z ∷ zs) h = record { front = []; next = z; back = zs; whole = refl; kept = refl }
length-Split (suc n) (z ∷ zs) h =
    let s : Split n zs = length-Split n zs (omega arith) in
    record {
      front = z ∷ s.front;
      next = s.next;
      back = s.back;
      whole = ap (λ (l : List Ptr). z ∷ l) s.whole;
      kept = ap suc s.kept;
    }

pub agree :
    {word other : Ptr → Ptr} (p : Ptr) (xs : List Ptr)
    → ((a : Ptr) → has a xs ≡ true → other a ≡ word a)
    → Blocks word p xs
    → Blocks other p xs
agree p [] same end = end
agree p (x ∷ xs) same (link {q = q} ne e fresh l) =
    link ne (same p (ground arith) ∙ e) fresh (agree q xs (λ a h. same a (ground arith)) l)
