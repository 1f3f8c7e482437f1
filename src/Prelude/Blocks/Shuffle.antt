-- ===== src/Prelude/Blocks/Shuffle.antt =====
-- Lists in another order have the same elements and the same length.
use mathlib.Core.Path.{◌≡◌, refl, ap, ◌∙◌}
use mathlib.Core.Logic.{∥∥₁_elim}
use mathlib.Core.Bool.{Bool-set}
use mathlib.Core.List.{List, Perm, Permᴰ}
use Prim.Native.Nat.{suc}
use native.Mathlib.Nat.{ℕ_set}
use native.Mathlib.Omega.{arith}
use my_memory_pool.Prelude.Tests.{Ptr}
use my_memory_pool.Prelude.Lists.{length}
use my_memory_pool.Prelude.Blocks.{has}

moves : {xs ys : List Ptr} → Permᴰ xs ys → (a : Ptr) → has a xs ≡ has a ys
moves Permᴰ.nil a = refl
moves (Permᴰ.cons e d) a = ground (arith, e, moves d a)
moves (Permᴰ.swap e f) a = ground (arith, e, f)
moves (Permᴰ.trans d d') a = moves d a ∙ moves d' a

keeps_count : {xs ys : List Ptr} → Permᴰ xs ys → length xs ≡ length ys
keeps_count Permᴰ.nil = refl
keeps_count (Permᴰ.cons e d) = ap suc (keeps_count d)
keeps_count (Permᴰ.swap e f) = refl
keeps_count (Permᴰ.trans d d') = keeps_count d ∙ keeps_count d'

pub has-Perm : {xs ys : List Ptr} (a : Ptr) → Perm xs ys → has a xs ≡ has a ys
has-Perm {xs} {ys} a p = ∥∥₁_elim p (Bool-set (has a xs) (has a ys)) (λ d. moves d a)

pub length-Perm : {xs ys : List Ptr} → Perm xs ys → length xs ≡ length ys
length-Perm {xs} {ys} p = ∥∥₁_elim p (ℕ_set (length xs) (length ys)) (λ d. keeps_count d)
