-- ===== src/Prelude/Assoc.antt =====
-- `std::map` with keys of type `size_t`, as an association list in key order. The laws in `if` form
-- hold of every list; only `lower_bound` reads the order.
use my_memory_pool.Prelude.Tests.{ltb, ◌==◌, ==_refl, if◌then◌else◌}
use Prim.Native.Nat.{ℕ, suc, ◌≤◌, ◌<◌}
use mathlib.Core.Path.{◌≡◌, refl}
use mathlib.Core.List.{List, [], ◌∷◌}
use mathlib.Core.Option.{Option, none, some}
use native.Mathlib.Omega.{arith}

module _ {ℓ} {V : Type ℓ} where
  -- `find`
  unfoldable pub lookup : ℕ → List (ℕ × V) → Option V
  lookup key [] = none
  lookup key ((j, v) ∷ m) = if j == key then some v else lookup key m

  -- `m[k] = v`
  unfoldable pub insert : ℕ → V → List (ℕ × V) → List (ℕ × V)
  insert k v [] = (k, v) ∷ []
  insert k v ((j, w) ∷ m) =
      if ltb k j then (k, v) ∷ (j, w) ∷ m else if j == k then (k, v) ∷ m else (j, w) ∷ insert k v m

  -- `erase(k)`
  unfoldable pub erase : ℕ → List (ℕ × V) → List (ℕ × V)
  erase k [] = []
  erase k ((j, w) ∷ m) = let rest = erase k m in if j == k then rest else (j, w) ∷ rest

  -- `lower_bound(k)`: the first entry whose key is not below `k`
  unfoldable pub lower_bound : ℕ → List (ℕ × V) → Option (ℕ × V)
  lower_bound k [] = none
  lower_bound k ((j, v) ∷ m) = if ltb j k then lower_bound k m else some (j, v)

  pub lookup-insert :
      (key at : ℕ) (new : V) (m : List (ℕ × V))
      → lookup at (insert key new m) ≡ (if key == at then some new else lookup at m)
  unfolding lookup insert
  lookup-insert key at new [] = refl
  lookup-insert key at new ((i, old) ∷ m) = ground (arith, lookup-insert key at new m)

  pub lookup-erase :
      (k j : ℕ) (m : List (ℕ × V)) → lookup j (erase k m) ≡ (if k == j then none else lookup j m)
  unfolding lookup erase
  lookup-erase k j [] = ground arith
  lookup-erase k j ((i, w) ∷ m) = ground (arith, lookup-erase k j m)

  -- every key is at least `lo`, in strictly increasing order
  abbrev pub IsSorted : ℕ → List (ℕ × V) → Type 0
  IsSorted lo [] = Unit
  IsSorted lo ((j, _) ∷ m) = (lo ≤ j) × IsSorted (suc j) m

  pub IsSorted-mono : (a b : ℕ) (m : List (ℕ × V)) → a ≤ b → IsSorted b m → IsSorted a m
  IsSorted-mono a b [] h s = tt
  IsSorted-mono a b ((j, w) ∷ m) h s = (omega arith, s.1)

  pub insert-IsSorted :
      (lo k : ℕ) (v : V) (m : List (ℕ × V)) → lo ≤ k → IsSorted lo m → IsSorted lo (insert k v m)
  unfolding insert
  insert-IsSorted lo k v [] h s = (h, tt)
  insert-IsSorted lo k v ((j, w) ∷ m) h s =
      ground (arith, insert-IsSorted (suc j) k v m, IsSorted-mono (suc k) (suc j) m)

  pub erase-IsSorted : (lo k : ℕ) (m : List (ℕ × V)) → IsSorted lo m → IsSorted lo (erase k m)
  unfolding erase
  erase-IsSorted lo k [] s = tt
  erase-IsSorted lo k ((j, w) ∷ m) s =
      ground (arith, erase-IsSorted (suc j) k m, IsSorted-mono lo (suc j) (erase k m))

  pub lookup_below : (lo k : ℕ) (m : List (ℕ × V)) → IsSorted lo m → k < lo → lookup k m ≡ none
  unfolding lookup
  lookup_below lo k [] s h = refl
  lookup_below lo k ((j, w) ∷ m) s h = ground (arith, lookup_below (suc j) k m)

  pub key_ge : (lo k : ℕ) (v : V) (m : List (ℕ × V)) → IsSorted lo m → lookup k m ≡ some v → lo ≤ k
  unfolding lookup
  key_ge lo k v [] s e = cc
  key_ge lo k v ((j, w) ∷ m) s e = ground (arith, key_ge (suc j) k v m)

  -- What `lower_bound` finds is an entry of the map, with a key that is large enough.
  pub lookup-lower_bound :
      (lo n k : ℕ) (v : V) (m : List (ℕ × V))
      → IsSorted lo m
      → lower_bound n m ≡ some (k, v)
      → (lookup k m ≡ some v) × (n ≤ k)
  unfolding lookup lower_bound
  lookup-lower_bound lo n k v [] s e = cc
  lookup-lower_bound lo n k v ((j, w) ∷ m) s e =
      ground (arith, lookup-lower_bound (suc j) n k v m, lookup_below (suc j) j m)

  -- and no smaller key is: in a map of free lists, it is the best fit.
  pub lower_bound_best :
      (lo n k j : ℕ) (v : V) (m : List (ℕ × V))
      → IsSorted lo m
      → lower_bound n m ≡ some (k, v)
      → n ≤ j
      → j < k
      → lookup j m ≡ none
  unfolding lookup lower_bound
  lower_bound_best lo n k j v [] s e p q = refl
  lower_bound_best lo n k j v ((i, w) ∷ m) s e p q =
      ground (arith, lower_bound_best (suc i) n k j v m, lookup_below (suc i) j m)

  -- `lower_bound` is `end()` only if no key is large enough.
  pub lower_bound_end :
      (n j : ℕ) (m : List (ℕ × V)) → lower_bound n m ≡ none → n ≤ j → lookup j m ≡ none
  unfolding lookup lower_bound
  lower_bound_end n j [] e p = refl
  lower_bound_end n j ((i, w) ∷ m) e p = ground (arith, lower_bound_end n j m)

  pub lookup_inserted : (k : ℕ) (v : V) (m : List (ℕ × V)) → lookup k (insert k v m) ≡ some v
  lookup_inserted k v m = rw (lookup-insert k k v m, ==_refl k) refl

  -- An entry that was just made is its own lower bound.
  pub lower_bound-insert :
      (k : ℕ) (v : V) (m : List (ℕ × V)) → lower_bound k (insert k v m) ≡ some (k, v)
  unfolding insert lower_bound
  lower_bound-insert k v [] = ground arith
  lower_bound-insert k v ((j, w) ∷ m) = ground (arith, lower_bound-insert k v m)
