-- ===== src/V3/PageCache/Walk.antt =====
-- `removeFromFreeList` behind the head of a list.
use my_memory_pool.Prelude.{
  Ptr, null, ℕ, zero, suc, ◌+◌, ◌≤◌, ◌≡◌, refl, ◌≢◌, ◌⊎◌, arith, List, [], ◌∷◌, some, Bool, true,
  false, ◌==◌, Bool-cases, inl, inr, sub64, subst, sym, length, ne→==, ==_refl,
}
use my_memory_pool.Prelude.Assoc.{lookup, insert, erase, lookup-insert}
use my_memory_pool.Prelude.Blocks.{has}
use my_memory_pool.V3.World.{World, Span, Platform, done}
use my_memory_pool.Prelude.Command.{Returns, returns, weaken}
use my_memory_pool.V3.World.Rules.{read_span-ok, write_span-ok}
use my_memory_pool.V3.PageCache.{unlink_free_span, unlink_after}
use my_memory_pool.V3.PageCache.Invariant.{SpanMap, Chain, end, link, frame, frame-erase}
use my_memory_pool.V3.PageCache.Unlink.{taken}

length-erase_le : (p : Ptr) (m : SpanMap) → length (erase p m) ≤ length m
unfolding erase
length-erase_le p [] = omega arith
length-erase_le p ((j, u) ∷ m) = ground (arith, length-erase_le p m)

length-erase :
    (p : Ptr) (s : Span) (m : SpanMap) → lookup p m ≡ some s → length (erase p m) + 1 ≤ length m
unfolding lookup erase
length-erase p s [] e = cc
length-erase p s ((j, u) ∷ m) e = ground (arith, length-erase p s m, length-erase_le p m)

-- There are no more spans on a list than there are spans: so the walk has enough fuel.
pub Chain-length :
    (xs : List Ptr) {m : SpanMap} {k : ℕ} {p : Ptr} → Chain m k p xs → length xs ≤ length m
Chain-length [] chain = omega arith
Chain-length (x ∷ xs) {m} (link {p} {s} alive size free next fresh rest) =
    omega (arith, Chain-length xs (frame-erase p rest fresh), length-erase p s m alive)

-- The span before `q`, with the link of `q`.
abbrev pub relinked : Span → Span → Span
relinked before u = record before { next = u.next }

-- On the list `xs` of `k` pages from `a` on, `q` stands behind `prev` and is taken off.
pub record Unlinked (m : SpanMap) (k : ℕ) (a : Ptr) (xs : List Ptr) (q : Ptr) (u : Span)
    (prev : Ptr) (before : Span) : Type 0 where
  pub alive : lookup prev m ≡ some before
  pub size : before.num_pages ≡ k
  pub free : before.in_free_list ≡ true
  pub ne : prev ≢ q
  pub prev_on : has prev xs ≡ true
  pub q_on : has q xs ≡ true
  pub q_size : u.num_pages ≡ k
  pub q_free : u.in_free_list ≡ true
  pub left : List Ptr
  pub chain : Chain (insert q (taken u) (insert prev (relinked before u) m)) k a left
  pub fewer : (r : Ptr) → has r xs ≡ false → has r left ≡ false

-- `q` is the second span of the list.
second :
    {m : SpanMap} {k : ℕ} {a : Ptr} {s : Span} {xs : List Ptr} (q : Ptr) (u : Span)
    → lookup q m ≡ some u
    → lookup a m ≡ some s
    → s.num_pages ≡ k
    → s.in_free_list ≡ true
    → has a xs ≡ false
    → q ≢ null
    → a ≢ q
    → Chain m k q xs
    → Unlinked m k a (a ∷ xs) q u a s
second q u here alive size free fresh some_span ne end = absurd (some_span refl)
second {m} {k} {a} {s} q u here alive size free fresh some_span ne
      (link {q = r} {s = t} {xs = ys} there q_size q_free next q_fresh rest) =
    let same : t ≡ u = ground arith in
    let out : has a ys ≡ false = ground arith in
    let m' = insert q (taken u) (insert a (relinked s u) m) in
    record {
      alive = alive;
      size = size;
      free = free;
      ne = ne;
      prev_on = ground (arith, ==_refl a);
      q_on = ground (arith, ==_refl q);
      q_size = ground arith;
      q_free = ground arith;
      left = a ∷ ys;
      chain =
          link {s = relinked s u}
            (ground (
              arith,
              lookup-insert q a (taken u) (insert a (relinked s u) m),
              lookup-insert a a (relinked s u) m,
            ))
            size free (subst (λ t. t.next ≡ r) same next) out
            (frame q (taken u) (frame a (relinked s u) rest out) q_fresh);
      fewer = λ x h. ground arith;
    }

-- One more span in front.
in_front :
    {m : SpanMap} {k : ℕ} {a b : Ptr} {s : Span} {xs : List Ptr} (q : Ptr) (u : Span) (prev : Ptr)
    (before : Span)
    → lookup a m ≡ some s
    → s.num_pages ≡ k
    → s.in_free_list ≡ true
    → s.next ≡ b
    → has a xs ≡ false
    → Unlinked m k b xs q u prev before
    → Unlinked m k a (a ∷ xs) q u prev before
in_front {m} {a} {s} {xs} q u prev before alive size free next fresh r =
    let not_q : (q == a) ≡ false = ground (arith, r.q_on) in
    let not_prev : (prev == a) ≡ false = ground (arith, r.prev_on) in
    record {
      alive = r.alive;
      size = r.size;
      free = r.free;
      ne = r.ne;
      prev_on = ground (arith, r.prev_on);
      q_on = ground (arith, r.q_on);
      q_size = r.q_size;
      q_free = r.q_free;
      left = a ∷ r.left;
      chain =
          link {s = s}
            (ground (
              arith,
              lookup-insert q a (taken u) (insert prev (relinked before u) m),
              lookup-insert prev a (relinked before u) m,
            ))
            size free next (r.fewer a fresh) r.chain;
      fewer = λ x h. ground (arith, r.fewer x);
    }

-- The world after the removal.
abbrev pub after_unlink : World → (prev : Ptr) → Span → (q : Ptr) → Span → World
after_unlink w prev before q u = record w {
  spans = insert q (taken u) (insert prev (relinked before u) w.spans);
  cached_free_pages = sub64 w.cached_free_pages u.num_pages;
}

module _ (os : Platform) (w : World) (k : ℕ) (q : Ptr) (u : Span) (here : lookup q w.spans ≡ some u)
    (some_span : q ≢ null) where
  -- What the walk from `a` along the list `xs` comes to.
  abbrev pub Walked : Ptr → List Ptr → Bool → World → Type 0
  Walked a xs removed w' =
      ((removed ≡ false) × (w' ≡ w))
      ⊎ ((removed ≡ true)
          × ((prev : Ptr) × (before : Span) × Unlinked w.spans k a xs q u prev before
              × (w' ≡ after_unlink w prev before q u)))

  unlink_after-run :
      (prev : Ptr) (before : Span)
      → lookup prev w.spans ≡ some before
      → prev ≢ q
      → unlink_after os prev q before w ≡ done true (after_unlink w prev before q u)
  unfolding unlink_after
  unlink_after-run prev before alive ne =
      let w1 : World = record w { cached_free_pages = sub64 w.cached_free_pages u.num_pages } in
      let w2 : World = record w1 { spans = insert prev (relinked before u) w.spans } in
      let still : lookup q w2.spans ≡ some u =
        ground (arith, lookup-insert prev q (relinked before u) w.spans) in
      rw
        (
          read_span-ok w q here,
          write_span-ok w1 prev alive (relinked before u),
          write_span-ok w2 q still (taken u),
        )
        refl

  pub unlink_free_span-Walked :
      (fuel : ℕ) (a : Ptr) (xs : List Ptr)
      → Chain w.spans k a xs
      → length xs ≤ fuel
      → a ≢ null
      → a ≢ q
      → Returns (Walked a xs) (unlink_free_span os fuel a q w)
  unfolding unlink_free_span
  unlink_free_span-Walked fuel a xs end enough some_a ne = absurd (some_a refl)
  unlink_free_span-Walked zero a xs (link alive size free next fresh rest) enough some_a ne =
      absurd (omega arith)
  unlink_free_span-Walked (suc fuel) a xs
        (link {q = b} {s} {xs = ys} alive size free next fresh rest) enough some_a ne =
      let go = ne→== a null some_a in
      elim (Bool-cases (s.next == null)) [
        | inl last ↦ rw (go, read_span-ok w a alive, last) (returns (inl (refl, refl)))
        | inr more ↦ elim (Bool-cases (s.next == q)) [
          | inl hit ↦
              let at_q : b ≡ q = ground arith in
              rw (go, read_span-ok w a alive, more, hit, unlink_after-run a s alive ne)
                (returns (
                  inr (
                    refl,
                    (
                      a,
                      s,
                      second q u here alive size free fresh some_span ne
                          (subst (λ c. Chain w.spans k c ys) at_q rest),
                      refl,
                    ),
                  )))
          | inr miss ↦
              rw (go, read_span-ok w a alive, more, miss)
                (subst (λ c. Returns (Walked a (a ∷ ys)) (unlink_free_span os fuel c q w))
                  (sym next)
                  (weaken
                    (unlink_free_span-Walked fuel b ys rest (omega arith) (ground arith)
                      (ground arith))
                    further))
        ]
      ]
    where
      further :
          (removed : Bool) (w' : World) → Walked b ys removed w' → Walked a (a ∷ ys) removed w'
      further removed w' (inl same) = inl same
      further removed w' (inr (e, (prev, before, r, e'))) =
          inr (e, (prev, before, in_front q u prev before alive size free next fresh r, e'))
