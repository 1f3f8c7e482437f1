-- ===== src/V2/CentralCache/Lists.antt =====
-- The block list of a size class through `fetchRange` and `returnRange`.
use my_memory_pool.Prelude.{
  Ptr, null, update, ℕ, zero, suc, ◌+◌, ◌-◌, ◌/◌, ◌≤◌, ◌<◌, ◌≡◌, refl, false, arith, some, List, [],
  ◌∷◌, ◌++◌, ◌==◌, leb, ne→==, ==_refl, subst, length, Option-cases, Bool-cases, inl, inr, add64,
}
use my_memory_pool.Prelude.Command.{Returns, returns, weaken}
use my_memory_pool.Prelude.Blocks.{Blocks, end, link}
use my_memory_pool.Prelude.Blocks.Join.{last, Apart, join, last_some, first_some}
use my_memory_pool.V2.SizeTable.{free_list_size, get_size}
use my_memory_pool.V2.SizeTable.Laws.{free_list_size_lem}
use my_memory_pool.V2.World.{World, SpanTracker, Platform, done, and_then, clock}
use my_memory_pool.V2.World.Rules.{load-ok, store-ok}
use my_memory_pool.V2.CentralCache.{
  in_span, find_tracker, tracker_at, get_span_tracker, read_tracker, set_free_count, take_block,
  last_block, count_return, should_perform_delayed_return, return_range, delay_interval,
  max_delay_count,
}

-- The walk of `returnRange` finds the last block, if it may take as many steps as there are links.
pub last_block-last :
    (left : ℕ) (p x : Ptr) (xs : List Ptr) (w : World)
    → Blocks w.word p (x ∷ xs)
    → length xs ≤ left
    → last_block left p w ≡ done (last x xs) w
unfolding last_block
last_block-last zero _ x [] w (link {p} ne e fresh l) h = rw (load-ok w p ne, and_then)
last_block-last (suc left) _ x [] w (link {p} ne e fresh end) h = rw (load-ok w p ne, and_then, e)
last_block-last zero p x (y ∷ xs) w (link ne e fresh l) h = absurd (omega arith)
last_block-last (suc left) _ x (y ∷ xs) w (link {p} ne e fresh l) h =
    rw (load-ok w p ne, and_then, e, ne→== _ null (first_some l))
      (last_block-last left _ y xs w l (omega arith))

-- A tracker that is found is one of the list.
find_tracker-tracker_at :
    (i j : ℕ) (addr : Ptr) (ts : List SpanTracker)
    → find_tracker i addr ts ≡ some j
    → (i ≤ j) × ((t : SpanTracker) × (tracker_at ts (j - i) ≡ some t))
unfolding find_tracker tracker_at
find_tracker-tracker_at i j addr [] e = cc
find_tracker-tracker_at i j addr (t ∷ ts) e = elim (Bool-cases (in_span t addr)) [
  | inl here ↦
      let first : i ≡ j = ground arith in
      let zeroth : j - i ≡ 0 = omega arith in (omega arith, (t, rw zeroth refl))
  | inr later ↦
      let (le, (found, at)) = find_tracker-tracker_at (i + 1) j addr ts (ground arith) in
      let next : j - i ≡ suc (j - (i + 1)) = omega arith in (omega arith, (found, rw next at))
]

found_at :
    (j : ℕ) (addr : Ptr) (ts : List SpanTracker)
    → find_tracker 0 addr ts ≡ some j
    → (t : SpanTracker) × (tracker_at ts j ≡ some t)
found_at j addr ts e =
    let (le, (t, at)) = find_tracker-tracker_at 0 j addr ts e in
    let same : j - 0 ≡ j = omega arith in (t, subst (λ (k : ℕ). tracker_at ts k ≡ some t) same at)

pub read_tracker-at :
    (i : ℕ) (t : SpanTracker) (w : World)
    → tracker_at w.span_trackers i ≡ some t
    → read_tracker i w ≡ done t w
unfolding read_tracker
read_tracker-at i t w at = rw (at, read_tracker)

-- The first block of the list of a class is handed out, with its link cleared, and the others stay.
pub take_block-first :
    (index : ℕ) (p x : Ptr) (xs : List Ptr) (w : World)
    → Blocks w.word p (x ∷ xs)
    → w.central_free_list index ≡ p
    → Returns
        (λ r w'.
          (r ≡ x)
          × (w'.word ≡ update w.word x null)
          × ((j : ℕ) → w'.central_free_list j ≡ update w.central_free_list index (w.word x) j))
        (take_block index p w)
unfolding take_block get_span_tracker set_free_count
take_block-first index _ x xs w (link {p} ne e fresh l) head =
    elim (Option-cases (find_tracker 0 p w.span_trackers)) [
      | inl absent ↦
          rw (load-ok w p ne, and_then, store-ok w p null ne, absent)
            (returns (refl, refl, λ j. refl))
      | inr (i, found) ↦
          let (t, at) = found_at i p w.span_trackers found in
          let taken : World = record w {
            word = update w.word p null;
            central_free_list = update w.central_free_list index (w.word p);
          } in
          rw
            (
              load-ok w p ne,
              and_then,
              store-ok w p null ne,
              found,
              read_tracker-at i t taken at,
              and_then,
              read_tracker-at i t taken at,
            )
            (returns (refl, refl, λ j. refl))
    ]

-- A delayed return of the class is not due: fewer than 47 lists came back since the last one, and
-- the next reading of the clock is within the interval.
abbrev pub NotDue : Platform → World → ℕ → Type 0
NotDue os w index =
    (w.delay_counts index + 1 < max_delay_count)
    × (os.now w.clock_readings < w.last_return_times index + delay_interval)

count_return-NotDue :
    (os : Platform) (fuel index : ℕ) (w : World)
    → NotDue os w index
    → Returns
        (λ _ w'. (w'.word ≡ w.word) × ((j : ℕ) → w'.central_free_list j ≡ w.central_free_list j))
        (count_return os fuel index w)
unfolding count_return clock should_perform_delayed_return
count_return-NotDue os fuel index w (few, soon) =
    let count : leb max_delay_count (add64 (w.delay_counts index) 1) ≡ false = ground arith in
    let time : leb (w.last_return_times index + delay_interval) (os.now w.clock_readings) ≡ false =
      ground arith in
    rw (count, time) (returns (refl, λ j. refl))

-- The list of blocks from `start` is hung before those of the class.
pub return_range-joined :
    (os : Platform) (fuel : ℕ) (start x : Ptr) (size index : ℕ) (xs ys : List Ptr) (w : World)
    → index < 56
    → length xs ≤ size / get_size index - 1
    → NotDue os w index
    → Blocks w.word start (x ∷ xs)
    → Blocks w.word (w.central_free_list index) ys
    → Apart (x ∷ xs) ys
    → Returns
        (λ _ w'.
          Blocks w'.word (w'.central_free_list index) ((x ∷ xs) ++ ys)
          × (w'.word ≡ update w.word (last x xs) (w.central_free_list index)))
        (return_range os fuel start size index w)
unfolding return_range
return_range-joined os fuel start x size index xs ys w class room wait l m far =
    let some_block : (start == null) ≡ false = ne→== start null (first_some l) in
    let small : leb free_list_size index ≡ false = ground (arith, free_list_size_lem) in
    rw
      (
        some_block,
        small,
        last_block-last (size / get_size index - 1) start x xs w l room,
        and_then,
        store-ok w (last x xs) (w.central_free_list index) (last_some xs l),
        and_then,
      )
      (weaken (count_return-NotDue os fuel index _ wait) (λ _ w' (memory, lists).
        rw (memory, lists index, ==_refl index) (join xs ys l m far, refl)))
