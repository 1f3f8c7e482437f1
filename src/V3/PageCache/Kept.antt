-- ===== src/V3/PageCache/Kept.antt =====
-- What the operations of the page cache leave alone: the spans that others use.
use my_memory_pool.Prelude.{Ptr, ◌≡◌, ◌≢◌, some, false}
use my_memory_pool.Prelude.Assoc.{lookup}
use my_memory_pool.V3.World.{World, Span}

-- From `w`, where `p` is handled, to `w'`, where `r` is: every other span in use is as it was.
pub record Keeps (p : Ptr) (w : World) (r : Ptr) (w' : World) : Type 0 where
  pub others :
      (q : Ptr) (t : Span)
      → lookup q w.spans ≡ some t
      → t.in_free_list ≡ false
      → q ≢ p
      → (lookup q w'.spans ≡ some t) × (q ≢ r)

pub Keeps-refl : {p : Ptr} {w : World} → Keeps p w p w
Keeps-refl = record { others = λ q t here used ne. (here, ne) }

pub Keeps-trans : {p q r : Ptr} {u v w : World} → Keeps p u q v → Keeps q v r w → Keeps p u r w
Keeps-trans k l = record {
  others = λ a t here used ne.
      let (here', ne') = k.others a t here used ne in l.others a t here' used ne';
}

-- Whatever is handled at the end.
pub Keeps-end : {p q : Ptr} {u v : World} → Keeps p u q v → Keeps p u p v
Keeps-end k = record { others = λ a t here used ne. ((k.others a t here used ne).0, ne) }
