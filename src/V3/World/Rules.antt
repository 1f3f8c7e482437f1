-- ===== src/V3/World/Rules.antt =====
-- One equation for each primitive command where it does not fault.
use my_memory_pool.Prelude.{Ptr, null, update, ℕ, ◌≡◌, ◌≢◌, some, arith, ne→==, sub64, ◌≤◌, ◌-◌}
use my_memory_pool.Prelude.Assoc.{lookup, insert, erase}
use my_memory_pool.V3.World.{Span, World, done, read_span, write_span, delete_span, load, store}

module _ (w : World) where
  module _ (p : Ptr) {s : Span} (alive : lookup p w.spans ≡ some s) where
    pub read_span-ok : read_span p w ≡ done s w
    unfolding read_span
    read_span-ok = rw (alive, read_span)

    pub write_span-ok :
        (t : Span) → write_span p t w ≡ done tt (record w { spans = insert p t w.spans })
    unfolding write_span
    write_span-ok t = rw (alive, write_span)

    pub delete_span-ok : delete_span p w ≡ done tt (record w { spans = erase p w.spans })
    unfolding delete_span
    delete_span-ok = rw (alive, delete_span)

  pub load-ok : (p : Ptr) → p ≢ null → load p w ≡ done (w.word p) w
  unfolding load
  load-ok p ne = rw (ne→== p null ne, load)

  pub store-ok :
      (p q : Ptr) → p ≢ null → store p q w ≡ done tt (record w { word = update w.word p q })
  unfolding store
  store-ok p q ne = rw (ne→== p null ne, store)

-- Subtraction that does not wrap.
pub sub64-le : (a b : ℕ) → b ≤ a → sub64 a b ≡ a - b
sub64-le a b h = ground arith
