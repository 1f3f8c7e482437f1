-- ===== src/V3/PageCache/Pages.antt =====
-- The page map: which span a page belongs to after `registerPages` and `unregisterPages`.
use my_memory_pool.Prelude.{
  Ptr, ℕ, zero, suc, ◌+◌, ◌≡◌, arith, List, none, some, ◌&&◌, leb, ltb, if◌then◌else◌,
}
use my_memory_pool.Prelude.Assoc.{lookup, insert, erase, lookup-insert, lookup-erase}
use my_memory_pool.V3.PageCache.{map_pages, unmap_pages}

-- A map of pages after the loop of `registerPages`: exactly the pages of the span are its own.
pub lookup-map_pages :
    (left id p j : ℕ) (m : List (ℕ × Ptr))
    → lookup j (map_pages left id p m)
      ≡ (if leb id j && ltb j (id + left) then some p else lookup j m)
unfolding map_pages
lookup-map_pages zero id p j m = ground arith
lookup-map_pages (suc left) id p j m =
    ground (arith, lookup-map_pages left (id + 1) p j (insert id p m), lookup-insert id j p m)

pub lookup-unmap_pages :
    (left id j : ℕ) (m : List (ℕ × Ptr))
    → lookup j (unmap_pages left id m)
      ≡ (if leb id j && ltb j (id + left) then none else lookup j m)
unfolding unmap_pages
lookup-unmap_pages zero id j m = ground arith
lookup-unmap_pages (suc left) id j m =
    ground (arith, lookup-unmap_pages left (id + 1) j (erase id m), lookup-erase id j m)
