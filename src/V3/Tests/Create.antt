-- ===== src/V3/Tests/Create.antt =====
-- The first span of a class from the system.
use my_memory_pool.Prelude.{null, ◌≡◌, refl, ◌⊎◌, arith, []}
use my_memory_pool.Prelude.Command.{Returns}
use my_memory_pool.V3.Sample.{linux}
use my_memory_pool.V3.World.{empty_world}
use my_memory_pool.V3.PageCache.Invariant.{Inv}
use my_memory_pool.V3.PageCache.Initial.{empty_world-Inv}
use my_memory_pool.V3.PageCache.Kept.{Keeps}
use my_memory_pool.V3.CentralCache.{create_span, available_span}
use my_memory_pool.V3.CentralCache.Create.{Created, create_span-Created}
use my_memory_pool.V3.ThreadCache.{empty_cache}
use my_memory_pool.V3.ThreadCache.Client.{Client}
use my_memory_pool.V3.ThreadCache.Begin.{available_span-Client}
use my_memory_pool.V3.Tests.PageCache.{linux-Granular, linux-Promised}

create_span-Created_example :
    Returns
      (λ q w'. Inv linux w' × (Keeps null empty_world q w' × ((q ≡ null) ⊎ Created linux 7 q w')))
      (create_span linux 7 empty_world)
create_span-Created_example =
    create_span-Created linux 7 (omega arith) empty_world 12 (empty_world-Inv linux) linux-Granular
      (linux-Promised _)

available_span-Client_example :
    Returns
      (λ q w'.
        Inv linux w'
        × (Keeps null empty_world q w'
            × ((q ≡ null)
                ⊎ ((c : Created linux 7 q w') × Client linux 7 q c.n w'.page_map c.base []
                      empty_cache w'))))
      (available_span linux 7 empty_world)
available_span-Client_example =
    available_span-Client linux 7 (omega arith) empty_cache refl refl empty_world 12
      (empty_world-Inv linux) linux-Granular (linux-Promised _) refl
