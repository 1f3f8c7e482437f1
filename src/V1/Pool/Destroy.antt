-- ===== src/V1/Pool/Destroy.antt =====
-- The destructor of a pool of version 1.
use my_memory_pool.Prelude.{
  Ptr, null, ℕ, zero, suc, ◌<◌, ◌≡◌, refl, arith, some, List, ne→==, length,
}
use my_memory_pool.Prelude.Blocks.{Blocks, end, link}
use my_memory_pool.V1.Pool.{Heap, delete_blocks}
use my_memory_pool.V1.Pool.Lifetime.{Used}
use my_memory_pool.V1.Pool.Exclusive.{Used-Owned}

delete_blocks-Blocks :
    {next : Ptr → Ptr} {p : Ptr} {bs : List Ptr} (fuel : ℕ)
    → Blocks next p bs
    → length bs < fuel
    → delete_blocks fuel next p ≡ some bs
unfolding delete_blocks
delete_blocks-Blocks zero l h = absurd (omega arith)
delete_blocks-Blocks (suc fuel) end h = refl
delete_blocks-Blocks (suc fuel) (link {p} ne e fresh l) h =
    rw (ne→== p null ne, e, delete_blocks-Blocks fuel l (omega arith)) refl

-- A pool that was initialised and then used by one thread, whose client gives back and writes to
-- what it holds only, with blocks from `operator new` that are not at nullptr and share no byte: the
-- loop of the destructor ends after one round for each block and deletes exactly the blocks that
-- the pool got, the newest first.
pub delete_blocks-Used :
    (bs held : List Ptr) (h : Heap) (fuel : ℕ)
    → Used bs held h
    → length bs < fuel
    → delete_blocks fuel h.next h.pool.first_block ≡ some bs
delete_blocks-Used bs held h fuel u enough =
    delete_blocks-Blocks fuel (Used-Owned u).chain.linked enough
