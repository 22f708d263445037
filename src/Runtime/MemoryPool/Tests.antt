-- ===== src/Runtime/MemoryPool/Tests.antt =====
-- Allocations from a pool with one chunk.
use caliper_msg_pattern.Prelude.{
  ℕ, ◌+◌, ◌^◌, ◌<◌, ◌≡◌, refl, arith, true, some, [], ◌∷◌, length, take, drop,
}
use caliper_msg_pattern.Runtime.MemoryPool.{Chunk, Pool, wrap, align_up, allocate, merge}
use caliper_msg_pattern.Runtime.MemoryPool.Allocate.{
  IsPool, in_use, reserved, owned, Succeeds, offered, allocate-Succeeds, allocate_overruns,
  merge-IsPool,
}

-- A chunk at the address 4104, of which 3 bytes are in use.
abbrev pool : Pool
pool = record {
  chunks = record { ptr = 4104; wmark = 3; size = 65536 } ∷ [];
  total_reserved = 65536;
  total_used = 3;
}

pool-IsPool : IsPool pool
pool-IsPool = record {
  within = (omega arith, omega arith, omega arith, tt);
  all_reserved = refl;
  all_used = refl;
}

-- Another pool, with a chunk at the address 200000.
abbrev other_pool : Pool
other_pool = record {
  chunks = record { ptr = 200000; wmark = 40; size = 65536 } ∷ [];
  total_reserved = 65536;
  total_used = 40;
}

other_pool-IsPool : IsPool other_pool
other_pool-IsPool = record {
  within = (omega arith, omega arith, omega arith, tt);
  all_reserved = refl;
  all_used = refl;
}

allocate-Succeeds_example :
    Succeeds 100 (2 ^ 4) (offered pool 100 (2 ^ 4) 131072) (allocate pool 100 (2 ^ 4) true 131072)
allocate-Succeeds_example =
    allocate-Succeeds pool 100 4 131072 (omega arith) pool-IsPool (omega arith) (omega arith)
      (omega arith) (omega arith)

allocate_overruns_example :
    (c : Chunk) × ((allocate pool 70000 (2 ^ 6) true 131080).1.chunks ≡ c ∷ pool.chunks)
    × ((allocate pool 70000 (2 ^ 6) true 131080).0 ≡ some (align_up 131080 (2 ^ 6)))
    × (c.ptr + c.size < align_up 131080 (2 ^ 6) + 70000)
    × (c.size < c.wmark)
allocate_overruns_example =
    allocate_overruns pool 70000 6 131080 (omega arith) refl (omega arith) (omega arith)
      (omega arith) (omega arith)

merge-IsPool_example :
    IsPool (merge pool other_pool).0
    × IsPool (merge pool other_pool).1
    × ((merge pool other_pool).0.total_used ≡ wrap (in_use pool.chunks + in_use other_pool.chunks))
    × ((merge pool other_pool).0.total_reserved
        ≡ wrap (reserved pool.chunks + reserved other_pool.chunks))
    × (take (length pool.chunks) (merge pool other_pool).0.chunks ≡ pool.chunks)
    × (drop (length pool.chunks) (merge pool other_pool).0.chunks ≡ other_pool.chunks)
    × ((merge pool other_pool).1.chunks ≡ [])
    × ((address : ℕ)
        → owned address (merge pool other_pool).0.chunks
            + owned address (merge pool other_pool).1.chunks
          ≡ owned address pool.chunks + owned address other_pool.chunks)
merge-IsPool_example = merge-IsPool pool other_pool pool-IsPool other_pool-IsPool
