-- ===== src/Runtime/MemoryPool.antt =====
-- src/caliper/MemoryPool.cpp: the pool of chunks from which metadata is allocated. The vector of
-- chunks is a list with its back first. The address that `new` returns is a parameter, and so is
-- the configuration. Locks and the printing of statistics are left out.
pub mod Allocate
mod Tests
use caliper_msg_pattern.Prelude.{
  ℕ, zero, suc, ◌+◌, ◌-◌, ◌*◌, ◌%◌, ◌^◌, max, Bool, true, false, Option, none, some, List, [], ◌∷◌,
  ◌++◌, if◌then◌else◌, ltb,
}
use Prim.Native.Nat.{bit_and}

-- `MemoryPoolImpl::Chunk`
pub record Chunk : Type 0 where
  pub ptr : ℕ
  pub wmark : ℕ
  pub size : ℕ

-- `MemoryPoolImpl`
pub record Pool : Type 0 where
  pub chunks : List Chunk
  pub total_reserved : ℕ
  pub total_used : ℕ

abbrev pub chunksize : ℕ
chunksize = 64 * 1024

-- The arithmetic of `size_t` and `uintptr_t`.
abbrev pub wrap : ℕ → ℕ
wrap x = x % 2 ^ 64

-- `expand`, with the address of the new chunk.
unfoldable pub expand : Pool → ℕ → ℕ → Pool
expand p bytes address = record p {
  chunks = record { ptr = address; wmark = 0; size = max bytes chunksize } ∷ p.chunks;
  total_reserved = wrap (p.total_reserved + max bytes chunksize);
}

-- The constructor, with `pool_size` and the address of the first chunk.
abbrev pub new_pool : ℕ → ℕ → Pool
new_pool pool_size address =
    expand (record { chunks = []; total_reserved = 0; total_used = 0 }) pool_size address

-- `(pn + alignment-1) & - alignment`
abbrev pub align_up : ℕ → ℕ → ℕ
align_up pn alignment =
    bit_and (wrap (pn + alignment + 2 ^ 64 - 1)) (wrap (2 ^ 64 - alignment % 2 ^ 64))

-- `m_chunks.empty() || m_chunks.back().wmark + bytes + alignment > m_chunks.back().size`
abbrev pub is_full : List Chunk → ℕ → ℕ → Bool
is_full [] bytes alignment = true
is_full (c ∷ cs) bytes alignment = ltb c.size (wrap (c.wmark + bytes + alignment))

-- What `allocate` does with the chunk at the back. A vector without chunks has no back.
abbrev pub take_back : Pool → List Chunk → ℕ → ℕ → Option ℕ × Pool
take_back p [] bytes alignment = (none, p)
take_back p (c ∷ cs) bytes alignment =
    let pn = wrap (c.ptr + c.wmark) in
    let aligned = align_up pn alignment in
    let n = wrap (bytes + (aligned + 2 ^ 64 - pn)) in
    (
      some aligned,
      record p {
        chunks = record c { wmark = wrap (c.wmark + n) } ∷ cs;
        total_used = wrap (p.total_used + n);
      },
    )

-- `allocate`, with the address of the chunk that is added if one is needed; `none` is null.
unfoldable pub allocate : Pool → ℕ → ℕ → Bool → ℕ → Option ℕ × Pool
unfolding expand
allocate p bytes alignment can_expand address =
    if is_full p.chunks bytes alignment
    then (if can_expand
        then take_back (expand p bytes address) (expand p bytes address).chunks bytes alignment
        else (none, p))
    else take_back p p.chunks bytes alignment

-- `merge`: the pool and the other one.
unfoldable pub merge : Pool → Pool → Pool × Pool
merge p other = (
  record {
    chunks = p.chunks ++ other.chunks;
    total_reserved = wrap (p.total_reserved + other.total_reserved);
    total_used = wrap (p.total_used + other.total_used);
  },
  record { chunks = []; total_reserved = 0; total_used = 0 },
)
