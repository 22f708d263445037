-- ===== src/Runtime/MemoryPool/Allocate.antt =====
-- The invariant of a memory pool, and what `allocate` and `merge` do to it.
use caliper_msg_pattern.Prelude.{
  ℕ, ◌+◌, ◌-◌, ◌*◌, ◌%◌, ◌^◌, ◌≤◌, ◌<◌, ◌≡◌, inl, inr, refl, sym, ap, ◌∙◌, arith, max, true, false,
  Option, some, List, [], ◌∷◌, ◌++◌, if◌then◌else◌, ◌==◌, Bool-cases, length, take, drop,
  take-append, drop-append,
}
use Prim.Native.Nat.{bit_and}
use mathlib.Core.Path.{subst}
use caliper_msg_pattern.Prelude.Mask.{RoundsDown, pow-positive, bit_and-RoundsDown}
use caliper_msg_pattern.Runtime.MemoryPool.{
  Chunk, Pool, chunksize, expand, wrap, align_up, is_full, take_back, allocate, merge,
}

abbrev pub reserved : List Chunk → ℕ
reserved [] = 0
reserved (c ∷ cs) = c.size + reserved cs

abbrev pub in_use : List Chunk → ℕ
in_use [] = 0
in_use (c ∷ cs) = c.wmark + in_use cs

-- A chunk is not used beyond its size, and lies in the address space. Its size is one that `new`
-- can give, less than 2 ^ 63.
abbrev pub AllWithin : List Chunk → Type 0
AllWithin [] = Unit {0}
AllWithin (c ∷ cs) =
    (c.wmark ≤ c.size) × (c.ptr + c.size ≤ 2 ^ 64) × (c.size < 2 ^ 63) × AllWithin cs

-- The chunks are used within their sizes, and the totals are the sums over the chunks in `size_t`.
pub record IsPool (p : Pool) : Type 0 where
  pub within : AllWithin p.chunks
  pub all_reserved : p.total_reserved ≡ wrap (reserved p.chunks)
  pub all_used : p.total_used ≡ wrap (in_use p.chunks)

-- What is true of a result `q` and the pool that is left, if the chunks were `old`: `q` is aligned,
-- the bytes from `q` on come behind those that were in use in the chunk at the back, and are now the
-- last in use there, no other chunk has changed, and the pool is still a pool.
pub record Allocated (bytes alignment : ℕ) (old : List Chunk) (q : ℕ) (p' : Pool) : Type 0 where
  pub valid : IsPool p'
  pub back : Chunk
  pub before : ℕ
  pub others : List Chunk
  pub old_eq : old ≡ record back { wmark = before } ∷ others
  pub chunks_eq : p'.chunks ≡ back ∷ others
  pub starts : back.ptr + before ≤ q
  pub ends : q + bytes ≡ back.ptr + back.wmark
  pub multiple : ℕ
  pub aligned : q ≡ multiple * alignment

-- What an allocation from the chunks `old` does that did not fail.
abbrev pub Succeeds : ℕ → ℕ → List Chunk → Option ℕ × Pool → Type 0
Succeeds bytes alignment old result =
    (q : ℕ) × (p' : Pool) × (result ≡ (some q, p')) × Allocated bytes alignment old q p'

-- What the alignment to a power of two gives where it does not wrap.
record RoundsUp (k pn q : ℕ) : Type 0 where
  least : pn ≤ q
  near : q < pn + 2 ^ k
  multiple : ℕ
  exact : q ≡ multiple * 2 ^ k

align_up-RoundsUp : (k pn : ℕ) → k < 64 → pn + 2 ^ k ≤ 2 ^ 64 → RoundsUp k pn (align_up pn (2 ^ k))
align_up-RoundsUp k pn small fits =
    let a = 2 ^ k in
    let positive : 0 < a = pow-positive k in
    let x : wrap (pn + a + 2 ^ 64 - 1) ≡ pn + a - 1 = omega arith in
    let negated : wrap (2 ^ 64 - a % 2 ^ 64) ≡ wrap (2 ^ 64 - a) = omega arith in
    let r : RoundsDown k (pn + a - 1) (bit_and (pn + a - 1) (wrap (2 ^ 64 - a))) =
      bit_and-RoundsDown k (pn + a - 1) small (omega arith) in
    rw (x, negated)
      (record {
        least = omega (arith, r.near);
        near = omega (arith, r.below);
        multiple = r.multiple;
        exact = r.exact;
      })

-- An allocation from the chunk at the back, when the chunk has the room.
Allocated_back :
    (p : Pool) (c : Chunk) (cs : List Chunk) (bytes k : ℕ)
    → k < 64
    → IsPool p
    → p.chunks ≡ c ∷ cs
    → c.ptr + c.wmark + 2 ^ k ≤ 2 ^ 64
    → c.wmark + (bytes + (align_up (wrap (c.ptr + c.wmark)) (2 ^ k) - (c.ptr + c.wmark))) ≤ c.size
    → Succeeds bytes (2 ^ k) (c ∷ cs) (take_back p (c ∷ cs) bytes (2 ^ k))
Allocated_back p c cs bytes k small valid e low room =
    let within : AllWithin (c ∷ cs) = subst AllWithin e valid.within in
    let positive : 0 < 2 ^ k = pow-positive k in
    let q = align_up (wrap (c.ptr + c.wmark)) (2 ^ k) in
    let same : wrap (c.ptr + c.wmark) ≡ c.ptr + c.wmark = omega arith in
    let up : RoundsUp k (c.ptr + c.wmark) q =
      subst (λ t. RoundsUp k (c.ptr + c.wmark) (align_up t (2 ^ k))) (sym same)
        (align_up-RoundsUp k (c.ptr + c.wmark) small low) in
    let n : wrap (bytes + (q + 2 ^ 64 - wrap (c.ptr + c.wmark))) ≡ bytes + (q - (c.ptr + c.wmark)) =
      omega (arith, within.0, within.2, up.least, room) in
    (
      _,
      _,
      refl,
      record {
        valid = record {
          within = (omega (arith, n, room), within.1, within.2, within.3);
          all_reserved = valid.all_reserved ∙ ap (λ x. wrap (reserved x)) e;
          all_used = omega (arith, valid.all_used, ap in_use e, n, within.2, room);
        };
        back = record c {
          wmark = wrap (c.wmark + wrap (bytes + (q + 2 ^ 64 - wrap (c.ptr + c.wmark))));
        };
        before = c.wmark;
        others = cs;
        old_eq = refl;
        chunks_eq = refl;
        starts = up.least;
        ends = omega (arith, up.least, n, room, within.2);
        multiple = up.multiple;
        aligned = up.exact;
      },
    )

expand-IsPool :
    (p : Pool) (bytes address : ℕ)
    → IsPool p
    → bytes < 2 ^ 63
    → address + max bytes chunksize ≤ 2 ^ 64
    → IsPool (expand p bytes address)
unfolding expand
expand-IsPool p bytes address valid small fits = record {
  within = (omega arith, fits, omega arith, valid.within);
  all_reserved = omega (arith, valid.all_reserved);
  all_used = omega (arith, valid.all_used);
}

from_expanded :
    (p : Pool) (bytes k address : ℕ)
    → k < 64
    → IsPool p
    → bytes < 2 ^ 63
    → address + max bytes chunksize ≤ 2 ^ 64
    → address + 2 ^ k ≤ 2 ^ 64
    → bytes + (align_up address (2 ^ k) - address) ≤ max bytes chunksize
    → Succeeds bytes
        (2 ^ k)
        (expand p bytes address).chunks
        (take_back (expand p bytes address) (expand p bytes address).chunks bytes (2 ^ k))
unfolding expand
from_expanded p bytes k address small valid few fits low room =
    let start : wrap (address + 0) ≡ address = omega (arith, pow-positive k) in
    let same : align_up (wrap (address + 0)) (2 ^ k) ≡ align_up address (2 ^ k) =
      ap (λ (t : ℕ). align_up t (2 ^ k)) start in
    Allocated_back (expand p bytes address) _ p.chunks bytes k small
      (expand-IsPool p bytes address valid few fits) refl (omega arith) (omega (arith, room, same))

from_back :
    (p : Pool) (cs : List Chunk) (bytes k : ℕ)
    → k < 64
    → IsPool p
    → bytes + 2 ^ k < 2 ^ 63
    → p.chunks ≡ cs
    → is_full cs bytes (2 ^ k) ≡ false
    → Succeeds bytes (2 ^ k) cs (take_back p cs bytes (2 ^ k))
from_back p [] bytes k small valid few e room = absurd (cc (room))
from_back p (c ∷ cs) bytes k small valid few e room =
    let within : AllWithin (c ∷ cs) = subst AllWithin e valid.within in
    let fits : c.wmark + bytes + 2 ^ k ≤ c.size = ground (arith, within.0, within.2) in
    let low : c.ptr + c.wmark + 2 ^ k ≤ 2 ^ 64 = omega (arith, within.1) in
    let same : wrap (c.ptr + c.wmark) ≡ c.ptr + c.wmark = omega (arith, pow-positive k) in
    let up = align_up-RoundsUp k (c.ptr + c.wmark) small low in
    let q = align_up (c.ptr + c.wmark) (2 ^ k) in
    Allocated_back p c cs bytes k small valid e low (
      subst (λ t. c.wmark + (bytes + (align_up t (2 ^ k) - (c.ptr + c.wmark))) ≤ c.size) (sym same)
        (omega (arith, up.least, up.near, fits)))

-- The chunks from which a pool that can expand allocates.
abbrev pub offered : Pool → ℕ → ℕ → ℕ → List Chunk
offered p bytes a address =
    if is_full p.chunks bytes a then (expand p bytes address).chunks else p.chunks

-- From a pool that can expand, an allocation of less than 2 ^ 63 bytes with an alignment that is a
-- power of two succeeds where the address of a new chunk, if one is needed, leaves room for the chunk
-- and the alignment in the address space and for the padding in the chunk: the result is aligned,
-- lies in the chunk at the back behind everything that was in use there, the other chunks stay as
-- they are, the chunks are used within their sizes and the totals are right.
pub allocate-Succeeds :
    (p : Pool) (bytes k address : ℕ)
    → k < 64
    → IsPool p
    → bytes + 2 ^ k < 2 ^ 63
    → address + max bytes chunksize ≤ 2 ^ 64
    → address + 2 ^ k ≤ 2 ^ 64
    → bytes + (align_up address (2 ^ k) - address) ≤ max bytes chunksize
    → Succeeds bytes
        (2 ^ k)
        (offered p bytes (2 ^ k) address)
        (allocate p bytes (2 ^ k) true address)
unfolding allocate
allocate-Succeeds p bytes k address small valid few fits low room =
    elim (Bool-cases (is_full p.chunks bytes (2 ^ k))) [
      | inl t ↦ rw t (from_expanded p bytes k address small valid (omega arith) fits low room)
      | inr t ↦ rw t (from_back p p.chunks bytes k small valid few refl t)
    ]

-- A pool that takes a new chunk for a request of at least the chunk size and less than 2 ^ 63 bytes,
-- with an alignment to a power of two that the new chunk's address does not have, uses the chunk
-- beyond its size.
pub allocate_overruns :
    (p : Pool) (bytes k address : ℕ)
    → k < 64
    → is_full p.chunks bytes (2 ^ k) ≡ true
    → chunksize ≤ bytes
    → bytes + 2 ^ k < 2 ^ 63
    → address + 2 ^ k ≤ 2 ^ 64
    → address < align_up address (2 ^ k)
    → (c : Chunk) × ((allocate p bytes (2 ^ k) true address).1.chunks ≡ c ∷ p.chunks)
      × ((allocate p bytes (2 ^ k) true address).0 ≡ some (align_up address (2 ^ k)))
      × (c.ptr + c.size < align_up address (2 ^ k) + bytes)
      × (c.size < c.wmark)
unfolding allocate expand
allocate_overruns p bytes k address small full large few low off =
    let start : wrap (address + 0) ≡ address = omega (arith, pow-positive k) in
    let q = align_up address (2 ^ k) in
    let same : align_up (wrap (address + 0)) (2 ^ k) ≡ q =
      ap (λ (t : ℕ). align_up t (2 ^ k)) start in
    let up = align_up-RoundsUp k address small low in
    rw full (_, refl, ap some same, omega arith, omega (arith, same, start, up.near))

-- The number of chunks at an address, for each of which the owner's destructor frees the address.
abbrev pub owned : ℕ → List Chunk → ℕ
owned address [] = 0
owned address (c ∷ cs) = (if c.ptr == address then 1 else 0) + owned address cs

owned-append :
    (address : ℕ) (xs ys : List Chunk)
    → owned address (xs ++ ys) ≡ owned address xs + owned address ys
owned-append address [] ys = omega arith
owned-append address (c ∷ xs) ys = omega (arith, owned-append address xs ys)

reserved-append : (xs ys : List Chunk) → reserved (xs ++ ys) ≡ reserved xs + reserved ys
reserved-append [] ys = omega arith
reserved-append (c ∷ xs) ys = omega (arith, reserved-append xs ys)

in_use-append : (xs ys : List Chunk) → in_use (xs ++ ys) ≡ in_use xs + in_use ys
in_use-append [] ys = omega arith
in_use-append (c ∷ xs) ys = omega (arith, in_use-append xs ys)

AllWithin-append : (xs ys : List Chunk) → AllWithin xs → AllWithin ys → AllWithin (xs ++ ys)
AllWithin-append [] ys h k = k
AllWithin-append (c ∷ xs) ys h k = (h.0, h.1, h.2, AllWithin-append xs ys h.3 k)

-- Merging two pools gives a pool that has the chunks of both and the sums of their totals in
-- `size_t`: every chunk of the first one first, then every chunk of the other one. The other one is
-- left as a pool without chunks and with empty totals, so that of the chunks at an address the two
-- pools together own as many as before, and none is freed twice or lost.
pub merge-IsPool :
    (p other : Pool)
    → IsPool p
    → IsPool other
    → IsPool (merge p other).0
      × IsPool (merge p other).1
      × ((merge p other).0.total_used ≡ wrap (in_use p.chunks + in_use other.chunks))
      × ((merge p other).0.total_reserved ≡ wrap (reserved p.chunks + reserved other.chunks))
      × (take (length p.chunks) (merge p other).0.chunks ≡ p.chunks)
      × (drop (length p.chunks) (merge p other).0.chunks ≡ other.chunks)
      × ((merge p other).1.chunks ≡ [])
      × ((address : ℕ)
          → owned address (merge p other).0.chunks + owned address (merge p other).1.chunks
            ≡ owned address p.chunks + owned address other.chunks)
unfolding merge
merge-IsPool p other v w = (
  record {
    within = AllWithin-append p.chunks other.chunks v.within w.within;
    all_reserved =
        omega (arith, v.all_reserved, w.all_reserved, reserved-append p.chunks other.chunks);
    all_used = omega (arith, v.all_used, w.all_used, in_use-append p.chunks other.chunks);
  },
  record { within = tt; all_reserved = refl; all_used = refl },
  omega (arith, v.all_used, w.all_used),
  omega (arith, v.all_reserved, w.all_reserved),
  take-append p.chunks other.chunks,
  drop-append p.chunks other.chunks,
  refl,
  λ address. omega (arith, owned-append address p.chunks other.chunks),
)
