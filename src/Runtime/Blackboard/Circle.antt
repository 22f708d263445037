-- ===== src/Runtime/Blackboard/Circle.antt =====
-- Distances round the table, and what the condition in the loop of `del` says of them.
use caliper_msg_pattern.Prelude.{ℕ, ◌+◌, ◌≤◌, ◌<◌, ◌≡◌, ◌≢◌, arith, true, false}
use caliper_msg_pattern.Runtime.Blackboard.{nmax, Table, fills}
use caliper_msg_pattern.Runtime.Blackboard.Probe.{dist}
use caliper_msg_pattern.Runtime.Blackboard.Table.{home}

-- Three places on the circle.
pub dist_split :
    (h i s : ℕ)
    → h < nmax
    → i < nmax
    → s < nmax
    → dist h i < dist h s
    → dist h s ≡ dist h i + dist i s
dist_split h i s hh hi hs lt = omega arith

pub dist_join :
    (h i j s : ℕ)
    → h < nmax
    → i < nmax
    → j < nmax
    → s < nmax
    → dist h i < dist h s
    → dist i j < dist i s
    → dist h j < dist h s
dist_join h i j s hh hi hj hs p q = omega arith

pub dist_zero : (i s : ℕ) → i < nmax → s < nmax → s ≢ i → 0 < dist i s
dist_zero i s hi hs ne = omega arith

pub dist_inj : (i s x : ℕ) → i < nmax → s < nmax → x < nmax → dist i s ≡ dist i x → s ≡ x
dist_inj i s x hi hs hx e = omega arith

-- The condition in the loop is that the way from the entry's home to the entry passes the hole.
pub fills_iff-dist :
    (i j k : ℕ)
    → i < nmax
    → j < nmax
    → k < nmax
    → i ≢ j
    → (fills i j k ≡ true → dist k i < dist k j) × (fills i j k ≡ false → dist k j ≤ dist k i)
fills_iff-dist i j k hi hj hk ne = (λ e. ground arith, λ e. ground arith)

pub home_lt : (t : Table) (s : ℕ) → home t s < nmax
home_lt t s = omega arith
