-- ===== src/Runtime/Blackboard/Shift.antt =====
-- The loop of `del` that moves entries back over the hole which the deleted entry leaves.
use caliper_msg_pattern.Prelude.{ℕ, ◌+◌, ◌%◌, ◌<◌, ◌≡◌, ◌≢◌, sym, ap, ◌∙◌, arith, true, false}
use native.Mathlib.Decide.{ℕ_discrete}
use caliper_msg_pattern.Common.Entry.{inv_id}
use caliper_msg_pattern.Runtime.Blackboard.{nmax, Table, update, free_slot, fills}
use caliper_msg_pattern.Runtime.Blackboard.Probe.{dist, dist_lt, IsFree, next_lt, dist_self}
use caliper_msg_pattern.Runtime.Blackboard.Table.{home, IsTable}
use caliper_msg_pattern.Runtime.Blackboard.Update.{update_self, update_ne, key_eq}
use caliper_msg_pattern.Runtime.Blackboard.Circle.{
  dist_join, dist_zero, dist_inj, fills_iff-dist, home_lt,
}

-- The hole at `i`; the slots after it have been looked at up to `j`.
pub record Holed (t : Table) (i j f : ℕ) : Type 0 where
  pub hole_lt : i < nmax
  pub here_lt : j < nmax
  pub free_lt : f < nmax
  pub free : IsFree t f
  pub hole_used : (t i).key ≢ inv_id
  pub here_used : (t j).key ≢ inv_id
  pub ahead : dist i j < dist i f
  pub unique :
      (s x : ℕ)
      → s < nmax
      → x < nmax
      → s ≢ i
      → x ≢ i
      → (t s).key ≢ inv_id
      → (t s).key ≡ (t x).key
      → s ≡ x
  pub path :
      (s x : ℕ)
      → s < nmax
      → x < nmax
      → s ≢ i
      → x ≢ i
      → (t s).key ≢ inv_id
      → dist (home t s) x < dist (home t s) s
      → (t x).key ≢ inv_id
  pub past :
      (s : ℕ)
      → s < nmax
      → s ≢ i
      → (t s).key ≢ inv_id
      → dist (home t s) i < dist (home t s) s
      → dist i j < dist i s

module _ (t : Table) (i j f : ℕ) (inv : Holed t i j f) where
  abbrev pub next : ℕ
  next = (j + 1) % nmax

  pub next_ne : next ≢ i
  next_ne e =
      let p = inv.ahead in let q = inv.hole_lt in let r = inv.here_lt in omega (arith, dist_lt i f)

  pub free_ne : f ≢ i
  free_ne e = inv.hole_used (ap (λ x. (t x).key) (sym e) ∙ inv.free)

  pub free_ne_here : f ≢ j
  free_ne_here e = inv.here_used (ap (λ x. (t x).key) (sym e) ∙ inv.free)

  step_back : dist i next ≡ dist i j + 1
  step_back = let n = next_ne in let p = inv.hole_lt in let q = inv.here_lt in omega arith

  -- The next slot is free: the hole can be freed.
  pub stop-IsTable : IsFree t next → IsTable (update t i free_slot)
  stop-IsTable stop = record {
    chain = chain;
    unique = λ s x hs hx p q. elim (ℕ_discrete s i) [
      | yes e ↦ absurd (p (key_eq (freed s e)))
      | no ne ↦ elim (ℕ_discrete x i) [
        | yes e' ↦ absurd (p (q ∙ key_eq (freed x e')))
        | no ne' ↦
            inv.unique s x hs hx ne ne' (λ e. p (key_eq (kept s ne) ∙ e))
              (sym (key_eq (kept s ne)) ∙ q ∙ key_eq (kept x ne'))
      ]
    ];
  }
    where
      freed : (s : ℕ) → s ≡ i → update t i free_slot s ≡ free_slot
      freed s e = ap (update t i free_slot) e ∙ update_self t i free_slot

      kept : (s : ℕ) → s ≢ i → update t i free_slot s ≡ t s
      kept s ne = update_ne t i s free_slot ne

      chain :
          (s x : ℕ)
          → s < nmax
          → x < nmax
          → (update t i free_slot s).key ≢ inv_id
          → dist (home (update t i free_slot) s) x < dist (home (update t i free_slot) s) s
          → (update t i free_slot x).key ≢ inv_id
      chain s x hs hx p lt = elim (ℕ_discrete s i) [
        | yes e ↦ absurd (p (key_eq (freed s e)))
        | no ne ↦
            let p' : (t s).key ≢ inv_id = λ e. p (key_eq (kept s ne) ∙ e) in
            let lt' : dist (home t s) x < dist (home t s) s = rw (kept s ne) at lt in
            elim (ℕ_discrete x i) [
              | no ne' ↦ λ e. inv.path s x hs hx ne ne' p' lt' (sym (key_eq (kept x ne')) ∙ e)
              | yes e' ↦
                  let over : dist (home t s) i < dist (home t s) s = rw e' at lt' in
                  let far = inv.past s hs ne p' over in
                  let apart : next ≢ s = λ q. p' (ap (λ x. (t x).key) (sym q) ∙ stop) in
                  let apart' : dist i next ≢ dist i s =
                    λ q. apart (dist_inj i next s inv.hole_lt (next_lt j) hs q) in
                  let before =
                    dist_join (home t s) i next s (home_lt t s) inv.hole_lt (next_lt j) hs over
                      (omega (arith, step_back)) in
                  absurd (inv.path s next hs (next_lt j) ne next_ne p' before stop)
            ]
      ]

  ahead_next : (t next).key ≢ inv_id → dist i next < dist i f
  ahead_next p =
      let apart : next ≢ f = λ q. p (ap (λ x. (t x).key) q ∙ inv.free) in
      let apart' : dist i next ≢ dist i f =
        λ q. apart (dist_inj i next f inv.hole_lt (next_lt j) inv.free_lt q) in
      omega (arith, step_back, inv.ahead)

  -- The entry at the next slot stays: its way does not pass the hole.
  pub kept-Holed : (t next).key ≢ inv_id → fills i next (home t next) ≡ false → Holed t i next f
  kept-Holed p stays = record {
    hole_lt = inv.hole_lt;
    here_lt = next_lt j;
    free_lt = inv.free_lt;
    free = inv.free;
    hole_used = inv.hole_used;
    here_used = p;
    ahead = ahead_next p;
    unique = inv.unique;
    path = inv.path;
    past = past;
  }
    where
      past :
          (s : ℕ)
          → s < nmax
          → s ≢ i
          → (t s).key ≢ inv_id
          → dist (home t s) i < dist (home t s) s
          → dist i next < dist i s
      past s hs ne q over =
          let far = inv.past s hs ne q over in
          elim (ℕ_discrete next s) [
            | yes e ↦
                let short =
                  (fills_iff-dist i next (home t next) inv.hole_lt (next_lt j) (home_lt t next)
                      (λ q. next_ne (sym q))).1
                    stays in
                absurd (omega (arith, rw e at short))
            | no apart ↦
                let apart' : dist i next ≢ dist i s =
                  λ q. apart (dist_inj i next s inv.hole_lt (next_lt j) hs q) in
                omega (arith, step_back)
          ]

  -- The entry at the next slot moves into the hole, and leaves the next slot as the hole.
  abbrev pub moved : Table
  moved = update t i (t next)

  pub moved_hole : moved i ≡ t next
  moved_hole = update_self t i (t next)

  pub moved_ne : (x : ℕ) → x ≢ i → moved x ≡ t x
  moved_ne x ne = update_ne t i x (t next) ne

  self_lt : (x : ℕ) → x < nmax → x ≢ next → dist next next < dist next x
  self_lt x hx ne = omega (arith, dist_self next (next_lt j), dist_zero next x (next_lt j) hx ne)

  module _ (p : (t next).key ≢ inv_id) where
    moved_used : (x : ℕ) → (x ≢ i → (t x).key ≢ inv_id) → (moved x).key ≢ inv_id
    moved_used x q = elim (ℕ_discrete x i) [
      | yes e ↦ λ r. p (sym (key_eq (ap moved e ∙ moved_hole)) ∙ r)
      | no ne ↦ λ r. q ne (sym (key_eq (moved_ne x ne)) ∙ r)
    ]

    moved_unique :
        (s x : ℕ)
        → s < nmax
        → x < nmax
        → s ≢ next
        → x ≢ next
        → (moved s).key ≢ inv_id
        → (moved s).key ≡ (moved x).key
        → s ≡ x
    moved_unique s x hs hx ns nx q e = elim (ℕ_discrete s i) [
      | yes si ↦ elim (ℕ_discrete x i) [
        | yes xi ↦ si ∙ sym xi
        | no xi ↦
            let e' : (t next).key ≡ (t x).key =
              sym (key_eq (ap moved si ∙ moved_hole)) ∙ e ∙ key_eq (moved_ne x xi) in
            absurd (nx (sym (inv.unique next x (next_lt j) hx next_ne xi p e')))
      ]
      | no si ↦
          let q' : (t s).key ≢ inv_id = λ r. q (key_eq (moved_ne s si) ∙ r) in
          elim (ℕ_discrete x i) [
            | yes xi ↦
                let e' : (t s).key ≡ (t next).key =
                  sym (key_eq (moved_ne s si)) ∙ e ∙ key_eq (ap moved xi ∙ moved_hole) in
                absurd (ns (inv.unique s next hs (next_lt j) si next_ne q' e'))
            | no xi ↦
                inv.unique s x hs hx si xi q'
                  (sym (key_eq (moved_ne s si)) ∙ e ∙ key_eq (moved_ne x xi))
          ]
    ]

    module _ (goes : fills i next (home t next) ≡ true) where
      over_hole : dist (home t next) i < dist (home t next) next
      over_hole =
          (fills_iff-dist i next (home t next) inv.hole_lt (next_lt j) (home_lt t next)
              (λ q. next_ne (sym q))).0
            goes

      moved_path :
          (s x : ℕ)
          → s < nmax
          → x < nmax
          → s ≢ next
          → x ≢ next
          → (moved s).key ≢ inv_id
          → dist (home moved s) x < dist (home moved s) s
          → (moved x).key ≢ inv_id
      moved_path s x hs hx ns nx q lt = elim (ℕ_discrete s i) [
        | yes si ↦
            let here : home moved s ≡ home t next =
              ap (λ (k : ℕ). k % nmax) (key_eq (ap moved si ∙ moved_hole)) in
            let lt' : dist (home t next) x < dist (home t next) i = rw (here, si) at lt in
            moved_used x
              (λ xi. inv.path next x (next_lt j) hx next_ne xi p (omega (arith, over_hole)))
        | no si ↦ moved_used x (λ xi.
            inv.path s x hs hx si xi (λ r. q (key_eq (moved_ne s si) ∙ r))
              (rw (moved_ne s si) at lt))
      ]

      pub moved-Holed : Holed moved next next f
      moved-Holed = record {
        hole_lt = next_lt j;
        here_lt = next_lt j;
        free_lt = inv.free_lt;
        free = key_eq (moved_ne f free_ne) ∙ inv.free;
        hole_used = moved_used next (λ _. p);
        here_used = moved_used next (λ _. p);
        ahead = self_lt f inv.free_lt (λ e. p (ap (λ x. (t x).key) (sym e) ∙ inv.free));
        unique = moved_unique;
        path = moved_path;
        past = λ s hs ns q lt. self_lt s hs ns;
      }
