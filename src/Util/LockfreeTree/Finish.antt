-- ===== src/Util/LockfreeTree/Finish.antt =====
-- No call of `append` waits for another one.
use caliper_msg_pattern.Prelude.{
  ℕ, zero, suc, true, false, ◌+◌, ◌≤◌, ◌≡◌, ◌≢◌, Bool, if◌then◌else◌, ◌==◌, ==_refl, refl, arith,
  inl, inr, ◌⊎◌,
}
use caliper_msg_pattern.Util.LockfreeTree.{
  Place, entered, looping, returned, State, Step, enter, succeed, fail, Steps, none_yet, and_then,
}
use caliper_msg_pattern.Util.LockfreeTree.Append.{set_self}
use mathlib.Core.Path.{subst}
use native.Mathlib.Decide.{ℕ_discrete}

Place-cases : (p : Place) → (p ≡ entered) ⊎ (p ≡ looping) ⊎ (p ≡ returned)
Place-cases entered = inl refl
Place-cases looping = inr (inl refl)
Place-cases returned = inr (inr refl)

module _ (sub me : ℕ → ℕ) where
  -- The call that a step belongs to.
  abbrev pub mover : {s t : State} → Step sub me s t → ℕ
  mover (enter i _) = i
  mover (succeed i _ _) = i
  mover (fail i _) = i

  abbrev pub AllBy : ℕ → {s t : State} → Steps sub me s t → Type 0
  AllBy i none_yet = Unit
  AllBy i (and_then run step) = AllBy i run × (mover step ≡ i)

  abbrev pub count : {s t : State} → Steps sub me s t → ℕ
  count none_yet = 0
  count (and_then run step) = count run + 1

  -- A step in which the compare and exchange does not fail where the head is the one expected.
  abbrev pub IsGenuine : {s t : State} → Step sub me s t → Type 0
  IsGenuine (enter i _) = Unit {0}
  IsGenuine (succeed i _ _) = Unit {0}
  IsGenuine {s} (fail i _) = s.fields.head (me i) ≢ s.fields.next (sub i)

  abbrev pub AllGenuine : {s t : State} → Steps sub me s t → Type 0
  AllGenuine none_yet = Unit {0}
  AllGenuine (and_then run step) = AllGenuine run × IsGenuine step

  -- What the call `i` does from a state while no other call moves. There is such a run in which it
  -- returns, by at most three steps. No run is longer than three steps, and a run in which it has
  -- not returned can go on.
  pub record Returns (i : ℕ) (s : State) : Type 0 where
    pub last : State
    pub run : Steps sub me s last
    pub alone : AllBy i run
    pub genuine : AllGenuine run
    pub here : last.place i ≡ returned
    pub short : (t : State) (r : Steps sub me s t) → AllBy i r → AllGenuine r → count r ≤ 3
    pub goes_on :
        (t : State) (r : Steps sub me s t)
        → AllBy i r
        → AllGenuine r
        → (t.place i ≡ returned)
          ⊎ ((u : State) × (step : Step sub me t u) × (mover step ≡ i) × IsGenuine step)

  -- How many genuine steps of its own the call has left.
  left_at : Place → Bool → ℕ
  left_at entered same = 3
  left_at looping same = if same then 1 else 2
  left_at returned same = 0

  left : State → ℕ → ℕ
  unfolding left_at
  left s i = left_at (s.place i) (s.fields.head (me i) == s.fields.next (sub i))

  left_of : (s : State) (i : ℕ) (p : Place) → s.place i ≡ p → left s i ≤ left_at p false
  unfolding left left_at
  left_of s i p at = rw at (at_most p (s.fields.head (me i) == s.fields.next (sub i)))
    where
      at_most : (p : Place) (b : Bool) → left_at p b ≤ left_at p false
      at_most entered b = omega arith
      at_most looping true = omega arith
      at_most looping false = omega arith
      at_most returned b = omega arith

  left_le : (s : State) (i : ℕ) → left s i ≤ 3
  unfolding left_at
  left_le s i = elim (Place-cases (s.place i)) [
    | inl at ↦ omega (arith, left_of s i entered at)
    | inr (inl at) ↦ omega (arith, left_of s i looping at)
    | inr (inr at) ↦ omega (arith, left_of s i returned at)
  ]

  left_eq :
      (s : State) (i : ℕ) (p : Place) (b : Bool)
      → s.place i ≡ p
      → (s.fields.head (me i) == s.fields.next (sub i)) ≡ b
      → left s i ≡ left_at p b
  unfolding left
  left_eq s i p b at same = rw (at, same) refl

  Step-left :
      {s t : State} (step : Step sub me s t)
      → IsGenuine step
      → left t (mover step) + 1 ≤ left s (mover step)
  unfolding left_at
  Step-left {s} {t} (enter i at) g =
      omega (arith, left_of t i looping (set_self s.place i looping), left_eq s i entered _ at refl)
  Step-left {s} {t} (succeed i at e) g =
      let same : (s.fields.head (me i) == s.fields.next (sub i)) ≡ true = ground arith in
      omega (
        arith,
        left_of t i returned (set_self s.place i returned),
        left_eq s i looping true at same,
      )
  Step-left {s} {t} (fail i at) g =
      let other : (s.fields.head (me i) == s.fields.next (sub i)) ≡ false = ground arith in
      let same : (s.fields.head (me i) == t.fields.next (sub i)) ≡ true =
        rw (set_self s.fields.next (sub i) (s.fields.head (me i)))
          (==_refl (s.fields.head (me i))) in
      omega (
        arith,
        left_eq t i looping true (set_self s.place i looping) same,
        left_eq s i looping false at other,
      )

  run-left :
      {s t : State} (i : ℕ) (r : Steps sub me s t)
      → AllBy i r
      → AllGenuine r
      → count r + left t i ≤ left s i
  run-left i none_yet a g = omega arith
  run-left {s} i (and_then {t} {u} r step) a g =
      let one : left u i + 1 ≤ left t i =
        subst (λ j. left u j + 1 ≤ left t j) a.1 (Step-left step g.1) in
      omega (arith, run-left i r a.0 g.0, one)

  -- A call that has not returned has a genuine step.
  next-Step :
      (i : ℕ) (t : State)
      → (t.place i ≡ returned)
        ⊎ ((u : State) × (step : Step sub me t u) × (mover step ≡ i) × IsGenuine step)
  next-Step i t = elim (Place-cases (t.place i)) [
    | inl at ↦ inr (_, enter i at, refl, tt)
    | inr (inl at) ↦ elim (ℕ_discrete (t.fields.head (me i)) (t.fields.next (sub i))) [
      | yes e ↦ inr (_, succeed i at e, refl, tt)
      | no ne ↦ inr (_, fail i at, refl, ne)
    ]
    | inr (inr at) ↦ inl at
  ]

  short_run : (i : ℕ) (s t : State) (r : Steps sub me s t) → AllBy i r → AllGenuine r → count r ≤ 3
  short_run i s t r a g = omega (arith, run-left i r a g, left_le s i)

  returned_run :
      (i : ℕ) (s t : State) (r : Steps sub me s t)
      → AllBy i r
      → AllGenuine r
      → t.place i ≡ returned
      → Returns i s
  returned_run i s t r a g at = record {
    last = t;
    run = r;
    alone = a;
    genuine = g;
    here = at;
    short = short_run i s;
    goes_on = λ u q b h. next-Step i u;
  }

  own-left :
      (i : ℕ) (t u : State) (step : Step sub me t u)
      → mover step ≡ i
      → IsGenuine step
      → left u i + 1 ≤ left t i
  own-left i t u step mv gen = subst (λ j. left u j + 1 ≤ left t j) mv (Step-left step gen)

  finish :
      (fuel i : ℕ) (s t : State) (r : Steps sub me s t)
      → AllBy i r
      → AllGenuine r
      → left t i ≤ fuel
      → Returns i s
  finish zero i s t r a g le = elim (next-Step i t) [
    | inl at ↦ returned_run i s t r a g at
    | inr (u, step, mv, gen) ↦ absurd (omega (arith, own-left i t u step mv gen))
  ]
  finish (suc fuel) i s t r a g le = elim (next-Step i t) [
    | inl at ↦ returned_run i s t r a g at
    | inr (u, step, mv, gen) ↦
        finish fuel i s u (and_then r step) (a, mv) (g, gen)
          (omega (arith, own-left i t u step mv gen))
  ]

  -- From any state, wherever the other calls of `append` stand and whatever they have done, a call
  -- that runs alone returns by at most three steps, if the compare and exchange does not fail where
  -- the head is the one expected: such a run exists, every run of its steps alone is as short, and
  -- none of them ends before the call has returned for want of a step. It waits for no other call.
  pub call-Returns : (s : State) (i : ℕ) → Returns i s
  call-Returns s i = finish 3 i s s none_yet tt tt (left_le s i)
