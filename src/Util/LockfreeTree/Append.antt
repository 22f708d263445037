-- ===== src/Util/LockfreeTree/Append.antt =====
-- The children of the nodes while calls of `append` interleave.
use caliper_msg_pattern.Prelude.{
  ℕ, ◌≡◌, ◌≢◌, refl, sym, ap, ◌∙◌, arith, List, [], ◌∷◌, ◌++◌, All, inl, inr, ◌⊎◌, ==_refl,
}
use native.Mathlib.Decide.{ℕ_discrete}
use caliper_msg_pattern.Util.LockfreeTree.{
  set_at, entered, looping, returned, State, goes_to, set_parent, exchange_head, load_head, Step,
  enter, succeed, fail, Steps, none_yet, and_then,
}

-- The list that `first_child` and `next_sibling` go through.
abbrev pub Chain : (ℕ → ℕ) → ℕ → List ℕ → Type 0
Chain next h [] = h ≡ 0
Chain next h (x ∷ xs) = (h ≡ x) × (x ≢ 0) × Chain next (next x) xs

abbrev pub Has : ℕ → List ℕ → Type 0
Has x [] = ⊥
Has x (y ∷ ys) = (x ≡ y) ⊎ Has x ys

abbrev pub Lacks : ℕ → List ℕ → Type 0
Lacks x = All (λ y. y ≢ x)

pub set_self {ℓ} : {A : Type ℓ} (f : ℕ → A) (i : ℕ) (a : A) → set_at f i a i ≡ a
set_self f i a = rw ==_refl

pub set_other {ℓ} : {A : Type ℓ} (f : ℕ → A) (i x : ℕ) (a : A) → x ≢ i → set_at f i a x ≡ f x
set_other f i x a ne = ground arith

-- What holds at the place that is written and at the others holds behind the write.
set-rule :
    {A : Type 0} (R : ℕ → A → Type 0) (f : ℕ → A) (i x : ℕ) (a : A)
    → R i a
    → (x ≢ i → R x (f x))
    → R x (set_at f i a x)
set-rule R f i x a here there = elim (ℕ_discrete x i) [
  | yes e ↦ rw (e, set_self f i a) here
  | no ne ↦ rw (set_other f i x a ne) (there ne)
]

-- The same for two functions that are written at one place.
set-both :
    {A B : Type 0} (R : ℕ → A → B → Type 0) (f : ℕ → A) (g : ℕ → B) (i x : ℕ) (a : A) (b : B)
    → R i a b
    → (x ≢ i → R x (f x) (g x))
    → R x (set_at f i a x) (set_at g i b x)
set-both R f g i x a b here there = elim (ℕ_discrete x i) [
  | yes e ↦ rw (e, set_self f i a, set_self g i b) here
  | no ne ↦ rw (set_other f i x a ne, set_other g i x b ne) (there ne)
]

Chain-set :
    (next : ℕ → ℕ) (y v h : ℕ) (xs : List ℕ)
    → Lacks y xs
    → Chain next h xs
    → Chain (set_at next y v) h xs
Chain-set next y v h [] out c = c
Chain-set next y v h (x ∷ xs) out c =
    (c.0, c.1, rw (set_other next y x v out.0) (Chain-set next y v (next x) xs out.1 c.2))

module _ (sub me : ℕ → ℕ) (old : ℕ → List ℕ) where
  -- The children of a node are those it had, behind those whose `append` has returned.
  pub record IsAppending (s : State) (new : ℕ → List ℕ) : Type 0 where
    pub chains : (p : ℕ) → Chain s.fields.next (s.fields.head p) (new p ++ old p)
    pub waiting : (i q : ℕ) → s.place i ≢ returned → Lacks (sub i) (new q ++ old q)
    pub joined : (i : ℕ) → s.place i ≢ entered → s.fields.parent (sub i) ≡ me i
    pub done : (i : ℕ) → s.place i ≡ returned → Has (sub i) (new (me i))
    pub only :
        (p x : ℕ) → Has x (new p) → (i : ℕ) × (s.place i ≡ returned) × (sub i ≡ x) × (me i ≡ p)

  module _ (real : (i : ℕ) → sub i ≢ 0) (distinct : (i j : ℕ) → sub i ≡ sub j → i ≡ j) {s : State}
      {new : ℕ → List ℕ} (a : IsAppending s new) (i : ℕ) where
    -- A call that goes to the loop had not returned, and no other call moves.
    module _ (here : s.place i ≢ returned) where
      looping-returned : (j : ℕ) → set_at s.place i looping j ≡ returned → s.place j ≡ returned
      looping-returned j =
          set-rule (λ k pl. pl ≡ returned → s.place k ≡ returned) s.place i j looping (λ e. cc)
            (λ ne e. e)

      returned-looping : (j : ℕ) → s.place j ≡ returned → set_at s.place i looping j ≡ returned
      returned-looping j e =
          rw (set_other s.place i j looping (λ q. here (ap s.place (sym q) ∙ e))) e

      still_waiting :
          (j q : ℕ) → set_at s.place i looping j ≢ returned → Lacks (sub j) (new q ++ old q)
      still_waiting j q ne = a.waiting j q (λ e. ne (returned-looping j e))

      still_done : (j : ℕ) → set_at s.place i looping j ≡ returned → Has (sub j) (new (me j))
      still_done j e = a.done j (looping-returned j e)

      still_only :
          (p x : ℕ)
          → Has x (new p)
          → (j : ℕ) × (set_at s.place i looping j ≡ returned) × (sub j ≡ x) × (me j ≡ p)
      still_only p x h = let (j, at, q, m) = a.only p x h in (j, returned-looping j at, q, m)

    enter-kept :
        s.place i ≡ entered
        → IsAppending (goes_to s i looping (set_parent s.fields (sub i) (me i))) new
    enter-kept at = record {
      chains = a.chains;
      waiting = still_waiting (λ e. cc);
      joined = λ j ne.
          set-rule (λ k v. k ≡ sub j → v ≡ me j) s.fields.parent (sub i) (sub j) (me i)
            (λ e. ap me (distinct i j e))
            (λ far e.
              a.joined j (λ q. ne (set_other s.place i j looping (λ t. far (ap sub t)) ∙ q)))
            refl;
      done = still_done (λ e. cc);
      only = still_only (λ e. cc);
    }

    fail-kept :
        s.place i ≡ looping
        → IsAppending (goes_to s i looping (load_head s.fields (sub i) (me i))) new
    fail-kept at = record {
      chains = λ p.
          Chain-set s.fields.next (sub i) (s.fields.head (me i)) (s.fields.head p) (new p ++ old p)
            (a.waiting i p (λ e. cc)) (a.chains p);
      waiting = still_waiting (λ e. cc);
      joined = λ j.
          set-rule (λ k pl. pl ≢ entered → s.fields.parent (sub k) ≡ me k) s.place i j looping
            (λ ne. a.joined i (λ e. cc)) (λ ne. a.joined j);
      done = still_done (λ e. cc);
      only = still_only (λ e. cc);
    }

    not_yet : (j : ℕ) → set_at s.place i returned j ≢ returned → (j ≢ i) × (s.place j ≢ returned)
    not_yet j ne = elim (ℕ_discrete j i) [
      | yes e ↦ absurd (ne (rw (e, set_self s.place i returned) refl))
      | no far ↦ (far, λ q. ne (set_other s.place i j returned far ∙ q))
    ]

    returned-now : (j : ℕ) → s.place j ≡ returned → set_at s.place i returned j ≡ returned
    returned-now j e = set-rule (λ k pl. pl ≡ returned) s.place i j returned refl (λ _. e)

    returned_before :
        (p x : ℕ)
        → Has x (new p)
        → (j : ℕ) × (set_at s.place i returned j ≡ returned) × (sub j ≡ x) × (me j ≡ p)
    returned_before p x h = let (j, at, q, m) = a.only p x h in (j, returned-now j at, q, m)

    abbrev pushed : ℕ → List ℕ
    pushed = set_at new (me i) (sub i ∷ new (me i))

    pushed-Has : (j p : ℕ) → Has (sub j) (new p) → Has (sub j) (pushed p)
    pushed-Has j p h =
        set-rule (λ q l. q ≡ p → Has (sub j) l) new (me i) p (sub i ∷ new (me i))
          (λ e. inr (rw e h)) (λ _ _. h) refl

    succeed-kept :
        s.place i ≡ looping
        → s.fields.head (me i) ≡ s.fields.next (sub i)
        → IsAppending (goes_to s i returned (exchange_head s.fields (sub i) (me i))) pushed
    succeed-kept at e = record {
      chains = λ p.
          set-both (λ q h l. Chain s.fields.next h (l ++ old q)) s.fields.head new (me i) p (sub i)
            (sub i ∷ new (me i)) (refl, real i, rw (sym e) (a.chains (me i))) (λ _. a.chains p);
      waiting = λ j q ne.
          let (far, before) = not_yet j ne in
          set-rule (λ p l. Lacks (sub j) (l ++ old p)) new (me i) q (sub i ∷ new (me i))
            ((λ t. far (sym (distinct i j t))), a.waiting j (me i) before)
            (λ _. a.waiting j q before);
      joined = λ j.
          set-rule (λ k pl. pl ≢ entered → s.fields.parent (sub k) ≡ me k) s.place i j returned
            (λ ne. a.joined i (λ q. cc)) (λ ne. a.joined j);
      done = λ j.
          set-rule (λ k pl. pl ≡ returned → Has (sub k) (pushed (me k))) s.place i j returned
            (λ _. rw (set_self new (me i) (sub i ∷ new (me i))) (inl refl))
            (λ _ q. pushed-Has j (me j) (a.done j q));
      only = λ p x.
          set-rule
            (λ q l.
              Has x l
              → (j : ℕ) × (set_at s.place i returned j ≡ returned) × (sub j ≡ x) × (me j ≡ q))
            new (me i) p (sub i ∷ new (me i))
            (λ h. elim h [
              | inl t ↦ (i, set_self s.place i returned, sym t, refl)
              | inr t ↦ returned_before (me i) x t
            ])
            (λ _. returned_before p x);
    }

  -- What a start must give: nothing has been called, and the new nodes are in no list.
  pub record IsStart (s : State) : Type 0 where
    pub all_enter : (i : ℕ) → s.place i ≡ entered
    pub chains : (p : ℕ) → Chain s.fields.next (s.fields.head p) (old p)
    pub apart : (i q : ℕ) → Lacks (sub i) (old q)

  start-IsAppending : {s : State} → IsStart s → IsAppending s (λ _. [])
  start-IsAppending st = record {
    chains = st.chains;
    waiting = λ i q _. st.apart i q;
    joined = λ i ne. absurd (ne (st.all_enter i));
    done = λ i e. let q = st.all_enter i in cc;
    only = λ p x h. absurd h;
  }

  module _ (real : (i : ℕ) → sub i ≢ 0) (distinct : (i j : ℕ) → sub i ≡ sub j → i ≡ j) where
    Step-IsAppending :
        {s t : State} {new : ℕ → List ℕ}
        → Step sub me s t
        → IsAppending s new
        → (more : ℕ → List ℕ) × IsAppending t more
    Step-IsAppending {new = new} (enter i at) a = (new, enter-kept real distinct a i at)
    Step-IsAppending {new = new} (fail i at) a = (new, fail-kept real distinct a i at)
    Step-IsAppending (succeed i at e) a =
        (pushed real distinct a i, succeed-kept real distinct a i at e)

    -- Whatever calls of `append` have run, and however their steps were interleaved, the list of
    -- children of each node is the one it had at the start behind new nodes; these are the nodes
    -- whose call on this node has returned, all of them and no others; a node whose call has begun
    -- has its parent set; and the node of a call that has not returned is in no list. The nodes
    -- that are appended are distinct, not null, and children of nothing at the start.
    pub Steps-IsAppending :
        {s t : State} → IsStart s → Steps sub me s t → (new : ℕ → List ℕ) × IsAppending t new
    Steps-IsAppending st none_yet = ((λ _. []), start-IsAppending st)
    Steps-IsAppending st (and_then run step) =
        let (new, a) = Steps-IsAppending st run in Step-IsAppending step a
