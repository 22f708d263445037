-- ===== src/Reader/Aggregator/Arrange.antt =====
-- src/reader/Aggregator.cpp: the order of the nodes of a key.
use caliper_msg_pattern.Prelude.{
  ℕ, ◌≤◌, ◌≡◌, refl, ap, ◌∙◌, inl, inr, arith, Bool, true, false, not, List, [], ◌∷◌, ◌++◌,
  if◌then◌else◌, ltb, ◌==◌, All, Bool-cases, ltb→lt, ==_iff, append-nil,
}
use caliper_msg_pattern.Common.Variant.Convert.{DoubleOps}
use caliper_msg_pattern.Common.Entry.{NodePtr}
use caliper_msg_pattern.Reader.Metadata.{MetadataAccess}
use caliper_msg_pattern.Reader.Aggregator.{
  attribute_at, keep, sort_in, stable_sort, arrange_nodes, nested_attribute, nested_node,
}

-- The nodes with one attribute, in their order.
abbrev pub with_attribute : ℕ → List NodePtr → List NodePtr
with_attribute a nodes = keep (λ n. attribute_at n == a) nodes

-- Ordered by the attribute.
abbrev pub IsOrdered : List NodePtr → Type 0
IsOrdered [] = Unit
IsOrdered (x ∷ xs) = All (λ y. attribute_at x ≤ attribute_at y) xs × IsOrdered xs

keep-append {ℓ} :
    {A : Type ℓ} (p : A → Bool) (xs ys : List A) → keep p (xs ++ ys) ≡ keep p xs ++ keep p ys
unfolding keep
keep-append p [] ys = refl
keep-append p (x ∷ xs) ys = ground (arith, keep-append p xs ys)

All-sort_in :
    (P : NodePtr → Type 0) (x : NodePtr) (ys : List NodePtr) → P x → All P ys → All P (sort_in x ys)
unfolding sort_in
All-sort_in P x [] p h = (p, tt)
All-sort_in P x (y ∷ ys) p (h, hs) = elim (Bool-cases (ltb (attribute_at y) (attribute_at x))) [
  | inl lt ↦ rw lt (h, All-sort_in P x ys p hs)
  | inr ge ↦ rw ge (p, (h, hs))
]

All-stable_sort : (P : NodePtr → Type 0) (xs : List NodePtr) → All P xs → All P (stable_sort xs)
unfolding stable_sort
All-stable_sort P [] h = tt
All-stable_sort P (x ∷ xs) (h, hs) = All-sort_in P x (stable_sort xs) h (All-stable_sort P xs hs)

All-le :
    (a b : ℕ) (xs : List NodePtr)
    → a ≤ b
    → All (λ y. b ≤ attribute_at y) xs
    → All (λ y. a ≤ attribute_at y) xs
All-le a b [] le h = tt
All-le a b (x ∷ xs) le (h, hs) = (omega (arith, le, h), All-le a b xs le hs)

not_lt :
    (x y : NodePtr)
    → ltb (attribute_at y) (attribute_at x) ≡ false
    → attribute_at x ≤ attribute_at y
not_lt x y h = ground arith

sort_in-IsOrdered : (x : NodePtr) (ys : List NodePtr) → IsOrdered ys → IsOrdered (sort_in x ys)
unfolding sort_in
sort_in-IsOrdered x [] o = (tt, tt)
sort_in-IsOrdered x (y ∷ ys) (h, o) = elim (Bool-cases (ltb (attribute_at y) (attribute_at x))) [
  | inl lt ↦ rw lt (
    All-sort_in (λ z. attribute_at y ≤ attribute_at z) x ys
        (omega (arith, ltb→lt (attribute_at y) (attribute_at x) lt)) h,
    sort_in-IsOrdered x ys o,
  )
  | inr ge ↦
      rw ge ((not_lt x y ge, All-le (attribute_at x) (attribute_at y) ys (not_lt x y ge) h), (h, o))
]

stable_sort-IsOrdered : (xs : List NodePtr) → IsOrdered (stable_sort xs)
unfolding stable_sort
stable_sort-IsOrdered [] = tt
stable_sort-IsOrdered (x ∷ xs) = sort_in-IsOrdered x (stable_sort xs) (stable_sort-IsOrdered xs)

module _ (a : ℕ) where
  sort_in-with :
      (x : NodePtr) (ys : List NodePtr)
      → with_attribute a (sort_in x ys) ≡ with_attribute a (x ∷ ys)
  unfolding sort_in keep
  sort_in-with x [] = refl
  sort_in-with x (y ∷ ys) = ground (arith, sort_in-with x ys)

  stable_sort-with : (xs : List NodePtr) → with_attribute a (stable_sort xs) ≡ with_attribute a xs
  unfolding stable_sort keep
  stable_sort-with [] = refl
  stable_sort-with (x ∷ xs) = ground (arith, sort_in-with x (stable_sort xs), stable_sort-with xs)

  -- A test of the attribute keeps all nodes with one attribute or none.
  keep-with :
      (test : ℕ → Bool) (xs : List NodePtr)
      → with_attribute a (keep (λ n. test (attribute_at n)) xs)
        ≡ (if test a then with_attribute a xs else [])
  unfolding keep
  keep-with test [] = ground arith
  keep-with test (x ∷ xs) = elim (Bool-cases (attribute_at x == a)) [
    | inl same ↦
        ground (arith, same, ap test ((==_iff (attribute_at x) a).0 same), keep-with test xs)
    | inr other ↦ ground (arith, other, keep-with test xs)
  ]

All-keep {ℓ} : {A : Type ℓ} (p : A → Bool) (xs : List A) → All (λ x. p x ≡ true) (keep p xs)
unfolding keep
All-keep p [] = tt
All-keep p (x ∷ xs) = elim (Bool-cases (p x)) [
  | inl yes_p ↦ rw (yes_p, keep) (yes_p, All-keep p xs)
  | inr no_p ↦ rw (no_p, keep) (All-keep p xs)
]

module _ {S : Type 0} (db : MetadataAccess S) (s : S) (d : DoubleOps) where
  join_parts :
      (b : Bool) (xs : List NodePtr) → (if b then xs else []) ++ (if not b then xs else []) ≡ xs
  join_parts true xs = append-nil xs
  join_parts false xs = refl

  arrange_nodes-with :
      (nodes : List NodePtr) (a : ℕ)
      → with_attribute a (arrange_nodes db s d nodes) ≡ with_attribute a nodes
  unfolding arrange_nodes
  arrange_nodes-with nodes a =
      keep-append (λ n. attribute_at n == a) (keep (nested_node db s d) nodes) _
      ∙ ap (λ xs. with_attribute a (keep (nested_node db s d) nodes) ++ xs)
          (stable_sort-with a (keep (λ n. not (nested_node db s d n)) nodes)
            ∙ keep-with a (λ b. not (nested_attribute db s d b)) nodes)
      ∙ ap (λ xs. xs ++ (if not (nested_attribute db s d a) then with_attribute a nodes else []))
          (keep-with a (nested_attribute db s d) nodes)
      ∙ join_parts (nested_attribute db s d a) (with_attribute a nodes)

  -- The nodes of a key are the nested ones in their order, and then the others ordered by their
  -- attribute; and the nodes with one attribute are those of the record, in the record's order.
  pub arrange_nodes-IsOrdered :
      (nodes : List NodePtr) (a : ℕ)
      → (others : List NodePtr) × (arrange_nodes db s d nodes
          ≡ keep (nested_node db s d) nodes ++ others)
        × IsOrdered others
        × All (λ n. not (nested_node db s d n) ≡ true) others
        × (with_attribute a (arrange_nodes db s d nodes) ≡ with_attribute a nodes)
  unfolding arrange_nodes
  arrange_nodes-IsOrdered nodes a = (
    stable_sort (keep (λ n. not (nested_node db s d n)) nodes),
    refl,
    stable_sort-IsOrdered (keep (λ n. not (nested_node db s d n)) nodes),
    All-stable_sort _ (keep (λ n. not (nested_node db s d n)) nodes)
        (All-keep (λ n. not (nested_node db s d n)) nodes),
    arrange_nodes-with nodes a,
  )
