-- ===== src/Services/SplayTree/Insert.antt =====
-- `insert` of src/services/alloc/SplayTree.hpp, as insertion into a sorted sequence.
use caliper_msg_pattern.Prelude.{◌≡◌, refl, sym, ap, ◌∙◌, ◌⊎◌, inl, inr, List, [], ◌∷◌, ◌++◌, All}
use caliper_msg_pattern.Prelude.Int.{ℤ}
use caliper_msg_pattern.Services.SplayTree.{
  left_hand, right_hand, Way, below, above, same, way, Tree, leaf, branch, Frame, Focus,
  insert_node, insert,
}
use caliper_msg_pattern.Services.SplayTree.Order.{
  inorder, around, inorder_focus, splay-inorder, IsOrder, Sorted, Sorted-left, Sorted-right,
  Sorted-before, All-map,
}

pub Way-cases : (w : Way) → (w ≡ below) ⊎ (w ≡ above) ⊎ (w ≡ same)
Way-cases below = inl refl
Way-cases above = inr (inl refl)
Way-cases same = inr (inr refl)

module _ {ℓ} {A : Type ℓ} where
  abbrev pub insert_way : Way → A → A → List A → List A → List A
  insert_way below v x xs rest = v ∷ x ∷ xs
  insert_way above v x xs rest = x ∷ rest
  insert_way same v x xs rest = v ∷ xs

  -- Insertion into a sorted list, in the place of an equal value if there is one.
  abbrev pub insert_list : (A → A → ℤ) → A → List A → List A
  insert_list cmp v [] = v ∷ []
  insert_list cmp v (x ∷ xs) = insert_way (way (cmp v x)) v x xs (insert_list cmp v xs)

module _ {ℓ} {A : Type ℓ} (cmp : A → A → ℤ) (v x : A) (r : List A) where
  insert_way-append :
      (w : Way) (y : A) (xs rest : List A)
      → insert_list cmp v (xs ++ (x ∷ r)) ≡ rest ++ (x ∷ r)
      → insert_way w v y (xs ++ (x ∷ r)) (insert_list cmp v (xs ++ (x ∷ r)))
        ≡ insert_way w v y xs rest ++ (x ∷ r)
  insert_way-append below y xs rest h = refl
  insert_way-append above y xs rest h = ap (λ t. y ∷ t) h
  insert_way-append same y xs rest h = refl

  insert_list-below :
      way (cmp v x) ≡ below
      → (xs : List A) → insert_list cmp v (xs ++ (x ∷ r)) ≡ insert_list cmp v xs ++ (x ∷ r)
  insert_list-below h [] = rw h refl
  insert_list-below h (y ∷ xs) =
      insert_way-append (way (cmp v y)) y xs (insert_list cmp v xs) (insert_list-below h xs)

  -- Behind values that are less.
  insert_list-behind :
      (xs : List A)
      → All (λ y. way (cmp v y) ≡ above) xs
      → insert_list cmp v (xs ++ (x ∷ r)) ≡ xs ++ insert_list cmp v (x ∷ r)
  insert_list-behind [] h = refl
  insert_list-behind (y ∷ xs) (h, hs) = rw h (ap (λ t. y ∷ t) (insert_list-behind xs hs))

module _ {ℓ} {A : Type ℓ} (cmp : A → A → ℤ) (order : IsOrder cmp) (v : A) where
  less_above : (x y : A) → way (cmp v x) ≡ above → way (cmp y x) ≡ below → way (cmp v y) ≡ above
  less_above x y a h = order.flip y v (order.trans y x v h (order.unflip v x a))

  less_same : (x y : A) → way (cmp v x) ≡ same → way (cmp y x) ≡ below → way (cmp v y) ≡ above
  less_same x y e h = order.flip y v (order.same_right v x y e h)

  module _ (l : Tree A) (x : A) (r : Tree A) (up : List (Frame A)) where
    node-below :
        way (cmp v x) ≡ below
        → insert_node cmp v (branch l x r) up
          ≡ insert_node cmp v l (record { hand = left_hand; val = x; other = r } ∷ up)
    unfolding insert_node
    node-below h = rw (h, insert_node) refl

    node-above :
        way (cmp v x) ≡ above
        → insert_node cmp v (branch l x r) up
          ≡ insert_node cmp v r (record { hand = right_hand; val = x; other = l } ∷ up)
    unfolding insert_node
    node-above h = rw (h, insert_node) refl

    node-same :
        way (cmp v x) ≡ same
        → insert_node cmp v (branch l x r) up ≡ (up, record { left = l; val = v; right = r })
    unfolding insert_node
    node-same h = rw (h, insert_node) refl

  -- The sequence of a tree whose node was reached.
  abbrev placed : List (Frame A) × Focus A → List A
  placed at = around at.0 (inorder_focus at.1)

  behind :
      (l : Tree A) (x : A) (r : Tree A)
      → Sorted cmp (inorder (branch l x r))
      → ((y : A) → way (cmp y x) ≡ below → way (cmp v y) ≡ above)
      → insert_list cmp v (inorder l ++ (x ∷ inorder r))
        ≡ inorder l ++ insert_list cmp v (x ∷ inorder r)
  behind l x r s less =
      insert_list-behind cmp v x (inorder r) (inorder l)
        (All-map (inorder l) less (Sorted-before cmp (inorder l) x (inorder r) s))

  abbrev Inserts : Tree A → List (Frame A) → Type ℓ
  Inserts t up =
      around (insert_node cmp v t up).0 (inorder_focus (insert_node cmp v t up).1)
      ≡ around up (insert_list cmp v (inorder t))

  insert_node-inorder : (t : Tree A) (up : List (Frame A)) → Sorted cmp (inorder t) → Inserts t up
  unfolding insert_node
  insert_node-inorder leaf up s = refl
  insert_node-inorder (branch l x r) up s = elim (Way-cases (way (cmp v x))) [
    | inl b ↦
        ap placed (node-below l x r up b)
        ∙ insert_node-inorder l _ (Sorted-left cmp (inorder l) (x ∷ inorder r) s)
        ∙ ap (around up) (sym (insert_list-below cmp v x (inorder r) b (inorder l)))
    | inr (inl a) ↦
        ap placed (node-above l x r up a)
        ∙ insert_node-inorder r _ (Sorted-right cmp (inorder l) (x ∷ inorder r) s).1
        ∙ ap (around up) (sym (behind l x r s (λ y. less_above x y a) ∙ rw a refl))
    | inr (inr e) ↦
        ap placed (node-same l x r up e)
        ∙ ap (around up) (sym (behind l x r s (λ y. less_same x y e) ∙ rw e refl))
  ]

  insert-inorder :
      (t : Tree A)
      → Sorted cmp (inorder t)
      → inorder (insert cmp v t) ≡ insert_list cmp v (inorder t)
  unfolding insert
  insert-inorder t s =
      splay-inorder (insert_node cmp v t []).0 (insert_node cmp v t []).1
      ∙ insert_node-inorder t [] s

  All-insert : (P : A → Type 0) (xs : List A) → P v → All P xs → All P (insert_list cmp v xs)
  All-insert P [] p h = (p, tt)
  All-insert P (x ∷ xs) p (h, hs) = elim (Way-cases (way (cmp v x))) [
    | inl b ↦ rw b (p, (h, hs))
    | inr (inl a) ↦ rw a (h, All-insert P xs p hs)
    | inr (inr e) ↦ rw e (p, hs)
  ]

  insert_list-Sorted : (xs : List A) → Sorted cmp xs → Sorted cmp (insert_list cmp v xs)
  insert_list-Sorted [] s = (tt, tt)
  insert_list-Sorted (x ∷ xs) (h, s) = elim (Way-cases (way (cmp v x))) [
    | inl b ↦ rw b ((b, All-map xs (λ y. order.trans v x y b) h), (h, s))
    | inr (inl a) ↦
        rw a (
          All-insert (λ y. way (cmp x y) ≡ below) xs (order.unflip v x a) h,
          insert_list-Sorted xs s,
        )
    | inr (inr e) ↦ rw e (All-map xs (λ y. order.same_left v x y e) h, s)
  ]

  -- On a tree whose values are sorted, under an order: the values after an insertion are those
  -- before with the value inserted into the sequence, in the place of an equal one if there is one,
  -- and they are sorted again.
  pub insert-Sorted :
      (t : Tree A)
      → Sorted cmp (inorder t)
      → (inorder (insert cmp v t) ≡ insert_list cmp v (inorder t))
        × Sorted cmp (inorder (insert cmp v t))
  insert-Sorted t s =
      (insert-inorder t s, rw (insert-inorder t s) (insert_list-Sorted (inorder t) s))
