-- ===== src/Services/SplayTree/Find.antt =====
-- `find` of src/services/alloc/SplayTree.hpp, and the removal of what it finds.
use caliper_msg_pattern.Prelude.{
  ◌≡◌, ◌≢◌, refl, sym, ◌∙◌, ◌⊎◌, inl, inr, none, some, List, [], ◌∷◌, ◌++◌, All, append_assoc,
  append-nil,
}
use caliper_msg_pattern.Prelude.Int.{ℤ}
use caliper_msg_pattern.Services.SplayTree.{
  left_hand, right_hand, below, above, same, way, Tree, leaf, branch, Frame, Focus, find_node,
  remove,
}
use caliper_msg_pattern.Services.SplayTree.Order.{
  inorder, inorder_focus, All-map, All-append_left, All-middle,
}
use caliper_msg_pattern.Services.SplayTree.Insert.{Way-cases}
use caliper_msg_pattern.Services.SplayTree.Remove.{before, after, remove-inorder}

All-join {ℓ} :
    {A : Type ℓ} (P : A → Type 0) (xs : List A) (x : A) (ys : List A)
    → All P xs
    → P x
    → All P ys
    → All P (xs ++ (x ∷ ys))
All-join P [] x ys hx h hy = (h, hy)
All-join P (z ∷ xs) x ys (k, hx) h hy = (k, All-join P xs x ys hx h hy)

module _ {ℓ} {A : Type ℓ} (p : A → ℤ) where
  -- A predicate that fits the order: behind a value that is too large all are too large, and in
  -- front of one that is too small all are too small.
  abbrev pub Fits : List A → Type 0
  Fits [] = Unit
  Fits (x ∷ xs) =
      All (λ y. (way (p x) ≡ below → way (p y) ≡ below) × (way (p y) ≡ above → way (p x) ≡ above))
        xs
      × Fits xs

  -- What a search in a tree under frames ends with.
  abbrev Searched : Tree A → List (Frame A) → Type ℓ
  Searched t up =
      ((find_node p t up ≡ none) × All (λ y. way (p y) ≢ same) (inorder t))
      ⊎ ((down : List (Frame A)) × (z : Focus A) × (find_node p t up ≡ some (down, z))
          × (way (p z.val) ≡ same)
          × (before down ++ (inorder_focus z ++ after down) ≡ before up ++ (inorder t ++ after up)))

  module _ (l : Tree A) (x : A) (r : Tree A) (up : List (Frame A)) where
    find-below :
        way (p x) ≡ below
        → find_node p (branch l x r) up
          ≡ find_node p l (record { hand = left_hand; val = x; other = r } ∷ up)
    unfolding find_node
    find-below h = rw (h, find_node) refl

    find-above :
        way (p x) ≡ above
        → find_node p (branch l x r) up
          ≡ find_node p r (record { hand = right_hand; val = x; other = l } ∷ up)
    unfolding find_node
    find-above h = rw (h, find_node) refl

    find-same :
        way (p x) ≡ same
        → find_node p (branch l x r) up ≡ some (up, record { left = l; val = x; right = r })
    unfolding find_node
    find-same h = rw (h, find_node) refl

    Searched-left :
        way (p x) ≡ below
        → All (λ y. way (p y) ≢ same) (inorder r)
        → Searched l (record { hand = left_hand; val = x; other = r } ∷ up)
        → Searched (branch l x r) up
    Searched-left b none_right (inl (e, all)) = inl (
      find-below b ∙ e,
      All-join _ (inorder l) x (inorder r) all (λ s. absurd (cc (b, s))) none_right,
    )
    Searched-left b none_right (inr (down, z, e, s, same_list)) =
        inr (down, z, find-below b ∙ e, s, same_list ∙ simp (append-nil, append_assoc))

    Searched-right :
        way (p x) ≡ above
        → All (λ y. way (p y) ≢ same) (inorder l)
        → Searched r (record { hand = right_hand; val = x; other = l } ∷ up)
        → Searched (branch l x r) up
    Searched-right a none_left (inl (e, all)) = inl (
      find-above a ∙ e,
      All-join _ (inorder l) x (inorder r) none_left (λ s. absurd (cc (a, s))) all,
    )
    Searched-right a none_left (inr (down, z, e, s, same_list)) =
        inr (down, z, find-above a ∙ e, s, same_list ∙ simp append_assoc)

  Fits-left : (xs ys : List A) → Fits (xs ++ ys) → Fits xs
  Fits-left [] ys f = tt
  Fits-left (x ∷ xs) ys (h, f) = (All-append_left _ xs ys h, Fits-left xs ys f)

  Fits-right : (xs ys : List A) → Fits (xs ++ ys) → Fits ys
  Fits-right [] ys f = f
  Fits-right (x ∷ xs) ys (h, f) = Fits-right xs ys f

  -- In front of a value that is too small.
  small :
      (xs : List A) (x : A) (ys : List A)
      → way (p x) ≡ above
      → Fits (xs ++ (x ∷ ys))
      → All (λ y. way (p y) ≢ same) xs
  small [] x ys a f = tt
  small (y ∷ xs) x ys a (h, f) =
      (λ s. absurd (cc ((All-middle _ xs x ys h).1 a, s)), small xs x ys a f)

  search : (t : Tree A) (up : List (Frame A)) → Fits (inorder t) → Searched t up
  unfolding find_node
  search leaf up f = inl (refl, tt)
  search (branch l x r) up f = elim (Way-cases (way (p x))) [
    | inl b ↦
        Searched-left l x r up b
          (All-map (inorder r) (λ y k. λ s. absurd (cc (k.0 b, s)))
            (Fits-right (inorder l) (x ∷ inorder r) f).0)
          (search l _ (Fits-left (inorder l) (x ∷ inorder r) f))
    | inr (inl a) ↦
        Searched-right l x r up a (small (inorder l) x (inorder r) a f)
          (search r _ (Fits-right (inorder l) (x ∷ inorder r) f).1)
    | inr (inr e) ↦ inr (up, _, find-same l x r up e, e, refl)
  ]

  -- On a tree whose values fit the predicate, `find` ends: either no value matches, or it returns a
  -- node whose value matches, and `remove` on that node takes this one value out of the sequence of
  -- the tree's values.
  pub find-remove :
      (t : Tree A)
      → Fits (inorder t)
      → ((find_node p t [] ≡ none) × All (λ y. way (p y) ≢ same) (inorder t))
        ⊎ ((up : List (Frame A)) × (z : Focus A) × (front : List A) × (back : List A) × (find_node p
                t []
              ≡ some (up, z))
            × (way (p z.val) ≡ same)
            × (inorder t ≡ front ++ (z.val ∷ back))
            × (inorder (remove up z) ≡ front ++ back))
  find-remove t f = elim (search t [] f) [
    | inl h ↦ inl h
    | inr (up, z, e, s, list) ↦ inr (
      up,
      z,
      before up ++ inorder z.left,
      inorder z.right ++ after up,
      e,
      s,
      sym (append-nil (inorder t)) ∙ sym list ∙ simp append_assoc,
      remove-inorder up z,
    )
  ]
