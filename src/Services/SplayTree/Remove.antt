-- ===== src/Services/SplayTree/Remove.antt =====
-- `remove` of src/services/alloc/SplayTree.hpp.
use caliper_msg_pattern.Prelude.{
  ◌≡◌, refl, sym, ap, ◌∙◌, List, [], ◌∷◌, ◌++◌, append_assoc, append-nil,
}
use mathlib.Core.Path.{subst}
use caliper_msg_pattern.Services.SplayTree.{
  Hand, left_hand, right_hand, Tree, leaf, branch, Frame, Focus, rotate_left, rotate_right, zig,
  splay, find_max, set_right, join, remove,
}
use caliper_msg_pattern.Services.SplayTree.Order.{inorder, inorder_focus, zig_zag-zig, zig-val}

module _ {ℓ} {A : Type ℓ} where
  -- The values in front of and behind the subtree of a frame, and of all frames.
  abbrev pub front_hand : Hand → Tree A → A → List A
  front_hand right_hand l x = inorder l ++ (x ∷ [])
  front_hand left_hand l x = []

  abbrev pub back_hand : Hand → Tree A → A → List A
  back_hand right_hand l x = []
  back_hand left_hand l x = x ∷ inorder l

  abbrev pub before : List (Frame A) → List A
  before [] = []
  before (f ∷ up) = before up ++ front_hand f.hand f.other f.val

  abbrev pub after : List (Frame A) → List A
  after [] = []
  after (f ∷ up) = back_hand f.hand f.other f.val ++ after up

  zig-left :
      (h : Hand) (f : Frame A) (z : Focus A)
      → inorder (zig h f z).left ≡ front_hand h f.other f.val ++ inorder z.left
  unfolding rotate_left rotate_right
  zig-left right_hand f z = sym (append_assoc (inorder f.other) (f.val ∷ []) (inorder z.left))
  zig-left left_hand f z = refl

  zig-right :
      (h : Hand) (f : Frame A) (z : Focus A)
      → inorder (zig h f z).right ≡ inorder z.right ++ back_hand h f.other f.val
  unfolding rotate_left rotate_right
  zig-right right_hand f z = sym (append-nil (inorder z.right))
  zig-right left_hand f z = refl

  -- The subtrees of a tree with the node's value at its root hold the values in front of and
  -- behind it.
  abbrev Parts : List (Frame A) → Focus A → Tree A → Type ℓ
  Parts up z t =
      (l : Tree A) × (r : Tree A) × (t ≡ branch l z.val r)
      × (inorder l ≡ before up ++ inorder z.left)
      × (inorder r ≡ inorder z.right ++ after up)

  rotated :
      (f : Frame A) (up : List (Frame A)) (z : Focus A) (t : Tree A)
      → Parts up (zig f.hand f z) t
      → Parts (f ∷ up) z t
  rotated f up z t (l, r, e, hl, hr) = (
    l,
    r,
    e ∙ ap (λ x. branch l x r) (zig-val f.hand f z),
    hl
        ∙ ap (λ t. before up ++ t) (zig-left f.hand f z)
        ∙ sym (append_assoc (before up) (front_hand f.hand f.other f.val) (inorder z.left)),
    hr
        ∙ ap (λ t. t ++ after up) (zig-right f.hand f z)
        ∙ append_assoc (inorder z.right) (back_hand f.hand f.other f.val) (after up),
  )

  splay-Parts : (up : List (Frame A)) (z : Focus A) → Parts up z (splay up z)
  unfolding splay
  splay-Parts [] z = (z.left, z.right, refl, refl, sym (append-nil (inorder z.right)))
  splay-Parts (f ∷ []) z =
      let y = zig f.hand f z in
      rotated f [] z (splay (f ∷ []) z)
        (y.left, y.right, refl, refl, sym (append-nil (inorder y.right)))
  splay-Parts (f ∷ g ∷ up) z =
      let y = zig g.hand g (zig f.hand f z) in
      rotated f (g ∷ up) z (splay (f ∷ g ∷ up) z) (
        rotated g up (zig f.hand f z) (splay (f ∷ g ∷ up) z) (
          subst (λ x. Parts up y (splay up x)) (sym (zig_zag-zig f.hand g.hand f g z))
            (splay-Parts up y)))

  -- The largest node has nothing behind it.
  find_max-last :
      (l : Tree A) (x : A) (r : Tree A) (up : List (Frame A))
      → (inorder (find_max l x r up).1.right ≡ [])
        × (after (find_max l x r up).0 ≡ after up)
        × (before (find_max l x r up).0 ++ inorder_focus (find_max l x r up).1
            ≡ before up ++ inorder (branch l x r))
  unfolding find_max
  find_max-last l x leaf up = (refl, refl, refl)
  find_max-last l x (branch l₂ y r) up =
      let (e, a, b) =
        find_max-last l₂ y r (record { hand = right_hand; val = x; other = l } ∷ up) in
      (
        e,
        a,
        b
            ∙ append_assoc (before up) (inorder l ++ (x ∷ [])) _
            ∙ ap (λ t. before up ++ t) (append_assoc (inorder l) (x ∷ []) _),
      )

  join-inorder : (l r : Tree A) → inorder (join l r) ≡ inorder l ++ inorder r
  join-inorder leaf r = refl
  join-inorder (branch l x r₂) r =
      let (up, z) = find_max l x r₂ [] in
      let (e, a, b) = find_max-last l x r₂ [] in
      let (ml, mr, s, hl, hr) = splay-Parts up z in
      ap (λ t. inorder (set_right t r)) s
      ∙ sym (append_assoc (inorder ml) (z.val ∷ []) (inorder r))
      ∙ ap (λ t. t ++ inorder r)
          (ap (λ t. t ++ (z.val ∷ [])) hl
            ∙ append_assoc (before up) (inorder z.left) (z.val ∷ [])
            ∙ ap (λ t. before up ++ (inorder z.left ++ (z.val ∷ t))) (sym e)
            ∙ b)

  -- Removing a node leaves the values in front of it and those behind it.
  pub remove-inorder :
      (up : List (Frame A)) (z : Focus A)
      → inorder (remove up z) ≡ (before up ++ inorder z.left) ++ (inorder z.right ++ after up)
  unfolding remove
  remove-inorder up z =
      let (l, r, s, hl, hr) = splay-Parts up z in rw s (join-inorder l r ∙ rw hl (rw hr refl))
