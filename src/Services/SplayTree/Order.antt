-- ===== src/Services/SplayTree/Order.antt =====
-- src/services/alloc/SplayTree.hpp: a tree as the sequence of its values, and splaying.
use caliper_msg_pattern.Prelude.{◌≡◌, refl, sym, ap, ◌∙◌, List, [], ◌∷◌, ◌++◌, All, append_assoc}
use caliper_msg_pattern.Prelude.Int.{ℤ}
use caliper_msg_pattern.Services.SplayTree.{
  Hand, left_hand, right_hand, below, above, same, way, Tree, leaf, branch, Frame, Focus,
  rotate_left, rotate_right, zig, zig_zag, splay,
}

-- The values in order.
abbrev pub inorder {ℓ} : {A : Type ℓ} → Tree A → List A
inorder leaf = []
inorder (branch l x r) = inorder l ++ (x ∷ inorder r)

module _ {ℓ} {A : Type ℓ} where
  -- The sequence of a subtree within the tree of the frames above it.
  abbrev pub around_hand : Hand → Tree A → A → List A → List A
  around_hand right_hand l x xs = inorder l ++ (x ∷ xs)
  around_hand left_hand r x xs = xs ++ (x ∷ inorder r)

  abbrev pub around : List (Frame A) → List A → List A
  around [] xs = xs
  around (f ∷ up) xs = around up (around_hand f.hand f.other f.val xs)

  abbrev pub inorder_focus : Focus A → List A
  inorder_focus z = inorder z.left ++ (z.val ∷ inorder z.right)

  rotate_left-inorder :
      (f : Frame A) (z : Focus A)
      → inorder_focus (rotate_left f z) ≡ inorder f.other ++ (f.val ∷ inorder_focus z)
  unfolding rotate_left
  rotate_left-inorder f z = append_assoc (inorder f.other) (f.val ∷ inorder z.left) _

  rotate_right-inorder :
      (f : Frame A) (z : Focus A)
      → inorder_focus (rotate_right f z) ≡ inorder_focus z ++ (f.val ∷ inorder f.other)
  unfolding rotate_right
  rotate_right-inorder f z = sym (append_assoc (inorder z.left) (z.val ∷ inorder z.right) _)

  zig-inorder :
      (h : Hand) (f : Frame A) (z : Focus A)
      → inorder_focus (zig h f z) ≡ around_hand h f.other f.val (inorder_focus z)
  zig-inorder right_hand f z = rotate_left-inorder f z
  zig-inorder left_hand f z = rotate_right-inorder f z

  pub zig_zag-zig :
      (h k : Hand) (f g : Frame A) (z : Focus A) → zig_zag h k f g z ≡ zig k g (zig h f z)
  zig_zag-zig right_hand right_hand f g z = refl
  zig_zag-zig left_hand left_hand f g z = refl
  zig_zag-zig right_hand left_hand f g z = refl
  zig_zag-zig left_hand right_hand f g z = refl

  zig_zag-inorder :
      (f g : Frame A) (z : Focus A)
      → inorder_focus (zig_zag f.hand g.hand f g z)
        ≡ around_hand g.hand g.other g.val (around_hand f.hand f.other f.val (inorder_focus z))
  zig_zag-inorder f g z =
      ap inorder_focus (zig_zag-zig f.hand g.hand f g z)
      ∙ zig-inorder g.hand g (zig f.hand f z)
      ∙ ap (around_hand g.hand g.other g.val) (zig-inorder f.hand f z)

  -- Splaying a node keeps the sequence of the tree's values.
  pub splay-inorder :
      (up : List (Frame A)) (z : Focus A) → inorder (splay up z) ≡ around up (inorder_focus z)
  unfolding splay
  splay-inorder [] z = refl
  splay-inorder (f ∷ []) z = zig-inorder f.hand f z
  splay-inorder (f ∷ g ∷ up) z =
      splay-inorder up (zig_zag f.hand g.hand f g z) ∙ ap (around up) (zig_zag-inorder f g z)

  pub zig-val : (h : Hand) (f : Frame A) (z : Focus A) → (zig h f z).val ≡ z.val
  unfolding rotate_left rotate_right
  zig-val right_hand f z = refl
  zig-val left_hand f z = refl

  -- The node that is splayed becomes the root.
  pub splay-root :
      (up : List (Frame A)) (z : Focus A)
      → (l : Tree A) × (r : Tree A) × (splay up z ≡ branch l z.val r)
  unfolding splay
  splay-root [] z = (z.left, z.right, refl)
  splay-root (f ∷ []) z =
      ((zig f.hand f z).left, (zig f.hand f z).right, rw (zig-val f.hand f z) refl)
  splay-root (f ∷ g ∷ up) z =
      let (l, r, e) = splay-root up (zig_zag f.hand g.hand f g z) in
      (
        l,
        r,
        e
            ∙ ap (λ x. branch l x r)
                (ap (λ t. t.val) (zig_zag-zig f.hand g.hand f g z)
                  ∙ zig-val g.hand g (zig f.hand f z)
                  ∙ zig-val f.hand f z),
      )

module _ {ℓ} {A : Type ℓ} where
  pub All-map : {P Q : A → Type 0} (xs : List A) (f : (y : A) → P y → Q y) → All P xs → All Q xs
  All-map [] f h = tt
  All-map (x ∷ xs) f (h, hs) = (f x h, All-map xs f hs)

  pub All-append_left : (P : A → Type 0) (xs ys : List A) → All P (xs ++ ys) → All P xs
  All-append_left P [] ys h = tt
  All-append_left P (x ∷ xs) ys (h, hs) = (h, All-append_left P xs ys hs)

  pub All-middle :
      (P : A → Type 0) (xs : List A) (y : A) (ys : List A) → All P (xs ++ (y ∷ ys)) → P y
  All-middle P [] y ys (h, hs) = h
  All-middle P (x ∷ xs) y ys (h, hs) = All-middle P xs y ys hs

-- What insertion asks of a comparison of two values.
pub record IsOrder {ℓ} {A : Type ℓ} (cmp : A → A → ℤ) : Type ℓ where
  pub flip : (x y : A) → way (cmp x y) ≡ below → way (cmp y x) ≡ above
  pub unflip : (x y : A) → way (cmp x y) ≡ above → way (cmp y x) ≡ below
  pub trans : (x y z : A) → way (cmp x y) ≡ below → way (cmp y z) ≡ below → way (cmp x z) ≡ below
  pub same_left : (v x y : A) → way (cmp v x) ≡ same → way (cmp x y) ≡ below → way (cmp v y) ≡ below
  pub same_right :
      (v x y : A) → way (cmp v x) ≡ same → way (cmp y x) ≡ below → way (cmp y v) ≡ below

module _ {ℓ} {A : Type ℓ} (cmp : A → A → ℤ) where
  -- Each value is less than all behind it.
  abbrev pub Sorted : List A → Type 0
  Sorted [] = Unit
  Sorted (x ∷ xs) = All (λ y. way (cmp x y) ≡ below) xs × Sorted xs

  pub Sorted-left : (xs ys : List A) → Sorted (xs ++ ys) → Sorted xs
  Sorted-left [] ys s = tt
  Sorted-left (x ∷ xs) ys (h, s) = (All-append_left _ xs ys h, Sorted-left xs ys s)

  pub Sorted-right : (xs ys : List A) → Sorted (xs ++ ys) → Sorted ys
  Sorted-right [] ys s = s
  Sorted-right (x ∷ xs) ys (h, s) = Sorted-right xs ys s

  -- The values in front of one are less than it.
  pub Sorted-before :
      (xs : List A) (x : A) (ys : List A)
      → Sorted (xs ++ (x ∷ ys))
      → All (λ y. way (cmp y x) ≡ below) xs
  Sorted-before [] x ys s = tt
  Sorted-before (y ∷ xs) x ys (h, s) = (All-middle _ xs x ys h, Sorted-before xs x ys s)
