-- ===== src/Services/SplayTree.antt =====
-- src/services/alloc/SplayTree.hpp. A pointer to a node of a tree is the node's value and subtrees
-- with the frames of its ancestors, from the parent up: a frame is the node's handedness, the
-- parent's value and the parent's other subtree. The pointers of a parent to the node, which the
-- rotations leave behind for a while, are not read before they are set, and stand for the hole.
pub mod Order
pub mod Insert
pub mod Remove
pub mod Find
mod Tests
use caliper_msg_pattern.Prelude.{ℕ, ◌==◌, Option, none, some, List, [], ◌∷◌, if◌then◌else◌}
use caliper_msg_pattern.Prelude.Int.{ℤ, pos, negsuc}

-- `HAND`, without `NA`, the handedness of the root.
pub data Hand : Type 0 where
  left_hand : Hand
  right_hand : Hand

-- The branches on a comparison: less than, greater than, and equal to zero.
pub data Way : Type 0 where
  below : Way
  above : Way
  same : Way

abbrev pub way : ℤ → Way
way (negsuc n) = below
way (pos n) = if n == 0 then same else above

pub data Tree {ℓ} (A : Type ℓ) : Type ℓ where
  leaf : Tree A
  branch : Tree A → A → Tree A → Tree A

pub record Frame {ℓ} (A : Type ℓ) : Type ℓ where
  pub hand : Hand
  pub val : A
  pub other : Tree A

-- A node under its frames.
pub record Focus {ℓ} (A : Type ℓ) : Type ℓ where
  pub left : Tree A
  pub val : A
  pub right : Tree A

module _ {ℓ} {A : Type ℓ} where
  abbrev pub root_of : Focus A → Tree A
  root_of z = branch z.left z.val z.right

  -- The rotations of a node that is a right or a left child, over its parent.
  unfoldable pub rotate_left : Frame A → Focus A → Focus A
  rotate_left f z = record { left = branch f.other f.val z.left; val = z.val; right = z.right }

  unfoldable pub rotate_right : Frame A → Focus A → Focus A
  rotate_right f z = record { left = z.left; val = z.val; right = branch z.right f.val f.other }

  abbrev pub zig : Hand → Frame A → Focus A → Focus A
  zig right_hand f z = rotate_left f z
  zig left_hand f z = rotate_right f z

  -- The cases with a grandparent, by the handedness of the node and of its parent.
  abbrev pub zig_zag : Hand → Hand → Frame A → Frame A → Focus A → Focus A
  zig_zag right_hand right_hand f g z = rotate_left g (rotate_left f z)
  zig_zag left_hand left_hand f g z = rotate_right g (rotate_right f z)
  zig_zag right_hand left_hand f g z = rotate_right g (rotate_left f z)
  zig_zag left_hand right_hand f g z = rotate_left g (rotate_right f z)

  -- `splay`: the tree with the node as its root.
  unfoldable pub splay : List (Frame A) → Focus A → Tree A
  unfolding rotate_left rotate_right
  splay [] z = root_of z
  splay (f ∷ []) z = root_of (zig f.hand f z)
  splay (f ∷ g ∷ up) z = splay up (zig_zag f.hand g.hand f g z)

  -- `STNode::insert`, from the frames of the node that it is called on. A missing child is where
  -- the new node goes.
  unfoldable pub insert_node : (A → A → ℤ) → A → Tree A → List (Frame A) → List (Frame A) × Focus A
  insert_node cmp v leaf up = (up, record { left = leaf; val = v; right = leaf })
  insert_node cmp v (branch l x r) up = elim (way (cmp v x)) [
    | below ↦ insert_node cmp v l (record { hand = left_hand; val = x; other = r } ∷ up)
    | above ↦ insert_node cmp v r (record { hand = right_hand; val = x; other = l } ∷ up)
    | same ↦ (up, record { left = l; val = v; right = r })
  ]

  -- `SplayTree::insert`
  unfoldable pub insert : (A → A → ℤ) → A → Tree A → Tree A
  unfolding insert_node splay
  insert cmp v t = let (up, z) = insert_node cmp v t [] in splay up z

  -- `STNode::find`
  unfoldable pub find_node : (A → ℤ) → Tree A → List (Frame A) → Option (List (Frame A) × Focus A)
  find_node p leaf up = none
  find_node p (branch l x r) up = elim (way (p x)) [
    | below ↦ find_node p l (record { hand = left_hand; val = x; other = r } ∷ up)
    | above ↦ find_node p r (record { hand = right_hand; val = x; other = l } ∷ up)
    | same ↦ some (up, record { left = l; val = x; right = r })
  ]

  -- `STNode::findMax`, of a node by its subtrees.
  unfoldable pub find_max : Tree A → A → Tree A → List (Frame A) → List (Frame A) × Focus A
  find_max l x leaf up = (up, record { left = l; val = x; right = leaf })
  find_max l x (branch l₂ y r) up =
      find_max l₂ y r (record { hand = right_hand; val = x; other = l } ∷ up)

  -- `m_root->right = node->right`
  abbrev pub set_right : Tree A → Tree A → Tree A
  set_right leaf r = leaf
  set_right (branch l x r₂) r = branch l x r

  abbrev pub join : Tree A → Tree A → Tree A
  join leaf r = r
  join (branch l x r₂) r = let (up, z) = find_max l x r₂ [] in set_right (splay up z) r

  abbrev pub remove_root : Tree A → Tree A
  remove_root leaf = leaf
  remove_root (branch l x r) = join l r

  -- `SplayTree::remove`
  unfoldable pub remove : List (Frame A) → Focus A → Tree A
  unfolding splay find_max
  remove up z = remove_root (splay up z)
