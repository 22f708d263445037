-- ===== src/Services/SplayTree/Tests.antt =====
-- The splay tree on numbers.
use caliper_msg_pattern.Prelude.{
  ℕ, ◌<◌, ◌≡◌, ◌≢◌, refl, ◌⊎◌, arith, none, some, List, [], ◌∷◌, ◌++◌, All,
}
use caliper_msg_pattern.Prelude.Int.{ℤ, sub_ℕ}
use caliper_msg_pattern.Services.SplayTree.{
  below, above, same, way, Tree, leaf, branch, Frame, Focus, insert, find_node, remove, splay,
  left_hand,
}
use caliper_msg_pattern.Services.SplayTree.Order.{
  inorder, around, inorder_focus, IsOrder, Sorted, splay-inorder,
}
use caliper_msg_pattern.Services.SplayTree.Insert.{insert_list, insert-Sorted}
use caliper_msg_pattern.Services.SplayTree.Find.{find-remove}

abbrev compare_numbers : ℕ → ℕ → ℤ
compare_numbers a b = sub_ℕ a b

below-lt : (a b : ℕ) → way (compare_numbers a b) ≡ below → a < b
below-lt a b h = ground arith

lt-below : (a b : ℕ) → a < b → way (compare_numbers a b) ≡ below
lt-below a b h = ground arith

above-lt : (a b : ℕ) → way (compare_numbers a b) ≡ above → b < a
above-lt a b h = ground arith

lt-above : (a b : ℕ) → b < a → way (compare_numbers a b) ≡ above
lt-above a b h = ground arith

same-eq : (a b : ℕ) → way (compare_numbers a b) ≡ same → a ≡ b
same-eq a b h = ground arith

compare_numbers-IsOrder : IsOrder compare_numbers
compare_numbers-IsOrder = record {
  flip = λ x y h. lt-above y x (below-lt x y h);
  unflip = λ x y h. lt-below y x (above-lt x y h);
  trans = λ x y z h k. lt-below x z (omega (arith, below-lt x y h, below-lt y z k));
  same_left = λ v x y e h. lt-below v y (omega (arith, same-eq v x e, below-lt x y h));
  same_right = λ v x y e h. lt-below y v (omega (arith, same-eq v x e, below-lt y x h));
}

abbrev some_tree : Tree ℕ
some_tree = branch (branch leaf 2 leaf) 5 (branch leaf 9 leaf)

insert-Sorted_example :
    (inorder (insert compare_numbers 7 some_tree)
      ≡ insert_list compare_numbers 7 (inorder some_tree))
    × Sorted compare_numbers (inorder (insert compare_numbers 7 some_tree))
insert-Sorted_example =
    insert-Sorted compare_numbers compare_numbers-IsOrder 7 some_tree
      ((refl, (refl, tt)), ((refl, tt), (tt, tt)))

-- Searching for 9.
abbrev is_nine : ℕ → ℤ
is_nine n = sub_ℕ 9 n

find-remove_example :
    ((find_node is_nine some_tree [] ≡ none)
      × All (λ y. way (is_nine y) ≢ same) (inorder some_tree))
    ⊎ ((up : List (Frame ℕ)) × (z : Focus ℕ) × (front : List ℕ) × (back : List ℕ) × (find_node
            is_nine some_tree []
          ≡ some (up, z))
        × (way (is_nine z.val) ≡ same)
        × (inorder some_tree ≡ front ++ (z.val ∷ back))
        × (inorder (remove up z) ≡ front ++ back))
find-remove_example = find-remove is_nine some_tree (
  ((λ h. absurd (cc h), λ h. refl), ((λ h. absurd (cc h), λ h. absurd (cc h)), tt)),
  (((λ h. absurd (cc h), λ h. absurd (cc h)), tt), (tt, tt)),
)

abbrev five_above : List (Frame ℕ)
five_above = record { hand = left_hand; val = 5; other = leaf } ∷ []

abbrev two : Focus ℕ
two = record { left = leaf; val = 2; right = leaf }

splay-inorder_example : inorder (splay five_above two) ≡ around five_above (inorder_focus two)
splay-inorder_example = splay-inorder five_above two
