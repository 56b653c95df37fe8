-- ===== src/Avl/Printing.antt =====
-- lib/abstract/avl.hpp: `inorder`, on the text that it prints. `printTree` calls an overload that the
-- class does not have, and is left out.
use enigma_db.Base.{ℕ, ◌+◌, ◌≡◌, refl, ap, ap₂, Option, none, some, List, [], ◌∷◌, ◌++◌}
use enigma_db.Base.Int.{ℤ, pos, negsuc}
use enigma_db.Base.Decimal.{to_string}
use enigma_db.Avl.{Tree, null, node, get_balance, AvlTree}

-- `operator<<` of an `int`.
abbrev pub int_text : ℤ → List ℕ
int_text (pos n) = to_string n
int_text (negsuc n) = 45 ∷ to_string (n + 1)

module _ {ℓ} {T : Type ℓ} where
  -- What is printed of a node; keys are printed if they are of type `int` or `std::string`.
  abbrev pub print_node : Option (T → List ℕ) → T → ℕ → Tree T → List ℕ
  print_node none k h root = []
  print_node (some print_key) k h root =
      print_key k
      ++ ((40 ∷ 72 ∷ 58 ∷ [])
          ++ (to_string h
              ++ ((44 ∷ 32 ∷ 66 ∷ 58 ∷ []) ++ (int_text (get_balance root) ++ (41 ∷ 32 ∷ [])))))

  unfoldable pub print_nodes : Option (T → List ℕ) → Tree T → List ℕ
  print_nodes print_key null = []
  print_nodes print_key (node k h l r) =
      print_nodes print_key l
      ++ (print_node print_key k h (node k h l r) ++ print_nodes print_key r)

  unfoldable pub inorder : Option (T → List ℕ) → AvlTree T → List ℕ
  inorder print_key t = print_nodes print_key t.root ++ (10 ∷ [])

  print_nodes_silent : (t : Tree T) → print_nodes none t ≡ []
  unfolding print_nodes
  print_nodes_silent null = refl
  print_nodes_silent (node k h l r) =
      ap₂ (λ (xs ys : List ℕ). xs ++ ys) (print_nodes_silent l) (print_nodes_silent r)

  -- Of a tree of other keys `inorder` prints an empty line, whatever is in the tree.
  pub inorder_silent : (t : AvlTree T) → inorder none t ≡ 10 ∷ []
  unfolding inorder
  inorder_silent t = ap (λ xs. xs ++ (10 ∷ [])) (print_nodes_silent t.root)
