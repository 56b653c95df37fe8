-- ===== src/Avl/Reference.antt =====
-- lib/abstract/avl.hpp: the private `findNodeRef`. The reference that it returns, to a pointer inside
-- of the tree, is the tree there and what a tree that is put there makes of the whole.
use enigma_db.Base.{ℕ, ◌≡◌, refl, ◌∙◌, sym, ap, true, false, inl, inr, ◌∷◌, ◌++◌, arith, Bool-cases}
use mathlib.Core.Path.{subst}
use enigma_db.Ordered.{Ordered}
use enigma_db.SortedList.{IsSorted, IsSorted-split, upsert, upsert-left, upsert-right, upsert-here}
use enigma_db.Avl.{Tree, null, node, search_node}
use enigma_db.Avl.Contents.{to_list}

abbrev pub Reference {ℓ} : Type ℓ → Type ℓ
Reference T = Tree T × (Tree T → Tree T)

module _ {ℓ} {T : Type ℓ} where
  -- The reference to a pointer in the left or in the right child of a node.
  abbrev in_left : T → ℕ → Tree T → Reference T → Reference T
  in_left k h r (there, put) = (there, λ t. node k h (put t) r)

  abbrev in_right : T → ℕ → Tree T → Reference T → Reference T
  in_right k h l (there, put) = (there, λ t. node k h l (put t))

  -- The node with another key, or a new one.
  abbrev pub with_key : T → Tree T → Tree T
  with_key key null = node key 1 null null
  with_key key (node k h l r) = node key h l r

module _ {ℓ} {T : Type ℓ} ⦃o : Ordered T⦄ where
  unfoldable pub find_node_ref : Tree T → T → Reference T
  find_node_ref null key = (null, λ t. t)
  find_node_ref (node k h l r) key = elim (o.equal k key) [
    | true ↦ (node k h l r, λ t. t)
    | false ↦ elim (o.less key k) [
      | true ↦ in_left k h r (find_node_ref l key)
      | false ↦ in_right k h l (find_node_ref r key)
    ]
  ]

  -- What a reference to the place of a key refers to.
  abbrev pub Refers : Tree T → T → Reference T → Type ℓ
  Refers t key (there, put) =
      (there ≡ search_node t key)
      × (put there ≡ t)
      × (to_list (put (with_key key there)) ≡ upsert key (to_list t))

  -- One step of `search` and one of `findNodeRef`.
  abbrev Steps : Tree T → T → Reference T → Tree T → Type ℓ
  Steps t key ref found = (find_node_ref t key ≡ ref) × (search_node t key ≡ found)

  step_here :
      (k : T) (h : ℕ) (l r : Tree T) (key : T)
      → o.equal k key ≡ true
      → Steps (node k h l r) key (node k h l r, λ t. t) (node k h l r)
  unfolding find_node_ref search_node
  step_here k h l r key same = (ground arith, ground arith)

  step_left :
      (k : T) (h : ℕ) (l r : Tree T) (key : T)
      → o.equal k key ≡ false
      → o.less key k ≡ true
      → Steps (node k h l r) key (in_left k h r (find_node_ref l key)) (search_node l key)
  unfolding find_node_ref search_node
  step_left k h l r key differs less = (ground arith, ground arith)

  step_right :
      (k : T) (h : ℕ) (l r : Tree T) (key : T)
      → o.equal k key ≡ false
      → o.less key k ≡ false
      → Steps (node k h l r) key (in_right k h l (find_node_ref r key)) (search_node r key)
  unfolding find_node_ref search_node
  step_right k h l r key differs less = (ground arith, ground arith)

  left-Refers :
      (k : T) (h : ℕ) (l r : Tree T) (key : T) (ref : Reference T)
      → o.equal k key ≡ false
      → o.less key k ≡ true
      → Refers l key ref
      → Refers (node k h l r) key (in_left k h r ref)
  left-Refers k h l r key (there, put) differs less (found, back, placed) = (
    found ∙ sym ((step_left k h l r key differs less).1),
    ap (λ t. node k h t r) back,
    ap (λ xs. xs ++ (k ∷ to_list r)) placed ∙ sym (upsert-left (to_list l) k key (to_list r) less),
  )

  right-Refers :
      (k : T) (h : ℕ) (l r : Tree T) (key : T) (ref : Reference T)
      → IsSorted (to_list l ++ (k ∷ to_list r))
      → o.equal k key ≡ false
      → o.less key k ≡ false
      → Refers r key ref
      → Refers (node k h l r) key (in_right k h l ref)
  right-Refers k h l r key (there, put) sorted differs less (found, back, placed) =
      let (_, below, _, _) = IsSorted-split (to_list l) k (to_list r) sorted in
      let greater : o.less k key ≡ true = ground (arith, o.equal_lem k key) in
      (
        found ∙ sym ((step_right k h l r key differs less).1),
        ap (λ t. node k h l t) back,
        ap (λ xs. to_list l ++ (k ∷ xs)) placed
            ∙ sym (upsert-right (to_list l) k key (to_list r) below greater),
      )

  -- The reference that `findNodeRef` returns on a search tree is to the pointer that `search` finds;
  -- what is there stays what it is if it is put back, and if its key is replaced by the given one, or
  -- a node with the key is put where there is none, then the tree has the old keys with the given one
  -- in its place.
  pub find_node_ref-upsert :
      (t : Tree T) (key : T) → IsSorted (to_list t) → Refers t key (find_node_ref t key)
  unfolding find_node_ref
  find_node_ref-upsert null key s = (unfold search_node in refl, refl, refl)
  find_node_ref-upsert (node k h l r) key s =
      let (sl, below, _, sr) = IsSorted-split (to_list l) k (to_list r) s in
      elim (Bool-cases (o.equal k key)) [
        | inl same ↦
            let (refers, finds) = step_here k h l r key same in
            subst (Refers (node k h l r) key) (sym refers)
              (sym finds, refl, sym (upsert-here (to_list l) k key (to_list r) below same))
        | inr differs ↦ elim (Bool-cases (o.less key k)) [
          | inl less ↦
              subst (Refers (node k h l r) key) (sym (step_left k h l r key differs less).0) (
                left-Refers k h l r key (find_node_ref l key) differs less
                  (find_node_ref-upsert l key sl))
          | inr greater ↦
              subst (Refers (node k h l r) key) (sym (step_right k h l r key differs greater).0) (
                right-Refers k h l r key (find_node_ref r key) s differs greater
                  (find_node_ref-upsert r key sr))
        ]
      ]
