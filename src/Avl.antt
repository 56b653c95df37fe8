-- ===== src/Avl.antt =====
-- lib/abstract/avl.hpp: `Node<T>` and `AVLTree<T>`. A `unique_ptr` to a node is a tree, and moves
-- and in-place updates of the owned nodes leave no trace but the new tree. `none` stands for a null
-- pointer that is dereferenced, or for an exception.
pub mod Contents
pub mod Balance
pub mod Insert
pub mod Remove
pub mod Size
pub mod Height
pub mod Laws
pub mod Reference
pub mod Printing
mod Runs
use enigma_db.Base.{
  ℕ, zero, suc, ◌+◌, Bool, true, false, not, ◌&&◌, Option, none, some, List, [], ◌∷◌, ◌++◌, max,
  if◌then◌else◌,
}
use enigma_db.Base.Int.{
  ℤ, pos, negsuc, inc, dec, sub_ℕ, above_one, below_minus_one, is_negative, is_positive, is_nonzero,
}
use enigma_db.Ordered.{Ordered}

infixl 5 ◌>>=◌
abbrev pub ◌>>=◌ {ℓ κ} : {A : Type ℓ} {B : Type κ} → Option A → (A → Option B) → Option B
none >>= f = none
some a >>= f = f a

-- `a && b`, where reading `b` may fault.
abbrev pub and_then : Bool → Option Bool → Option Bool
and_then true b = b
and_then false b = some false

-- A node holds its key, its cached height and its children.
pub data Tree {ℓ} (T : Type ℓ) : Type ℓ where
  null : Tree T
  node : T → ℕ → Tree T → Tree T → Tree T

module _ {ℓ} {T : Type ℓ} where
  -- `Node::getHeight`
  abbrev pub get_height : Tree T → ℕ
  get_height null = 0
  get_height (node k h l r) = h

  -- `Node::getBalance`
  abbrev pub get_balance : Tree T → ℤ
  get_balance null = pos 0
  get_balance (node k h l r) = sub_ℕ (get_height l) (get_height r)

  -- `node->key`
  abbrev pub get_key : Tree T → Option T
  get_key null = none
  get_key (node k h l r) = some k

  abbrev pub is_null : Tree T → Bool
  is_null null = true
  is_null (node k h l r) = false

  -- `root->height = 1 + std::max(...)`
  abbrev pub with_height : T → Tree T → Tree T → Tree T
  with_height k l r = node k (1 + max (get_height l) (get_height r)) l r

  pub rotate_left : Tree T → Option (Tree T)
  rotate_left null = none
  rotate_left (node k h l null) = none
  rotate_left (node k h l (node rk rh rl rr)) = some (with_height rk (with_height k l rl) rr)

  pub rotate_right : Tree T → Option (Tree T)
  rotate_right null = none
  rotate_right (node k h null r) = none
  rotate_right (node k h (node lk lh ll lr) r) = some (with_height lk ll (with_height k lr r))

  -- `rotateLeft(root->left); rotateRight(root);`
  pub rotate_left_right : T → ℕ → Tree T → Tree T → Option (Tree T)
  rotate_left_right k h l r = do l' ← rotate_left l; rotate_right (node k h l' r)

  -- `rotateRight(root->right); rotateLeft(root);`
  pub rotate_right_left : T → ℕ → Tree T → Tree T → Option (Tree T)
  rotate_right_left k h l r = do r' ← rotate_right r; rotate_left (node k h l r')

  -- The keys in order, as `inOrderIntoVector` pushes them onto a vector.
  unfoldable pub in_order_into_vector : Tree T → List T → List T
  in_order_into_vector null v = v
  in_order_into_vector (node k h l r) v =
      in_order_into_vector r (in_order_into_vector l v ++ (k ∷ []))

  pub find_left_most : Tree T → Option (Tree T)
  find_left_most null = none
  find_left_most (node k h null r) = some (node k h null r)
  find_left_most (node k h (node lk lh ll lr) r) = find_left_most (node lk lh ll lr)

  pub find_right_most : Tree T → Option (Tree T)
  find_right_most null = none
  find_right_most (node k h l null) = some (node k h l null)
  find_right_most (node k h l (node rk rh rl rr)) = find_right_most (node rk rh rl rr)

  -- The end of `remove`, from "Update the height" on.
  pub rebalance_after_remove : Tree T → Option (Tree T)
  rebalance_after_remove null = some null
  rebalance_after_remove (node k h₀ l r) =
      let root = with_height k l r in
      let h = get_height root in
      let balance = get_balance root in
      if is_nonzero balance
      then if above_one balance && not (is_negative (get_balance l))
        then rotate_right root
        else if above_one balance && is_negative (get_balance l)
        then rotate_left_right k h l r
        else if below_minus_one balance && not (is_positive (get_balance r))
        then rotate_left root
        else if below_minus_one balance && is_positive (get_balance r)
        then rotate_right_left k h l r
        else some root
      else some root

module _ {ℓ} {T : Type ℓ} ⦃o : Ordered T⦄ where
  -- The end of `insert`, from the update of the height on.
  unfoldable pub rebalance_after_insert : T → T → Tree T → Tree T → Option (Tree T)
  rebalance_after_insert key k l r =
      let root = with_height k l r in
      let h = get_height root in
      let balance = get_balance root in
      if is_nonzero balance
      then (do
        ll ← and_then (above_one balance) (get_key l >>= λ lk. some (o.less key lk))
        rr ← and_then (not ll && below_minus_one balance) (get_key r >>= λ rk. some (o.less rk key))
        lr ←
            and_then (not ll && not rr && above_one balance)
              (get_key l >>= λ lk. some (o.less lk key))
        rl ←
            and_then (not ll && not rr && not lr && below_minus_one balance)
              (get_key r >>= λ rk. some (o.less key rk))
        if ll
            then rotate_right root
            else if rr
            then rotate_left root
            else if lr
            then rotate_left_right k h l r
            else if rl
            then rotate_right_left k h l r
            else some root)
      else some root

  -- `insert(root, key)`, with `size_` passed through.
  unfoldable pub insert_node : Tree T → T → ℤ → Option (Tree T × ℤ)
  insert_node null key size = some (node key 1 null null, inc size)
  insert_node (node k h l r) key size = elim (o.equal k key) [
    | true ↦ some (node key h l r, size)
    | false ↦ elim (o.less k key) [
      | true ↦ do
        (r', size') ← insert_node r key size
        root ← rebalance_after_insert key k l r'
        some (root, size')
      | false ↦ do
        (l', size') ← insert_node l key size
        root ← rebalance_after_insert key k l' r
        some (root, size')
    ]
  ]

  -- `remove(root, key)`. The reference `successor->key` that the inner call is given is read only
  -- until the node that holds it is found, so the key is passed by value here.
  pub remove_node : Tree T → T → ℤ → Option (Tree T × ℤ)
  remove_node null key size = some (null, size)
  remove_node (node k h l r) key size = elim (o.less k key) [
    | true ↦ do
      (r', size') ← remove_node r key size
      root ← rebalance_after_remove (node k h l r')
      some (root, size')
    | false ↦ elim (o.less key k) [
      | true ↦ do
        (l', size') ← remove_node l key size
        root ← rebalance_after_remove (node k h l' r)
        some (root, size')
      | false ↦ elim (is_null r) [
        | true ↦ do root ← rebalance_after_remove l; some (root, dec size)
        | false ↦ elim (is_null l) [
          | true ↦ do root ← rebalance_after_remove r; some (root, dec size)
          | false ↦ do
            successor ← find_left_most r
            least ← get_key successor
            (r', size') ← remove_node r least size
            root ← rebalance_after_remove (node least h l r')
            some (root, dec size')
        ]
      ]
    ]
  ]

  -- `search(root, key)`: the node found, or the null pointer.
  pub search_node : Tree T → T → Tree T
  search_node null key = null
  search_node (node k h l r) key = elim (o.equal k key) [
    | true ↦ node k h l r
    | false ↦ elim (o.less key k) [ true ↦ search_node l key | false ↦ search_node r key ]
  ]

-- `AVLTree<T>`: `_root` and `size_`.
pub record AvlTree {ℓ} (T : Type ℓ) : Type ℓ where
  pub root : Tree T
  pub size : ℤ

module _ {ℓ} {T : Type ℓ} where
  unfoldable pub new : AvlTree T
  new = record { root = null; size = pos 0 }

  -- `size_` keeps its value.
  pub clear : AvlTree T → AvlTree T
  clear t = record t { root = null }

  -- `data.reserve(size_)` throws `std::length_error` when a negative `int` becomes a `size_t`.
  unfoldable pub to_sorted_vector : AvlTree T → Option (List T)
  to_sorted_vector t = if is_negative t.size then none else some (in_order_into_vector t.root [])

module _ {ℓ} {T : Type ℓ} ⦃o : Ordered T⦄ where
  unfoldable pub insert : AvlTree T → T → Option (AvlTree T)
  insert t key = do (r, n) ← insert_node t.root key t.size; some (record { root = r; size = n })

  pub remove : AvlTree T → T → Option (AvlTree T)
  remove t key = do (r, n) ← remove_node t.root key t.size; some (record { root = r; size = n })

  -- The pointer that `search` returns, read by its key.
  pub search : AvlTree T → T → Option T
  search t key = get_key (search_node t.root key)
