-- ===== src/Avl/Height.antt =====
-- The height of the trees that `insert` and `remove` of lib/abstract/avl.hpp build.
use enigma_db.Base.{Option, none, some, List, [], ◌∷◌}
use enigma_db.Ordered.{Ordered}
use enigma_db.SortedList.{upsert, erase}
use enigma_db.Avl.{AvlTree, insert, remove}

-- A sequence of `insert` and `remove` calls.
pub data Change (T : Type 0) : Type 0 where
  inserting removing : T → Change T

module _ {T : Type 0} ⦃o : Ordered T⦄ where
  -- One call after the other; `none` is a null pointer dereferenced on the way.
  abbrev pub run_changes : List (Change T) → AvlTree T → Option (AvlTree T)
  run_changes [] t = some t
  run_changes (inserting key ∷ changes) t = elim (insert t key) [
    | none ↦ none
    | some t' ↦ run_changes changes t'
  ]
  run_changes (removing key ∷ changes) t = elim (remove t key) [
    | none ↦ none
    | some t' ↦ run_changes changes t'
  ]

  -- What the calls do to a sorted list.
  abbrev pub changed : List (Change T) → List T → List T
  changed [] ks = ks
  changed (inserting key ∷ changes) ks = changed changes (upsert key ks)
  changed (removing key ∷ changes) ks = changed changes (erase key ks)
