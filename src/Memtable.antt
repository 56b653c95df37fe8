-- ===== src/Memtable.antt =====
-- lib/memtable/memtable.hpp and memtable.cpp: an in-memory table of entries over a search tree,
-- behind a readers-writer lock. Calls are atomic: the lock is free when a call begins, and what is
-- modelled of it is what one call does to it.
pub mod Laws
pub mod Deletion
mod Runs
use enigma_db.Base.{
  ℕ, zero, suc, ◌+◌, Bool, true, false, Option, none, some, List, [], length, if◌then◌else◌,
}
use enigma_db.Ordered.{Ordered}
use enigma_db.Avl
use enigma_db.Avl.{AvlTree}
use enigma_db.Entry.{Entry, make_entry, entry_ordered}
use enigma_db.Outcome.{Outcome, returned, thrown, crashed, Method, ◌>>=◌, finally}

-- The state of a `std::shared_mutex`.
pub data Lock : Type 0 where
  unlocked : Lock
  shared_by : ℕ → Lock
  exclusive : Lock

pub record MemTable (K F : Type 0) : Type 0 where
  pub table_name : List ℕ
  pub tree : AvlTree (Entry K F)
  pub rw_mutex : Lock
  pub frozen : Bool

module _ {K F : Type 0} where
  pub new : List ℕ → MemTable K F
  new name = record { table_name = name; tree = Avl.new; rw_mutex = unlocked; frozen = false }

  abbrev with_lock : Lock → MemTable K F → MemTable K F
  with_lock l m = record m { rw_mutex = l }

  -- `std::unique_lock lock(this->rwMutex_);` and the block behind it. A lock that is not free is held
  -- by the call itself, and to take it again is undefined: `crashed`.
  unfoldable pub unique_lock : {A : Type 0} → Method (MemTable K F) A → Method (MemTable K F) A
  unique_lock body m = elim m.rw_mutex [
    | unlocked ↦ finally (with_lock unlocked) (body (with_lock exclusive m))
    | _ ↦ crashed
  ]

  -- `std::shared_lock lock(this->rwMutex_);` and the block behind it, undefined in a call that holds
  -- the lock exclusively.
  unfoldable pub shared_lock : {A : Type 0} → Method (MemTable K F) A → Method (MemTable K F) A
  shared_lock body m = elim m.rw_mutex [
    | unlocked ↦ finally (with_lock unlocked) (body (with_lock (shared_by 1) m))
    | shared_by n ↦ finally (with_lock (shared_by n)) (body (with_lock (shared_by (n + 1)) m))
    | exclusive ↦ crashed
  ]

  pub freeze : Method (MemTable K F) (Unit {0})
  freeze = unique_lock (λ m. returned tt (record m { frozen = true }))

  pub is_frozen : MemTable K F → Bool
  is_frozen m = m.frozen

  -- `this->tree_->toSortedVector()`
  abbrev sorted_vector : Method (MemTable K F) (List (Entry K F))
  sorted_vector m = elim (Avl.to_sorted_vector m.tree) [ none ↦ thrown m | some es ↦ returned es m ]

  pub ordered_entries : Method (MemTable K F) (List (Entry K F))
  ordered_entries = shared_lock sorted_vector

  unfoldable pub size : Method (MemTable K F) ℕ
  size = shared_lock (sorted_vector >>= λ es. returned (length es))

module _ {K F : Type 0} ⦃o : Ordered K⦄ where
  -- `this->tree_->insert(entry)`
  abbrev tree_insert : Entry K F → Method (MemTable K F) (Unit {0})
  tree_insert e m = elim (Avl.insert m.tree e) [
    | none ↦ crashed
    | some t ↦ returned tt (record m { tree = t })
  ]

  pub put : Entry K F → Method (MemTable K F) (Unit {0})
  put e = unique_lock (λ m. if m.frozen then thrown m else tree_insert e m)

  unfoldable pub apply_entry : Entry K F → Method (MemTable K F) (Unit {0})
  apply_entry e = unique_lock (λ m. if m.frozen then thrown m else tree_insert e m)

  -- `millis` is the wall clock when the dummy entry is made.
  pub get : ℕ → K → Method (MemTable K F) (Option (Entry K F))
  get millis key = shared_lock λ m.
      let dummy = make_entry millis m.table_name key [] false 0 in
      returned (Avl.search m.tree dummy) m

  pub del : ℕ → K → ℕ → Method (MemTable K F) (Unit {0})
  del millis key timestamp = unique_lock λ m.
      if m.frozen
      then thrown m
      else (get millis key >>= λ found. elim found [
        | none ↦ returned tt
        | some _ ↦ λ m'. tree_insert (make_entry millis m'.table_name key [] true timestamp) m'
      ])
          m
