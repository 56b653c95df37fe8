-- ===== src/Manager.antt =====
-- lib/memtable/memtable_manager.hpp and .cpp: one active table and a queue of frozen ones, the
-- oldest in front. The queue's mutex is taken and released within each call, and calls are made one
-- after the other, so it is not in the state.
pub mod Rotation
pub mod Laws
pub mod Reached
mod Runs
use mathlib.Core.List.{reverse}
use enigma_db.Base.{ℕ, Bool, Option, none, some, List, [], ◌∷◌, ◌++◌, ltb, if◌then◌else◌}
use enigma_db.Ordered.{Ordered}
use enigma_db.Entry.{Entry}
use enigma_db.Memtable
use enigma_db.Memtable.{MemTable}
use enigma_db.Outcome.{Outcome, returned, thrown, crashed, Method, ◌>>=◌}

-- `static constexpr size_t kMaxEntries`
abbrev pub max_entries : ℕ
max_entries = 5000

-- `active_` is a `shared_ptr`, null until something sets it.
pub record MemTableManager (K F : Type 0) : Type 0 where
  pub table_name : List ℕ
  pub active : Option (MemTable K F)
  pub frozen : List (MemTable K F)

module _ {K F : Type 0} where
  -- The class has no constructor of its own.
  pub new : MemTableManager K F
  new = record { table_name = []; active = none; frozen = [] }

  -- `this->active_->method(...)`
  pub on_active : {A : Type 0} → Method (MemTable K F) A → Method (MemTableManager K F) A
  on_active method s = elim s.active [
    | none ↦ crashed
    | some m ↦ elim (method m) [
      | returned a m' ↦ returned a (record s { active = some m' })
      | thrown m' ↦ thrown (record s { active = some m' })
      | crashed ↦ crashed
    ]
  ]

  -- `frozen_.push_back(active_); active_ = std::make_shared<MemTable>(tableName_);`
  pub replace_active : Method (MemTableManager K F) (Unit {0})
  replace_active s = elim s.active [
    | none ↦ crashed
    | some m ↦
        returned tt
          (record s { active = some (Memtable.new s.table_name); frozen = s.frozen ++ (m ∷ []) })
  ]

  pub maybe_rotate : Method (MemTableManager K F) (Unit {0})
  maybe_rotate = do
    n ← on_active Memtable.size
    if ltb n max_entries then returned tt else (on_active Memtable.freeze >>= λ _. replace_active)

  -- The oldest frozen table, taken out of the queue; `none` is the null pointer.
  pub flush_oldest_frozen : Method (MemTableManager K F) (Option (MemTable K F))
  flush_oldest_frozen s = elim s.frozen [
    | [] ↦ returned none s
    | m ∷ ms ↦ returned (some m) (record s { frozen = ms })
  ]

module _ {K F : Type 0} ⦃o : Ordered K⦄ where
  pub apply : Entry K F → Method (MemTableManager K F) (Unit {0})
  apply e = maybe_rotate >>= λ _. on_active (Memtable.apply_entry e)

  -- The loop over the frozen tables, the first one that has the key first. A table that was only
  -- read is as it was (`Memtable.Laws.get-lookup`), so its state is dropped.
  pub get_frozen : ℕ → K → List (MemTable K F) → Method (MemTableManager K F) (Option (Entry K F))
  get_frozen millis key [] s = returned none s
  get_frozen millis key (m ∷ ms) s =
      let rest = get_frozen millis key ms s in
      elim (Memtable.get millis key m) [
        | returned (some e) _ ↦ returned (some e) s
        | returned none _ ↦ rest
        | thrown _ ↦ thrown s
        | crashed ↦ crashed
      ]

  pub get : ℕ → K → Method (MemTableManager K F) (Option (Entry K F))
  get millis key = do
    found ← on_active (Memtable.get millis key)
    elim found [
      | some e ↦ returned (some e)
      | none ↦ λ s. get_frozen millis key (reverse s.frozen) s
    ]
