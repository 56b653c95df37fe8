-- ===== src/Manager/Rotation.antt =====
-- `maybeRotate` of lib/memtable/memtable_manager.cpp: when the active table is frozen, and that no
-- entry is lost.
use mathlib.Core.List.{reverse, reverse-append}
use enigma_db.Base.{
  ◌≤◌, ◌<◌, ◌≡◌, refl, ◌∙◌, ap, false, Option, none, some, List, [], ◌∷◌, ◌++◌, All, All-append,
  arith, length,
}
use native.Mathlib.Decide.{dec_lt}
use enigma_db.Ordered.{Ordered}
use enigma_db.Entry.{Entry}
use enigma_db.Memtable
use enigma_db.Memtable.{MemTable}
use enigma_db.Memtable.Laws.{
  IsReady, entries, lookup, ordered_entries-size, freeze-IsReady, new-IsReady, entries-new,
  frozen-new,
}
use enigma_db.Outcome.{returned, Method}
use enigma_db.Manager.{MemTableManager, max_entries, on_active, replace_active, maybe_rotate}

module _ {K F : Type 0} ⦃o : Ordered K⦄ where
  abbrev pub lookup_or : K → List (Entry K F) → Option (Entry K F) → Option (Entry K F)
  lookup_or key es other = elim (lookup key es) [ some e ↦ some e | none ↦ other ]

  -- The entry under a key in the first of the tables that has one.
  abbrev pub newest : K → List (MemTable K F) → Option (Entry K F)
  newest key [] = none
  newest key (m ∷ ms) = lookup_or key (entries m) (newest key ms)

  -- A manager between two calls, with its active table. No call of a constructed manager sets
  -- `active_` (Manager/Reached.antt): lemmas on such a state say what the code does once it is set.
  pub record IsManaged (s : MemTableManager K F) (m : MemTable K F) : Type 0 where
    pub active : s.active ≡ some m
    pub ready : IsReady m
    pub writable : m.frozen ≡ false
    pub frozen_ready : All IsReady s.frozen

  -- The tables of a manager, the newest first.
  abbrev pub tables : MemTableManager K F → MemTable K F → List (MemTable K F)
  tables s m = m ∷ reverse s.frozen

  -- A method of the active table that returns.
  pub on_active-returned :
      {A : Type 0} (method : Method (MemTable K F) A) (s : MemTableManager K F)
      (m m' : MemTable K F) (a : A)
      → s.active ≡ some m
      → method m ≡ returned a m'
      → on_active method s ≡ returned a (record s { active = some m' })
  unfolding on_active
  on_active-returned method s m m' a active returns = rw (active, on_active) (rw returns)

  -- With a full active table: it is frozen and becomes the newest of the frozen ones.
  rotate_full :
      (s : MemTableManager K F) (m m' : MemTable K F)
      → IsManaged s m
      → max_entries ≤ length (entries m)
      → Memtable.freeze m ≡ returned tt m'
      → maybe_rotate s
        ≡ returned tt
            (record s { active = some (Memtable.new s.table_name); frozen = s.frozen ++ (m' ∷ []) })
  unfolding maybe_rotate replace_active
  rotate_full s m m' v full freezes = ground (
    arith,
    on_active-returned Memtable.size s m m (length (entries m)) v.active
        (ordered_entries-size m v.ready).1,
    on_active-returned Memtable.freeze (record s { active = some m }) m m' tt refl freezes,
  )

  rotate_room :
      (s : MemTableManager K F) (m : MemTable K F)
      → IsManaged s m
      → length (entries m) < max_entries
      → maybe_rotate s ≡ returned tt (record s { active = some m })
  unfolding maybe_rotate
  rotate_room s m v room = ground (
    arith,
    on_active-returned Memtable.size s m m (length (entries m)) v.active
        (ordered_entries-size m v.ready).1,
  )

  pub maybe_rotate-lem :
      (s : MemTableManager K F) (m : MemTable K F)
      → IsManaged s m
      → (s' : MemTableManager K F) × (m' : MemTable K F) × (maybe_rotate s ≡ returned tt s')
        × IsManaged s' m'
        × (length (entries m') < max_entries)
        × ((key : K) → newest key (tables s' m') ≡ newest key (tables s m))
  maybe_rotate-lem s m v = elim (dec_lt (length (entries m)) max_entries) [
    | yes room ↦ (
      record s { active = some m },
      m,
      rotate_room s m v room,
      record {
        active = refl;
        ready = v.ready;
        writable = v.writable;
        frozen_ready = v.frozen_ready;
      },
      room,
      λ key. refl,
    )
    | no full ↦
        let (m', freezes, r', _, same) = freeze-IsReady m v.ready in
        (
          record s { active = some (Memtable.new s.table_name); frozen = s.frozen ++ (m' ∷ []) },
          Memtable.new s.table_name,
          rotate_full s m m' v (omega arith) freezes,
          record {
            active = refl;
            ready = new-IsReady s.table_name;
            writable = frozen-new K F s.table_name;
            frozen_ready = All-append IsReady s.frozen (m' ∷ []) v.frozen_ready (r', tt);
          },
          rw (entries-new s.table_name) (omega arith),
          λ key.
              ap (λ es. lookup_or key es (newest key (reverse (s.frozen ++ (m' ∷ [])))))
                (entries-new s.table_name)
              ∙ ap (newest key) (reverse-append s.frozen (m' ∷ []))
              ∙ ap (λ es. lookup_or key es (newest key (reverse s.frozen))) same,
        )
  ]
