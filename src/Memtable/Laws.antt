-- ===== src/Memtable/Laws.antt =====
-- The operations of lib/memtable/memtable.cpp against the sorted list of entries.
use enigma_db.Base.{
  ℕ, ◌≡◌, refl, ◌∙◌, sym, ap, true, false, Option, none, some, List, [], ◌∷◌, arith, length,
  if◌then◌else◌,
}
use mathlib.Core.Path.{subst}
use enigma_db.Ordered.{Ordered}
use enigma_db.SortedList.{IsSorted, upsert, find}
use enigma_db.SortedList.Laws.{find-upsert}
use enigma_db.Avl
use enigma_db.Avl.Laws.{
  IsValid, keys, new-IsValid, search-find, insert-upsert, to_sorted_vector-keys,
}
use enigma_db.Avl.Size.{IsCounted, to_sorted_vector-insert}
use enigma_db.Entry.{Entry, make_entry, entry_ordered}
use enigma_db.Outcome.{returned, thrown}
use enigma_db.Memtable.{
  MemTable, unlocked, new, unique_lock, shared_lock, freeze, ordered_entries, size, put,
  apply_entry, get,
}

-- The entries of a table in key order.
abbrev pub entries : {K F : Type 0} → MemTable K F → List (Entry K F)
entries m = keys m.tree

pub frozen-new : (K F : Type 0) (name : List ℕ) → (new {K = K} {F = F} name).frozen ≡ false
unfolding new
frozen-new K F name = refl

module _ {K F : Type 0} ⦃o : Ordered K⦄ where
  -- A table between two calls: a balanced search tree, counted, and no lock held.
  pub record IsReady (m : MemTable K F) : Type 0 where
    pub tree : IsValid m.tree
    pub count : IsCounted m.tree
    pub free : m.rw_mutex ≡ unlocked

  -- The entry under a key, in a list of entries.
  abbrev pub lookup : K → List (Entry K F) → Option (Entry K F)
  lookup key [] = none
  lookup key (e ∷ es) = if o.equal e.primary_key key then some e else lookup key es

  find-lookup :
      (millis : ℕ) (name : List ℕ) (key : K) (es : List (Entry K F))
      → find (make_entry millis name key [] false 0) es ≡ lookup key es
  unfolding make_entry
  find-lookup millis name key [] = refl
  find-lookup millis name key (e ∷ es) = ground (arith, find-lookup millis name key es)

  pub lookup-upsert :
      (e : Entry K F) (key : K) (es : List (Entry K F))
      → IsSorted es
      → lookup key (upsert e es) ≡ (if o.equal e.primary_key key then some e else lookup key es)
  lookup-upsert e key es s =
      let dummy = make_entry 0 [] key [] false 0 in
      sym (find-lookup 0 [] key (upsert e es))
      ∙ find-upsert e dummy es s
      ∙ unfold make_entry in ground (arith, find-lookup 0 [] key es)

  pub new-IsReady : (name : List ℕ) → IsReady (new name)
  unfolding new
  new-IsReady name = record { tree = new-IsValid; count = unfold Avl.new in refl; free = refl }

  pub entries-new : (name : List ℕ) → entries {K = K} {F = F} (new name) ≡ []
  unfolding new
  entries-new name = unfold Avl.new in refl

  -- On a ready table `get` returns the entry under the key, if there is one, and leaves the table
  -- as it was.
  pub get-lookup :
      (millis : ℕ) (key : K) (m : MemTable K F)
      → IsReady m
      → get millis key m ≡ returned (lookup key (entries m)) m
  unfolding get shared_lock
  get-lookup millis key m r =
      let dummy = make_entry millis m.table_name key [] false 0 in
      let found : Avl.search m.tree dummy ≡ lookup key (entries m) =
        search-find m.tree dummy r.tree ∙ find-lookup millis m.table_name key (entries m) in
      ground (arith, found)

  -- On a ready table that is not frozen `put` returns; the table is ready again, is not frozen, and holds
  -- the entry in the place of an old entry under an equal key, or as a new one.
  pub put-upsert :
      (e : Entry K F) (m : MemTable K F)
      → IsReady m
      → m.frozen ≡ false
      → (m' : MemTable K F) × (put e m ≡ returned tt m')
        × IsReady m'
        × (m'.frozen ≡ false)
        × (entries m' ≡ upsert e (entries m))
  unfolding put unique_lock
  put-upsert e m r active =
      let (t, returns, v, contents, _) = insert-upsert m.tree e r.tree in
      let (t₁, returns₁, counts, _) = to_sorted_vector-insert m.tree e r.tree r.count in
      let same : t₁ ≡ t = cc (returns₁, returns) in
      (
        record m { tree = t; rw_mutex = unlocked },
        ground (arith, returns),
        record { tree = v; count = subst IsCounted same counts; free = refl },
        active,
        contents,
      )

  -- `applyEntry` does what `put` does.
  pub apply_entry-put : (e : Entry K F) (m : MemTable K F) → apply_entry e m ≡ put e m
  unfolding put apply_entry
  apply_entry-put e m = refl

  -- What was put into a ready table that is not frozen is read back under every equal key, and reads under other keys do not change.
  pub get-put :
      (e : Entry K F) (millis : ℕ) (key : K) (m m' : MemTable K F)
      → IsReady m
      → put e m ≡ returned tt m'
      → m.frozen ≡ false
      → get millis key m'
        ≡ returned (if o.equal e.primary_key key then some e else lookup key (entries m)) m'
  get-put e millis key m m' r done active =
      let (m₁, returns, r₁, _, contents) = put-upsert e m r active in
      let same : m₁ ≡ m' = cc (returns, done) in
      let r' : IsReady m' = subst IsReady same r₁ in
      let contents' : entries m' ≡ upsert e (entries m) =
        subst (λ x. entries x ≡ upsert e (entries m)) same contents in
      get-lookup millis key m' r'
      ∙ ap (λ es. returned (lookup key es) m') contents'
      ∙ ap (λ found. returned found m') (lookup-upsert e key (entries m) r.tree.sorted)

  -- A frozen table rejects every entry and is left as it was.
  pub put_frozen :
      (e : Entry K F) (m : MemTable K F)
      → m.rw_mutex ≡ unlocked
      → m.frozen ≡ true
      → put e m ≡ thrown m
  unfolding put unique_lock
  put_frozen e m free frozen = ground arith

  -- On a ready table `orderedEntries` returns the entries in key order, without equal keys, and `size` their number.
  pub ordered_entries-size :
      (m : MemTable K F)
      → IsReady m
      → (ordered_entries m ≡ returned (entries m) m)
        × (size m ≡ returned (length (entries m)) m)
        × IsSorted (entries m)
  unfolding ordered_entries size shared_lock
  ordered_entries-size m r =
      let vector = to_sorted_vector-keys m.tree (length (entries m)) r.count in
      (ground (arith, vector), ground (arith, vector), r.tree.sorted)

  -- `freeze` closes a ready table, which stays ready, and keeps its entries.
  pub freeze-IsReady :
      (m : MemTable K F)
      → IsReady m
      → (m' : MemTable K F) × (freeze m ≡ returned tt m')
        × IsReady m'
        × (m'.frozen ≡ true)
        × (entries m' ≡ entries m)
  unfolding freeze unique_lock
  freeze-IsReady m r = (
    record m { rw_mutex = unlocked; frozen = true },
    ground arith,
    record { tree = r.tree; count = r.count; free = refl },
    refl,
    refl,
  )
