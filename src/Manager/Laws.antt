-- ===== src/Manager/Laws.antt =====
-- The calls of lib/memtable/memtable_manager.cpp over all tables of a manager that has an active
-- table, which no constructed manager gets (Manager/Reached.antt).
use mathlib.Core.List.{reverse, reverse_aux, reverse-cons}
use mathlib.Core.Path.{subst}
use enigma_db.Base.{
  ℕ, ◌≤◌, ◌<◌, ◌≡◌, refl, ◌∙◌, sym, ap, Option, none, some, List, [], ◌∷◌, ◌++◌, All, arith, length,
  if◌then◌else◌,
}
use enigma_db.Ordered.{Ordered}
use enigma_db.SortedList.{upsert, IsSorted}
use enigma_db.SortedList.Laws.{length-upsert}
use enigma_db.Entry.{Entry, entry_ordered}
use enigma_db.Memtable
use enigma_db.Memtable.{MemTable}
use enigma_db.Memtable.Laws.{
  IsReady, entries, lookup, lookup-upsert, get-lookup, put-upsert, apply_entry-put,
}
use enigma_db.Outcome.{returned}
use enigma_db.Manager.{MemTableManager, max_entries, flush_oldest_frozen, apply, get_frozen, get}
use enigma_db.Manager.Rotation.{
  lookup_or, newest, IsManaged, tables, on_active-returned, maybe_rotate-lem,
}

All-reverse_aux {ℓ} :
    {A : Type ℓ} (P : A → Type 0) (xs ys : List A) → All P xs → All P ys → All P (reverse_aux xs ys)
All-reverse_aux P [] ys h k = k
All-reverse_aux P (x ∷ xs) ys (h, hs) k = All-reverse_aux P xs (x ∷ ys) hs (h, k)

module _ {K F : Type 0} ⦃o : Ordered K⦄ where
  length-upsert_room :
      (e : Entry K F) (es : List (Entry K F)) (n : ℕ)
      → IsSorted es
      → length es < n
      → length (upsert e es) ≤ n
  length-upsert_room e es n s room = ground (arith, length-upsert e es s)

  lookup_or-upsert :
      (e : Entry K F) (key : K) (es : List (Entry K F)) (other : Option (Entry K F))
      → IsSorted es
      → lookup_or key (upsert e es) other
        ≡ (if o.equal e.primary_key key then some e else lookup_or key es other)
  lookup_or-upsert e key es other s = ground (arith, lookup-upsert e key es s)

  get_frozen-newest :
      (millis : ℕ) (key : K) (ms : List (MemTable K F)) (s : MemTableManager K F)
      → All IsReady ms
      → get_frozen millis key ms s ≡ returned (newest key ms) s
  unfolding get_frozen
  get_frozen-newest millis key [] s r = refl
  get_frozen-newest millis key (m ∷ ms) s (r, rs) =
      ground (arith, get-lookup millis key m r, get_frozen-newest millis key ms s rs)

  -- On a managed state `get` returns the entry under the key in the newest table that has one: the active table, then
  -- the frozen ones from the last to the first. It changes nothing.
  pub get-newest :
      (millis : ℕ) (key : K) (s : MemTableManager K F) (m : MemTable K F)
      → IsManaged s m
      → get millis key s ≡ returned (newest key (tables s m)) s
  unfolding get
  get-newest millis key s m v =
      let here : record s { active = some m } ≡ s =
        ap (λ a. record s { active = a }) (sym v.active) in
      let found =
        on_active-returned (Memtable.get millis key) s m m (lookup key (entries m)) v.active
          (get-lookup millis key m v.ready) in
      let older =
        get_frozen-newest millis key (reverse s.frozen) s
          (All-reverse_aux IsReady s.frozen [] v.frozen_ready tt) in
      ground (arith, found ∙ ap (returned (lookup key (entries m))) here, older)

  -- `apply` returns on every managed state: the active table takes the entry, after a rotation if it
  -- is full, and has at most `max_entries` entries afterwards.
  pub apply-IsManaged :
      (e : Entry K F) (s : MemTableManager K F) (m : MemTable K F)
      → IsManaged s m
      → (s' : MemTableManager K F) × (m' : MemTable K F) × (apply e s ≡ returned tt s')
        × IsManaged s' m'
        × (length (entries m') ≤ max_entries)
        × ((key : K)
            → newest key (tables s' m')
              ≡ (if o.equal e.primary_key key then some e else newest key (tables s m)))
  unfolding apply
  apply-IsManaged e s m v =
      let (s₁, m₁, rotates, v₁, room, same) = maybe_rotate-lem s m v in
      let (m', puts, r', open', contents) = put-upsert e m₁ v₁.ready v₁.writable in
      let applies =
        on_active-returned (Memtable.apply_entry e) s₁ m₁ m' tt v₁.active
          (apply_entry-put e m₁ ∙ puts) in
      (
        record s₁ { active = some m' },
        m',
        ground (arith, rotates, applies),
        record { active = refl; ready = r'; writable = open'; frozen_ready = v₁.frozen_ready },
        rw contents (length-upsert_room e (entries m₁) max_entries v₁.ready.tree.sorted room),
        λ key.
            ap (λ es. lookup_or key es (newest key (reverse s₁.frozen))) contents
            ∙ lookup_or-upsert e key (entries m₁) (newest key (reverse s₁.frozen))
                v₁.ready.tree.sorted
            ∙ ap (λ other. if o.equal e.primary_key key then some e else other) (same key),
      )

  -- What `apply` took on a managed state is what `get` returns under every equal key, also where
  -- `apply` froze the active table first; under the other keys `get` returns what it would have
  -- before.
  pub get-apply :
      (e : Entry K F) (millis : ℕ) (key : K) (s s' : MemTableManager K F) (m : MemTable K F)
      → IsManaged s m
      → apply e s ≡ returned tt s'
      → get millis key s'
        ≡ returned (if o.equal e.primary_key key then some e else newest key (tables s m)) s'
  get-apply e millis key s s' m v done =
      let (s₁, m', applies, v', _, newest_is) = apply-IsManaged e s m v in
      let same : s₁ ≡ s' = cc (applies, done) in
      let read = get-newest millis key s₁ m' v' ∙ ap (λ found. returned found s₁) (newest_is key) in
      subst
        (λ x.
          get millis key x
          ≡ returned (if o.equal e.primary_key key then some e else newest key (tables s m)) x)
        same read

  newest-append :
      (key : K) (ms : List (MemTable K F)) (m : MemTable K F)
      → newest key (ms ++ (m ∷ []))
        ≡ (elim (newest key ms) [ some e ↦ some e | none ↦ lookup key (entries m) ])
  newest-append key [] m = ground arith
  newest-append key (m₁ ∷ ms) m = ground (arith, newest-append key ms m)

  -- On a managed state with a frozen table a flush gives the frozen table that was read last and takes it out of the queue. What `get` reads
  -- in the other tables stays, and what it no longer finds is in the table that was given.
  pub flush_oldest_frozen-newest :
      (s : MemTableManager K F) (m oldest : MemTable K F) (younger : List (MemTable K F))
      → IsManaged s m
      → s.frozen ≡ oldest ∷ younger
      → (s' : MemTableManager K F) × (flush_oldest_frozen s ≡ returned (some oldest) s')
        × IsManaged s' m
        × IsReady oldest
        × ((key : K)
            → newest key (tables s m) ≡ (elim (newest key (tables s' m)) [
              | some e ↦ some e
              | none ↦ lookup key (entries oldest)
            ]))
  unfolding flush_oldest_frozen
  flush_oldest_frozen-newest s m oldest younger v queue =
      let (ready, readies) : All IsReady (oldest ∷ younger) =
        subst (All IsReady) queue v.frozen_ready in
      (
        record s { frozen = younger },
        rw queue refl,
        record {
          active = v.active;
          ready = v.ready;
          writable = v.writable;
          frozen_ready = readies;
        },
        ready,
        λ key.
            ap (λ q. newest key (m ∷ reverse q)) queue
            ∙ ap (λ q. newest key (m ∷ q)) (reverse-cons oldest younger)
            ∙ newest-append key (m ∷ reverse younger) oldest,
      )
