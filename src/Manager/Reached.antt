-- ===== src/Manager/Reached.antt =====
-- lib/memtable/memtable_manager.cpp: the states that the calls of a constructed manager lead to.
-- `active_` is private, and no call sets it.
use mathlib.Core.Path.{subst}
use enigma_db.Base.{ℕ, ◌≡◌, refl, sym, Option, none}
use enigma_db.Ordered.{Ordered}
use enigma_db.Entry.{Entry}
use enigma_db.Memtable.{MemTable}
use enigma_db.Outcome.{Outcome, returned, thrown, crashed}
use enigma_db.Manager.{
  MemTableManager, new, on_active, maybe_rotate, flush_oldest_frozen, apply, get,
}

-- What a call that returns or throws leaves behind.
pub data Leaves {S A : Type 0} (s : S) : Outcome S A → Type 0 where
  returns : {a : A} → Leaves s (returned a s)
  throws : Leaves s (thrown s)

module _ {K F : Type 0} ⦃o : Ordered K⦄ where
  -- A public call that ends.
  pub data Call (s s' : MemTableManager K F) : Type 0 where
    applied : (e : Entry K F) → Leaves s' (apply e s) → Call s s'
    read : (millis : ℕ) (key : K) → Leaves s' (get millis key s) → Call s s'
    rotated : Leaves s' (maybe_rotate s) → Call s s'
    flushed : Leaves s' (flush_oldest_frozen s) → Call s s'

  pub data Run (s : MemTableManager K F) : MemTableManager K F → Type 0 where
    start : Run s s
    next : {s' s'' : MemTableManager K F} → Run s s' → Call s' s'' → Run s s''

  -- Without an active table the calls that need one follow the null pointer.
  abbrev pub IsUseless : MemTableManager K F → Type 0
  IsUseless s =
      ((e : Entry K F) → apply e s ≡ crashed)
      × ((millis : ℕ) (key : K) → get millis key s ≡ crashed)
      × (maybe_rotate s ≡ crashed)
      × (flush_oldest_frozen s ≡ returned none s)

  new-IsUseless : IsUseless new
  unfolding apply get new on_active maybe_rotate flush_oldest_frozen
  new-IsUseless = (λ e. refl, λ millis key. refl, refl, refl)

  no_end :
      {A : Type 0} (s : MemTableManager K F) (out : Outcome (MemTableManager K F) A)
      → out ≡ crashed
      → Leaves s out
      → ⊥
  no_end _ (returned a s) e returns = cc e
  no_end _ (thrown s) e throws = cc e
  no_end s crashed e l = elim l [ ]

  flush_end :
      (s : MemTableManager K F) (out : Outcome (MemTableManager K F) (Option (MemTable K F)))
      → out ≡ returned none new
      → Leaves s out
      → s ≡ new
  flush_end _ (returned a s) e returns = cc e
  flush_end _ (thrown s) e throws = absurd (cc e)
  flush_end s crashed e l = elim l [ ]

  Call-new : (s : MemTableManager K F) → Call new s → s ≡ new
  Call-new s (applied e l) = absurd (no_end s (apply e new) (new-IsUseless.0 e) l)
  Call-new s (read millis key l) =
      absurd (no_end s (get millis key new) (new-IsUseless.1 millis key) l)
  Call-new s (rotated l) = absurd (no_end s (maybe_rotate new) new-IsUseless.2 l)
  Call-new s (flushed l) = flush_end s (flush_oldest_frozen new) new-IsUseless.3 l

  Run-new : {s : MemTableManager K F} → Run new s → s ≡ new
  Run-new start = refl
  Run-new (next {s'} {s''} run call) = Call-new s'' (subst (λ s. Call s s'') (Run-new run) call)

  -- Whatever public calls of a constructed manager end, one after the other, they leave it as it was
  -- constructed: it has no active table, `apply`, `get` and `maybeRotate` dereference a null pointer
  -- for every argument, and `flushOldestFrozen` gives the null pointer.
  pub run-IsUseless : (s : MemTableManager K F) → Run new s → (s ≡ new) × IsUseless s
  run-IsUseless s run = (Run-new run, subst IsUseless (sym (Run-new run)) new-IsUseless)
