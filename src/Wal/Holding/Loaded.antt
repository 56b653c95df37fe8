-- ===== src/Wal/Holding/Loaded.antt =====
-- What `loadAll` of lib/wal/wal_manager.cpp gives of the entries that a directory holds.
use enigma_db.Base.{
  ℕ, ◌≡◌, refl, ◌∙◌, sym, ap₂, inl, inr, Bool, true, false, List, [], ◌∷◌, ◌++◌, map, All, All-each,
  append-nil, append_assoc, Bool-cases, if◌then◌else◌,
}
use mathlib.Core.Path.{subst}
use mathlib.Core.Logic.{∥∥₁_elim}
use mathlib.Core.List.{Perm, Permᴰ, Perm-prop, perm_append_comm}
use mathlib.Core.List.Perm
use enigma_db.Base.Strings.{same_bytes, same_bytes_self}
use enigma_db.Field.{given}
use enigma_db.Field.Codec.{Field}
use enigma_db.Entry.{Entry}
use enigma_db.Entry.Codec.Body.{Stored, entry_of}
use enigma_db.Wal.Streams.{FilePath, Files, contents, extend}
use enigma_db.Wal.Streams.Directory.{contents-extend}
use enigma_db.Wal.Log.{Log, empty}
use enigma_db.Wal.Load.{load_all, wal_paths}
use enigma_db.Wal.Load.Recovery.{Holds, Tail, nothing, all_held, load_all_recovers}
use enigma_db.Wal.Holding.{names, Fresh, Distinct, Holding, nothing_held, file_held, Stores}

-- The entries of the file with a name.
held_in : {files : Files} {es : List Stored} → Holding files es → FilePath → List Stored
held_in nothing_held q = []
held_in (file_held {path} {es} log h) q = if same_bytes path q then es else held_in h q

held_in-Log :
    {files : Files} {es : List Stored} (h : Holding files es) (q : FilePath)
    → Log (held_in h q) (contents files q)
unfolding held_in contents
held_in-Log nothing_held q = empty
held_in-Log (file_held {path} log h) q = elim (Bool-cases (same_bytes path q)) [
  | inl here ↦ rw here log
  | inr there ↦ rw there (held_in-Log h q)
]

all_held_same :
    (held held' : FilePath → List Stored) (path : FilePath) (files : Files)
    → Fresh path files
    → ((q : FilePath) → same_bytes path q ≡ false → held q ≡ held' q)
    → all_held held (names files) ≡ all_held held' (names files)
all_held_same held held' path [] fresh same = refl
all_held_same held held' path ((q, bytes) ∷ files) (differs, fresh) same =
    ap₂ (λ (as' bs : List Stored). as' ++ bs) (same q differs)
      (all_held_same held held' path files fresh same)

-- The files one behind the other have all that is held.
all_held-names :
    {files : Files} {es : List Stored} (h : Holding files es)
    → Distinct files
    → all_held (held_in h) (names files) ≡ es
unfolding held_in
all_held-names nothing_held distinct = refl
all_held-names (file_held {path} {files} {es} log h) (fresh, distinct) =
    ap₂ (λ (as' bs : List Stored). as' ++ bs) (rw (same_bytes_self path) refl)
      (all_held_same (λ q. if same_bytes path q then es else held_in h q) (held_in h) path files
          fresh (λ q differs. rw differs refl)
        ∙ all_held-names h distinct)

swapped : (xs ys zs : List Stored) → Perm (xs ++ (ys ++ zs)) (ys ++ (xs ++ zs))
swapped xs ys zs =
    subst (λ t. Perm t (ys ++ (xs ++ zs))) (append_assoc xs ys zs)
      (subst (λ t. Perm ((xs ++ ys) ++ zs) t) (append_assoc ys xs zs)
        (Perm.append_right zs (perm_append_comm xs ys)))

all_held-Permᴰ :
    (held : FilePath → List Stored) {ps qs : List FilePath}
    → Permᴰ ps qs
    → Perm (all_held held ps) (all_held held qs)
all_held-Permᴰ held Permᴰ.nil = Perm.nil
all_held-Permᴰ held (Permᴰ.cons {a} {l₁} {l₂} same p) =
    subst (λ b. Perm (held a ++ all_held held l₁) (held b ++ all_held held l₂)) same
      (Perm.append_left (held a) (all_held-Permᴰ held p))
all_held-Permᴰ held (Permᴰ.swap {a} {b} {a'} {l} e f) =
    let before = held a ++ (held b ++ all_held held l) in
    subst (λ b'. Perm before (held a' ++ (held b' ++ all_held held l))) e
      (subst (λ c. Perm before (held c ++ (held a ++ all_held held l))) f
        (swapped (held a) (held b) (all_held held l)))
all_held-Permᴰ held (Permᴰ.trans p q) = Perm.trans (all_held-Permᴰ held p) (all_held-Permᴰ held q)

all_held-Perm :
    (held : FilePath → List Stored) {ps qs : List FilePath}
    → Perm ps qs
    → Perm (all_held held ps) (all_held held qs)
all_held-Perm held p = ∥∥₁_elim p Perm-prop (λ d. all_held-Permᴰ held d)

-- A file that a stopped program has left, with at most the beginning of a record behind what is held.
record Left (files left : Files) (q : FilePath) : Type 0 where
  tail : List ℕ
  stored : contents left q ≡ contents files q ++ tail
  behind : Tail tail

load_all-Left :
    (sort : List (Entry (List Field) Field) → List (Entry (List Field) Field))
    (opens : FilePath → Bool) (files left : Files) (dir : FilePath)
    (listing : List (FilePath × Bool)) (es : List Stored)
    → ((xs : List (Entry (List Field) Field)) → Perm (sort xs) xs)
    → Perm (wal_paths dir listing) (names files)
    → All (λ path. opens path ≡ true) (wal_paths dir listing)
    → Stores es files
    → ((q : FilePath) → Left files left q)
    → (loaded : List (Entry (List Field) Field)) × (load_all sort opens left dir listing
        ≡ given loaded)
      × Perm loaded (map entry_of es)
load_all-Left sort opens files left dir listing es sorts listed readable h lefts =
    let held = held_in h.holding in
    let paths = wal_paths dir listing in
    let holds : All (λ path. Holds opens left path (held path)) paths =
      All-each paths
        (λ path free. record {
          readable = free;
          bytes = contents files path;
          tail = (lefts path).tail;
          stored = (lefts path).stored;
          log = held_in-Log h.holding path;
          behind = (lefts path).behind;
        })
        readable in
    let all : Perm (all_held held paths) es =
      Perm.trans
        (subst (λ t. Perm (all_held held paths) t) (all_held-names h.holding h.distinct)
          (all_held-Perm held listed))
        h.same in
    (
      sort (map entry_of (all_held held paths)),
      load_all_recovers sort opens left dir listing held holds,
      Perm.trans (sorts (map entry_of (all_held held paths))) (Perm.map entry_of all),
    )

-- A directory that is listed completely, in any order, and whose files can be opened: `loadAll`
-- gives the entries that the files hold, each as often as it is there.
pub load_all-Stores :
    (sort : List (Entry (List Field) Field) → List (Entry (List Field) Field))
    (opens : FilePath → Bool) (files : Files) (dir : FilePath) (listing : List (FilePath × Bool))
    (es : List Stored)
    → ((xs : List (Entry (List Field) Field)) → Perm (sort xs) xs)
    → Perm (wal_paths dir listing) (names files)
    → All (λ path. opens path ≡ true) (wal_paths dir listing)
    → Stores es files
    → (loaded : List (Entry (List Field) Field)) × (load_all sort opens files dir listing
        ≡ given loaded)
      × Perm loaded (map entry_of es)
load_all-Stores sort opens files dir listing es sorts listed readable h =
    load_all-Left sort opens files files dir listing es sorts listed readable h
      (λ q. record { tail = []; stored = sym (append-nil (contents files q)); behind = nothing })

-- The same, where one file has the beginning of a record at its end.
pub load_all-torn :
    (sort : List (Entry (List Field) Field) → List (Entry (List Field) Field))
    (opens : FilePath → Bool) (files : Files) (dir : FilePath) (listing : List (FilePath × Bool))
    (es : List Stored) (path tail : FilePath)
    → ((xs : List (Entry (List Field) Field)) → Perm (sort xs) xs)
    → Perm (wal_paths dir listing) (names files)
    → All (λ path'. opens path' ≡ true) (wal_paths dir listing)
    → Stores es files
    → Tail tail
    → (loaded : List (Entry (List Field) Field)) × (load_all sort opens
          (extend files path tail)
          dir
          listing
        ≡ given loaded)
      × Perm loaded (map entry_of es)
load_all-torn sort opens files dir listing es path tail sorts listed readable h behind =
    load_all-Left sort opens files (extend files path tail) dir listing es sorts listed readable h
      (λ q. elim (contents-extend files path tail q) [
        | inl longer ↦ record { tail = tail; stored = longer; behind = behind }
        | inr same ↦ record {
          tail = [];
          stored = same ∙ sym (append-nil (contents files q));
          behind = nothing;
        }
      ])
