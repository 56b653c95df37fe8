-- ===== src/Wal/Holding.antt =====
-- The entries that the files of the directory of lib/wal hold together, up to their order.
pub mod Loaded
use enigma_db.Base.{
  ℕ, ◌≡◌, refl, ◌∙◌, sym, ap, ap₂, inl, inr, Bool, true, false, List, [], ◌∷◌, ◌++◌, map,
  append-nil, append_assoc, Bool-cases, if◌then◌else◌,
}
use mathlib.Core.Path.{subst}
use mathlib.Core.List.{Perm, Permᴰ, perm_append_comm}
use mathlib.Core.List.Perm
use mathlib.Core.Logic.{∥∥₁_elim}
use enigma_db.Base.Strings.{same_bytes, same_bytes_self}
use enigma_db.Entry.Codec.Body.{Stored}
use enigma_db.Wal.Streams.{FilePath, Files, contents, extend}
use enigma_db.Wal.Log.{Log, empty, append-Log}
use enigma_db.Wal.Load.Recovery.{all_held}

abbrev pub names : Files → List FilePath
names [] = []
names ((path, bytes) ∷ files) = path ∷ names files

-- No file has the name.
abbrev pub Fresh : FilePath → Files → Type 0
Fresh path [] = Unit
Fresh path ((q, bytes) ∷ files) = (same_bytes path q ≡ false) × Fresh path files

-- The names of the files differ.
abbrev pub Distinct : Files → Type 0
Distinct [] = Unit
Distinct ((path, bytes) ∷ files) = Fresh path files × Distinct files

-- Every file is the log of some entries.
pub data Holding : Files → List Stored → Type 0 where
  nothing_held : Holding [] []
  file_held :
      {path : FilePath} {bytes : List ℕ} {files : Files} {es fs : List Stored}
      → Log es bytes
      → Holding files fs
      → Holding ((path, bytes) ∷ files) (es ++ fs)

-- The files have distinct names and hold the entries, in some order.
pub record Stores (es : List Stored) (files : Files) : Type 0 where
  pub found : List Stored
  pub holding : Holding files found
  pub same : Perm found es
  pub distinct : Distinct files

extend-Fresh :
    (q : FilePath) (files : Files) (path more : FilePath)
    → same_bytes q path ≡ false
    → Fresh q files
    → Fresh q (extend files path more)
unfolding extend
extend-Fresh q [] path more differs h = (differs, tt)
extend-Fresh q ((r, bytes) ∷ files) path more differs (h, hs) =
    elim (Bool-cases (same_bytes r path)) [
      | inl here ↦ rw here (h, hs)
      | inr there ↦ rw there (h, extend-Fresh q files path more differs hs)
    ]

extend-Distinct :
    (files : Files) (path more : FilePath) → Distinct files → Distinct (extend files path more)
unfolding extend
extend-Distinct [] path more h = (tt, tt)
extend-Distinct ((r, bytes) ∷ files) path more (h, hs) = elim (Bool-cases (same_bytes r path)) [
  | inl here ↦ rw here (h, hs)
  | inr there ↦
      rw there (extend-Fresh r files path more there h, extend-Distinct files path more hs)
]

-- What is added to one of the lists, moved behind all of them.
behind : (es added fs : List Stored) → Perm ((es ++ added) ++ fs) ((es ++ fs) ++ added)
behind es added fs =
    subst (λ t. Perm t ((es ++ fs) ++ added)) (sym (append_assoc es added fs))
      (subst (λ t. Perm (es ++ (added ++ fs)) t) (sym (append_assoc es fs added))
        (Perm.append_left es (perm_append_comm added fs)))

-- The entries of a log at the end of a file come to those that are held.
extend-Holding :
    {es added : List Stored} (files : Files) (path more : FilePath)
    → Log added more
    → Holding files es
    → (fs : List Stored) × Holding (extend files path more) fs × Perm fs (es ++ added)
unfolding extend
extend-Holding {added} [] path more log nothing_held = (
  added ++ [],
  file_held log nothing_held,
  subst (λ t. Perm t added) (sym (append-nil added)) (Perm.refl added),
)
extend-Holding {added} ((r, bytes) ∷ files) path more log (file_held {es} {fs} l h) =
    elim (Bool-cases (same_bytes r path)) [
      | inl here ↦ rw here ((es ++ added) ++ fs, file_held (append-Log l log) h, behind es added fs)
      | inr there ↦
          let (gs, k, p) = extend-Holding files path more log h in
          rw there (
            es ++ gs,
            file_held l k,
            subst (λ t. Perm (es ++ gs) t) (sym (append_assoc es fs added)) (Perm.append_left es p),
          )
    ]

pub extend-Stores :
    {es added : List Stored} (files : Files) (path more : FilePath)
    → Log added more
    → Stores es files
    → Stores (es ++ added) (extend files path more)
extend-Stores {es} {added} files path more log h =
    let (fs, k, p) = extend-Holding files path more log h.holding in
    record {
      found = fs;
      holding = k;
      same = Perm.trans p (Perm.append_right added h.same);
      distinct = extend-Distinct files path more h.distinct;
    }

-- A file that is opened for appending.
pub opened-Stores :
    {es : List Stored} (files : Files) (path : FilePath)
    → Stores es files
    → Stores es (extend files path [])
opened-Stores {es} files path h =
    subst (λ t. Stores t (extend files path [])) (append-nil es)
      (extend-Stores files path [] empty h)
