-- ===== src/Wal/Streams/Directory.antt =====
-- The files of a directory under the output streams of lib/wal.
use enigma_db.Base.{◌≡◌, refl, ◌∙◌, ◌⊎◌, inl, inr, [], ◌∷◌, ◌++◌, append-nil, Bool-cases}
use enigma_db.Base.Strings.{same_bytes, same_bytes_self}
use enigma_db.Wal.Streams.{FilePath, Files, contents, extend}

-- The end of a file that is extended is new, and every other file is as it was.
pub contents-extend :
    (files : Files) (path more q : FilePath)
    → (contents (extend files path more) q ≡ contents files q ++ more)
      ⊎ (contents (extend files path more) q ≡ contents files q)
unfolding contents extend
contents-extend [] path more q = elim (Bool-cases (same_bytes path q)) [
  | inl same ↦ inl (rw same refl)
  | inr other ↦ inr (rw other refl)
]
contents-extend ((r, bytes) ∷ files) path more q = elim (Bool-cases (same_bytes r path)) [
  | inl here ↦ elim (Bool-cases (same_bytes r q)) [
    | inl same ↦ inl (rw (here, same) refl)
    | inr other ↦ inr (rw (here, other) refl)
  ]
  | inr there ↦ elim (Bool-cases (same_bytes r q)) [
    | inl same ↦ inr (rw (there, same) refl)
    | inr other ↦ rw (there, other) (contents-extend files path more q)
  ]
]

-- The file itself has the bytes at its end.
pub contents-extended :
    (files : Files) (path more : FilePath)
    → contents (extend files path more) path ≡ contents files path ++ more
unfolding contents extend
contents-extended [] path more = rw (same_bytes_self path) refl
contents-extended ((r, bytes) ∷ files) path more = elim (Bool-cases (same_bytes r path)) [
  | inl here ↦ rw (here, here) refl
  | inr there ↦ rw (there, there) (contents-extended files path more)
]

-- A file that is opened for appending keeps its contents.
pub contents-opened :
    (files : Files) (path q : FilePath) → contents (extend files path []) q ≡ contents files q
contents-opened files path q = elim (contents-extend files path [] q) [
  | inl e ↦ e ∙ append-nil (contents files q)
  | inr e ↦ e
]
