-- ===== src/Wal/Writer/Names.antt =====
-- lib/wal/wal_writer.cpp: the names of the files.
use enigma_db.Base.{
  ℕ, ◌-◌, ◌^◌, ◌<◌, ◌≡◌, ◌∙◌, sym, ap, List, [], ◌∷◌, ◌++◌, All, All-append, arith, append_assoc,
  length, replicate,
}
use mathlib.Core.List.{append_cancel_left}
use enigma_db.Base.Decimal.{
  to_string, decimal, decimal-digits, digits-injective, digits-IsDigit, decimal-zeros, IsDigit,
  replicate-IsDigit, split_lem,
}
use enigma_db.Wal.Streams.{FilePath}
use enigma_db.Wal.Writer.{Writer, padded, file_name, file_path}

padded-IsDigit : (n : ℕ) → All IsDigit (padded (to_string n))
unfolding padded
padded-IsDigit n =
    let zeros = 8 - length (to_string n) in
    All-append IsDigit (replicate zeros 48) (to_string n) (replicate-IsDigit zeros)
      (digits-IsDigit 20 n)

decimal-padded : (text : List ℕ) → decimal (padded text) ≡ decimal text
unfolding padded
decimal-padded text = decimal-zeros (8 - length text) text

padded-injective :
    (n m : ℕ) → n < 10 ^ 20 → m < 10 ^ 20 → padded (to_string n) ≡ padded (to_string m) → n ≡ m
padded-injective n m h k same =
    sym (decimal-padded (to_string n) ∙ decimal-digits 20 n h)
    ∙ ap decimal same
    ∙ (decimal-padded (to_string m) ∙ decimal-digits 20 m k)

-- The name of a file has the number of the writer and that of the file in it.
file_name-injective :
    (id id' number number' : ℕ)
    → id < 2 ^ 64
    → id' < 2 ^ 64
    → number < 2 ^ 32
    → number' < 2 ^ 32
    → file_name id number ≡ file_name id' number'
    → (id ≡ id') × (number ≡ number')
unfolding file_name
file_name-injective id id' number number' h h' k k' same =
    let tail = λ (n : ℕ). padded (to_string n) ++ (46 ∷ 119 ∷ 97 ∷ 108 ∷ []) in
    let (ids, rest) =
      split_lem IsDigit 95 (to_string id) (to_string id') (tail number) (tail number')
        (λ (low, high). omega arith) (digits-IsDigit 20 id) (digits-IsDigit 20 id')
        (append_cancel_left (119 ∷ 95 ∷ []) _ _ same) in
    let (numbers, ends) =
      split_lem IsDigit 46 (padded (to_string number)) (padded (to_string number')) _ _
        (λ (low, high). omega arith) (padded-IsDigit number) (padded-IsDigit number') rest in
    (
      digits-injective 20 id id' (omega arith) (omega arith) ids,
      padded-injective number number' (omega arith) (omega arith) numbers,
    )

-- Two writers of one directory name the same file only if their ids and the numbers of the files are
-- the same, ids being those of 64 bits and numbers those of 32 bits.
pub file_path_distinct :
    (w w' : Writer) (number number' : ℕ)
    → w.wal_dir ≡ w'.wal_dir
    → w.writer_id < 2 ^ 64
    → w'.writer_id < 2 ^ 64
    → number < 2 ^ 32
    → number' < 2 ^ 32
    → file_path w number ≡ file_path w' number'
    → (w.writer_id ≡ w'.writer_id) × (number ≡ number')
unfolding file_path
file_path_distinct w w' number number' dirs h h' k k' same =
    let path = λ (dir : FilePath). dir ++ (47 ∷ file_name w'.writer_id number') in
    file_name-injective w.writer_id w'.writer_id number number' h h' k k' (
      append_cancel_left (w.wal_dir ++ (47 ∷ [])) _ _ (
        append_assoc w.wal_dir (47 ∷ []) (file_name w.writer_id number)
        ∙ same
        ∙ ap path (sym dirs)
        ∙ sym (append_assoc w.wal_dir (47 ∷ []) (file_name w'.writer_id number'))))
