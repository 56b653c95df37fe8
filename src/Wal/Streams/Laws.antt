-- ===== src/Wal/Streams/Laws.antt =====
-- What the streams of lib/wal keep and give.
use enigma_db.Base.{
  ℕ, zero, suc, Bool-cases, [], ◌∷◌, ◌+◌, ◌≤◌, ◌<◌, ◌≡◌, refl, ap, ◌⊎◌, inl, inr, leb, Bool, true,
  false, Option, none, some, List, ◌++◌, arith, drop, take-append, drop-append, length,
  length-append, append_assoc, if◌then◌else◌,
}
use enigma_db.Wal.Streams.{FilePath, Files, Output, write, Input, is_good, reading, ended, read}

open_write-write :
    (as' bs : List ℕ) (path : Option FilePath) (good : Bool) (buffer : List ℕ) (files : Files)
    → write bs (write as' (record { path = path; good = good; buffer = buffer; files = files }))
      ≡ write (as' ++ bs) (record { path = path; good = good; buffer = buffer; files = files })
unfolding write
open_write-write as' bs none good buffer files = refl
open_write-write as' bs (some path) false buffer files = refl
open_write-write as' bs (some path) true buffer files =
    ap (λ t. record { path = some path; good = true; buffer = t; files = files })
      (append_assoc buffer as' bs)

pub write-write : (as' bs : List ℕ) (o : Output) → write bs (write as' o) ≡ write (as' ++ bs) o
write-write as' bs o = open_write-write as' bs o.path o.good o.buffer o.files

pub read_lem :
    (n : ℕ) (bs rest : List ℕ) → length bs ≡ n → read n (reading (bs ++ rest)) ≡ (bs, reading rest)
unfolding read
read_lem n bs rest counts =
    let enough : leb n (length (bs ++ rest)) ≡ true =
      ground (arith, counts, length-append bs rest) in
    rw (enough, ← counts, take-append bs rest, drop-append bs rest) refl

pub read_past : (n : ℕ) (bs : List ℕ) → length bs < n → read n (reading bs) ≡ (bs, ended)
unfolding read
read_past n bs short = let few : leb n (length bs) ≡ false = ground arith in rw few refl

-- The most bytes that a stream can still give, and one more as long as it is good.
abbrev pub left : Input → ℕ
left s = if is_good s then length s.rest + 1 else 0

length-drop : (n : ℕ) (xs : List ℕ) → n ≤ length xs → length (drop n xs) + n ≡ length xs
length-drop zero xs h = omega arith
length-drop (suc n) [] h = absurd (omega arith)
length-drop (suc n) (x ∷ xs) h = omega (arith, length-drop n xs (omega arith))

read_cases :
    (n : ℕ) (is_open eof failed : Bool) (rest : List ℕ) (s : Input)
    → s ≡ record { is_open = is_open; rest = rest; eof = eof; failed = failed }
    → (left ((read n s).1) ≡ 0) ⊎ (left ((read n s).1) + n ≡ left s)
unfolding read
read_cases n is_open true failed rest s e = inl (rw e refl)
read_cases n is_open false true rest s e = inl (rw e refl)
read_cases n is_open false false rest s e = elim (Bool-cases (leb n (length rest))) [
  | inl enough ↦ inr (rw (e, enough) (omega (arith, length-drop n rest (ground arith))))
  | inr few ↦ inl (rw (e, few) refl)
]

-- A stream gives all the bytes, or it is good no longer.
pub read_progress :
    (n : ℕ) (s : Input) → (left ((read n s).1) ≡ 0) ⊎ (left ((read n s).1) + n ≡ left s)
read_progress n s = read_cases n s.is_open s.eof s.failed s.rest s refl

pub left-read : (n : ℕ) (s : Input) → left ((read n s).1) ≤ left s
left-read n s = elim (read_progress n s) [ inl end ↦ omega arith | inr fewer ↦ omega arith ]
