-- ===== src/Wal/Streams.antt =====
-- The files of the directory of lib/wal, and `std::ofstream` and `std::ifstream` as lib/wal uses them.
pub mod Laws
pub mod Directory
pub mod Idle
pub mod Spilled
use enigma_db.Base.{
  ℕ, zero, suc, ◌+◌, leb, Bool, true, false, not, ◌&&◌, Option, none, some, List, [], ◌∷◌, ◌++◌,
  take, drop, length, if◌then◌else◌,
}
use enigma_db.Base.Strings.{same_bytes}

abbrev pub FilePath : Type 0
FilePath = List ℕ

abbrev pub Files : Type 0
Files = List (FilePath × List ℕ)

-- What stands in a file; nothing, if it does not exist.
unfoldable pub contents : Files → FilePath → List ℕ
contents [] path = []
contents ((p, bytes) ∷ files) path = if same_bytes p path then bytes else contents files path

-- The file with bytes at its end, created if it does not exist.
unfoldable pub extend : Files → FilePath → List ℕ → Files
extend [] path more = (path, more) ∷ []
extend ((p, bytes) ∷ files) path more =
    if same_bytes p path then (p, bytes ++ more) ∷ files else (p, bytes) ∷ extend files path more

-- `std::ofstream` in a directory: the open file, `good()`, and the bytes that are not yet in it.
pub record Output : Type 0 where
  pub path : Option FilePath
  pub good : Bool
  pub buffer : List ℕ
  pub files : Files

-- Without an open file the stream goes bad.
unfoldable pub write : List ℕ → Output → Output
write bytes o = elim o.path [
  | none ↦ record o { good = false }
  | some path ↦ if o.good then record o { buffer = o.buffer ++ bytes } else o
]

-- The bytes of the buffer go into the file.
unfoldable pub sync : FilePath → Output → Output
sync path o = record o { buffer = []; files = extend o.files path o.buffer }

unfoldable pub flush : Output → Output
flush o = elim o.path [ none ↦ o | some path ↦ if o.good then sync path o else o ]

-- The first `n` bytes of the buffer of an open file go into the file: a `std::ofstream` passes bytes
-- on by itself when its buffer is full, which may be at any point. `write`, `flush`, `close` and
-- `open_append` do not spill; a sequence of calls in which bytes are passed on has this step between
-- them.
unfoldable pub spill : ℕ → Output → Output
spill n o = elim o.path [
  | none ↦ o
  | some path ↦ record o { buffer = drop n o.buffer; files = extend o.files path (take n o.buffer) }
]

-- A file that is closed gets what the buffer still holds.
pub close : Output → Output
close o = elim o.path [
  | none ↦ record o { good = false }
  | some path ↦ record (sync path o) { path = none }
]

-- `open(path, std::ios::out | std::ios::app | std::ios::binary)`; `opens` says which files the
-- system lets the process open.
unfoldable pub open_append : (FilePath → Bool) → FilePath → Output → Output
open_append opens path o = elim o.path [
  | none ↦
      if opens path
      then record o { path = some path; good = true; files = extend o.files path [] }
      else record o { good = false }
  | some p ↦ record o { good = false }
]

-- `std::ifstream`: whether a file is open, what is behind the position, and the bits of its state.
pub record Input : Type 0 where
  pub is_open : Bool
  pub rest : List ℕ
  pub eof : Bool
  pub failed : Bool

abbrev pub is_good : Input → Bool
is_good s = not s.eof && not s.failed

-- A stream in front of bytes.
abbrev pub reading : List ℕ → Input
reading bytes = record { is_open = true; rest = bytes; eof = false; failed = false }

-- A stream that was read past the end.
abbrev pub ended : Input
ended = record { is_open = true; rest = []; eof = true; failed = true }

-- `read(pointer, n)`: the `gcount()` bytes that it gives. At the end of the file there are fewer.
pub read : ℕ → Input → List ℕ × Input
read n s =
    if is_good s
    then if leb n (length s.rest)
      then (take n s.rest, record s { rest = drop n s.rest })
      else (s.rest, record s { rest = []; eof = true; failed = true })
    else ([], record s { failed = true })
