-- ===== src/Wal/Load.antt =====
-- `WALManager::loadAll` of lib/wal/wal_manager.cpp.
pub mod Termination
pub mod Recovery
pub mod Cut
use enigma_db.Base.{
  ℕ, zero, suc, ◌+◌, Bool, true, false, ◌&&◌, Option, none, some, List, [], ◌∷◌, ◌++◌, take, drop,
  length, ◌-◌, if◌then◌else◌, leb,
}
use enigma_db.Base.Strings.{same_bytes}
use enigma_db.Outcome.{Outcome, returned, thrown, crashed, Method, ◌>>=◌}
use enigma_db.Field as Field
use enigma_db.Field.{Result, given, raised, faulted}
use enigma_db.Field.Codec.{Field}
use enigma_db.Entry.{Entry}
use enigma_db.Wal.Streams.{FilePath, Files, contents, Input, is_good, reading}
use enigma_db.Wal.Codec.{read_record}

-- `starts_with` and `ends_with`
abbrev pub starts_with : List ℕ → List ℕ → Bool
starts_with prefix name = same_bytes (take (length prefix) name) prefix

abbrev pub ends_with : List ℕ → List ℕ → Bool
ends_with suffix name =
    leb (length suffix) (length name) && same_bytes (drop (length name - length suffix) name) suffix

-- A name and whether a regular file has it: "w_" in front and ".wal" at the end.
unfoldable pub is_wal_file : FilePath × Bool → Bool
is_wal_file (name, is_regular_file) =
    is_regular_file && starts_with (119 ∷ 95 ∷ []) name && ends_with (46 ∷ 119 ∷ 97 ∷ 108 ∷ []) name

-- The paths of the log in a directory, in the order in which the system lists it.
unfoldable pub wal_paths : FilePath → List (FilePath × Bool) → List FilePath
wal_paths dir [] = []
wal_paths dir ((name, regular) ∷ listing) =
    if is_wal_file (name, regular)
    then (dir ++ (47 ∷ name)) ∷ wal_paths dir listing
    else wal_paths dir listing

-- `std::ifstream stream(path, std::ios::in | std::ios::binary)`
unfoldable pub open_read : (FilePath → Bool) → Files → FilePath → Input
open_read opens files path =
    if opens path
    then reading (contents files path)
    else record { is_open = false; rest = []; eof = false; failed = true }

module _ {A : Type 0} (reply : A → Entry (List Field) Field → A) where
  abbrev pub replied : A → Option (Entry (List Field) Field) → A
  replied a none = a
  replied a (some e) = reply a e

  -- The loop over the records of a stream; `none` where the fuel is used up.
  pub load_stream : ℕ → A → Method Input (Option A)
  load_stream zero a s = returned none s
  load_stream (suc fuel) a s = elim (is_good s) [
    | false ↦ returned (some a) s
    | true ↦ (read_record >>= λ entry. load_stream fuel (replied a entry)) s
  ]

  -- The stream goes out of scope.
  abbrev pub loaded : Outcome Input (Option A) → Result A
  loaded (returned (some a) s) = given a
  loaded (returned none s) = faulted
  loaded (thrown s) = raised
  loaded crashed = faulted

  unfoldable pub load_file : (FilePath → Bool) → Files → A → FilePath → Result A
  load_file opens files a path =
      let stream = open_read opens files path in
      loaded (load_stream (length stream.rest + 2) a stream)

  -- The loop over the files.
  unfoldable pub load_files : (FilePath → Bool) → Files → A → List FilePath → Result A
  load_files opens files a [] = given a
  load_files opens files a (path ∷ paths) =
      Field.◌>>=◌ (load_file opens files a path) λ a'. load_files opens files a' paths

  -- `loadAll(replyFn)` with what `replyFn` has made of the entries.
  unfoldable pub load_all_with :
      (FilePath → Bool) → Files → FilePath → List (FilePath × Bool) → A → Result A
  load_all_with opens files dir listing a = load_files opens files a (wal_paths dir listing)

-- `loadAll()`; `sort` is `std::ranges::sort` by the time stamps.
unfoldable pub load_all :
    (List (Entry (List Field) Field) → List (Entry (List Field) Field))
    → (FilePath → Bool)
    → Files
    → FilePath
    → List (FilePath × Bool)
    → Result (List (Entry (List Field) Field))
load_all sort opens files dir listing =
    Field.◌>>=◌ (load_all_with (λ entries e. entries ++ (e ∷ [])) opens files dir listing [])
      λ entries. given (sort entries)
