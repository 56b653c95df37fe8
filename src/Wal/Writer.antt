-- ===== src/Wal/Writer.antt =====
-- lib/wal/wal_writer.hpp and wal_writer.cpp: the writer of one sequence of files. Every operation
-- holds the lock of the writer from its first statement to its last one and is one step.
pub mod Names
pub mod Rotation
pub mod Safety
pub mod Durability
pub mod Ownership
use enigma_db.Base.{
  ℕ, zero, suc, ◌+◌, ◌-◌, ◌/◌, ◌%◌, ◌^◌, ltb, leb, Bool, true, false, Option, none, some, List, [],
  ◌∷◌, ◌++◌, length, replicate, if◌then◌else◌,
}
use enigma_db.Base.Decimal.{to_string}
use enigma_db.Outcome.{Outcome, returned, thrown, crashed, Method, ◌>>=◌}
use enigma_db.Field.Codec.{Field}
use enigma_db.Entry.{Entry}
use enigma_db.Wal.Streams.{FilePath, Files, Output, open_append}
use enigma_db.Wal.Streams as Streams
use enigma_db.Wal.Codec.{FlushMode, write_record}

-- `seg_` is the `id` of the handle; the reference to the engine is a parameter where it is used.
pub record Writer : Type 0 where
  pub writer_id : ℕ
  pub wal_dir : FilePath
  pub current_out_stream : Output
  pub seg : ℕ
  pub max_file_size : ℕ
  pub current_file_number : ℕ
  pub current_file_size : ℕ

-- `std::setw(8) << std::setfill('0')`
unfoldable pub padded : List ℕ → List ℕ
padded text = replicate (8 - length text) 48 ++ text

-- The part of `filePath` behind the directory.
unfoldable pub file_name : ℕ → ℕ → FilePath
file_name writer_id file_id =
    (119 ∷ 95 ∷ [])
    ++ (to_string writer_id
        ++ ((95 ∷ []) ++ (padded (to_string file_id) ++ (46 ∷ 119 ∷ 97 ∷ 108 ∷ []))))

unfoldable pub file_path : Writer → ℕ → FilePath
file_path w file_id = w.wal_dir ++ (47 ∷ file_name w.writer_id file_id)

-- `stat` gives the size, or `none` where it fails.
pub get_file_size : (FilePath → Option ℕ) → FilePath → ℕ
get_file_size stat path = elim (stat path) [ none ↦ 0 | some size ↦ size ]

-- `init`, which returns true on every way: no stream is opened. `open_segment` is that of the engine,
-- which returns a handle, asked for the segment "1" of "wal". It is a parameter because the source
-- gives no engine: nothing initializes the reference `engine_`, and the class does not compile.
unfoldable pub init : (FilePath → FilePath → ℕ) → Writer → Writer
init open_segment w = record w {
  current_file_number = 1;
  seg = open_segment (119 ∷ 97 ∷ 108 ∷ []) (49 ∷ []);
}

-- The constructor, in a directory with these files.
unfoldable pub new : (FilePath → FilePath → ℕ) → Files → ℕ → FilePath → ℕ → Writer
new open_segment files writer_id wal_dir max_file_size = init open_segment (record {
  writer_id = writer_id;
  wal_dir = wal_dir;
  current_out_stream = record { path = none; good = true; buffer = []; files = files };
  seg = 0;
  max_file_size = max_file_size;
  current_file_number = 0;
  current_file_size = 0;
})

abbrev pub on_stream : (Output → Output) → Writer → Writer
on_stream f w = record w { current_out_stream = f w.current_out_stream }

unfoldable pub flush : Method Writer (Unit {0})
flush w = returned tt (on_stream Streams.flush w)

-- `if (is_open()) { flush(); close(); }`
pub close_stream : Output → Output
close_stream o = elim o.path [ none ↦ o | some path ↦ Streams.close (Streams.flush o) ]

unfoldable pub close : Method Writer (Unit {0})
close w = returned tt (on_stream close_stream w)

module _ (opens : FilePath → Bool) where
  -- The number is counted up in 32 bits before the file is opened.
  pub rotate : Method Writer (Unit {0})
  rotate w =
      let number = (w.current_file_number + 1) % 2 ^ 32 in
      let stream = open_append opens (file_path w number) (close_stream w.current_out_stream) in
      let w' = record w { current_out_stream = stream; current_file_number = number } in
      if stream.good then returned tt (record w' { current_file_size = 0 }) else thrown w'

  -- What follows the record of `written` bytes.
  unfoldable pub count : ℕ → Method Writer Bool
  count written w =
      let size = (w.current_file_size + written) % 2 ^ 64 in
      let w' = record w { current_file_size = size } in
      if leb w.max_file_size size then (rotate >>= λ done. returned true) w' else returned true w'

  unfoldable pub append : Entry (List Field) Field → FlushMode → Method Writer Bool
  append e mode w = elim (write_record mode e w.current_out_stream) [
    | returned written stream ↦ count written (record w { current_out_stream = stream })
    | thrown stream ↦ thrown (record w { current_out_stream = stream })
    | crashed ↦ crashed
  ]

pub get_current_file_number : Writer → ℕ
get_current_file_number w = w.current_file_number

pub is_stream_good : Writer → Bool
is_stream_good w = w.current_out_stream.good
