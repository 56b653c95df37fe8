-- ===== src/Wal.antt =====
-- lib/wal: the write-ahead log. The output stream of a writer and the input stream of a load are
-- those of <fstream>: an output stream keeps what it is given until it is flushed or closed, and
-- devices do not fail, while the opening of a file may.
pub mod Streams
pub mod Codec
pub mod Log
pub mod Holding
pub mod Load
pub mod Writer
pub mod Manager
mod Samples
mod Runs
