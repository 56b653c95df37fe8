-- ===== src/Lib.antt =====
-- A model of EnigmaDB's in-memory store, its write-ahead log and the formats below them.
--
-- The program keeps the rows of a table as entries. A client's entry goes to the `MemTableManager`,
-- which has one active `MemTable` and a queue of frozen ones; when the active table is full it is
-- frozen and a new one takes its place. A `MemTable` keeps its entries in an AVL tree behind a
-- readers-writer lock, and every entry is stamped by a `TimestampGenerator`. Integers are written with
-- the varint codec or by the byte parser, and what is stored is guarded by a checksum. The
-- `WALManager` has a pool of `WALWriter`s, each of which appends serialized entries as records to the
-- last one of its files; `loadAll` reads the entries of all the files back.
--
-- Files and what they model:
--   Base       lists, options, strings, bits and machine arithmetic that the parts share; Base/Int
--              is the range of a C++ `int` that goes below zero, Base/Decimal std::to_string
--   Text       the text of numbers, times and UUIDs that lib/datatypes prints; a double has the six
--              decimals of `%f`
--   Vint       lib/utils/vint/vint.hpp: putVarint32, putVarint64, getVarint32, getVarint64. A vector
--              of bytes is a list; the pointer that a getter returns is the rest of the list
--   Ordered    what AVLTree<T> asks of `std::less<T>` and `==`, and sequences in their order
--   Scalars    the built-in comparisons that lib/datatypes/comparator.hpp uses, on bits
--   SortedList the abstract view of a tree: a sorted list with `upsert`, `erase` and `find`
--   Avl        lib/abstract/avl.hpp: Node and AVLTree, the stored heights and size_ included. `none`
--              is a null pointer that is dereferenced, or a throw. Avl/Reference is the private
--              findNodeRef, Avl/Printing inorder
--   Timestamp  lib/abstract/timestamp_generator.cpp: TimestampGenerator::next
--   Entry      lib/entry/entry.hpp: Entry, its constructor, `<` and `==`; Entry/Codec is serialize and
--              deserialize of lib/entry/entry.cpp, Entry/Compare compareEntries and compareRowData, and
--              Entry/Printing `<<` and toHex. A Row is the list of its columns, in an order that the
--              source leaves to std::unordered_map
--   Outcome    what a call of a method does to its object; `crashed` is undefined behaviour
--   Memtable   lib/memtable/memtable.cpp: put, applyEntry, get, del, freeze, orderedEntries, size
--   Manager    lib/memtable/memtable_manager.cpp: apply, maybeRotate, get, flushOldestFrozen
--   Bytes      lib/utils/byte_parser.cpp: the little-endian integers, strings, patching. `crashed` is a
--              read or a write past the end
--   Crc        lib/utils/crypto_utils.cpp: both overloads of computeCRC32, and crc32Table
--   Field      lib/datatypes: the built-in descriptors and TypeRegistry, over FieldType, FieldValue and
--              the serializers in Field/Values; Field/Codec is Field of field.hpp and field.cpp,
--              Field/Parser the fields and keys of lib/utils/byte_parser.cpp, Field/Uuid types/uuid.hpp.
--              Integers and doubles are the numbers their bits make, on a little-endian machine; a Key is
--              the list of its parts
--   Keys       lib/entry/key.hpp and key.cpp: `<`, `==` and toString of keys, buildKeyFromRow
--   Wal        lib/wal: Wal/Codec is writeRecord and readRecord of wal_codec.hpp, Wal/Writer the
--              WALWriter of wal_writer.hpp and wal_writer.cpp, Wal/Manager the WALManager of
--              wal_manager.hpp and wal_manager.cpp, and Wal/Load its loadAll. Wal/Streams is what they
--              use of <fstream>, over the files of a directory; Wal/Log says which entries a file
--              holds, and Wal/Holding which the directory holds, up to their order. Wal/Manager/Complete
--              has the runs of the pool: calls of any threads one after the other, in which the flush
--              thread and `close` take one step for each writer
--   Compression  lib/compression: the interface of a compressor, NOOPCompressor and LZ4Compressor
-- Below a part, the files named Laws, Order, Get and the like hold its theorems, and Runs its tests.
--
-- Bounds and fuel. A `uint32_t` or `uint64_t` is a natural number with its wrap-around written
-- out. The loops of the varint codec have the fuel of their own bounds, 5 and 10. `next` runs on
-- fuel: 65536 rounds are enough whenever any number of rounds is. The other loops over bytes have
-- the fuel of their own bounds as well. The tree's functions are structural on the tree. `size_`
-- and the differences of heights are integers without a bound: a tree with more than 2 ^ 31 - 1
-- nodes is out of the model.
--
-- The loop of `loadAll` over the records of a file has two rounds more than the file has bytes, and a
-- round takes five bytes or ends the loop.
--
-- What the program calls and does not hold is a parameter: the engine that opens a segment, which files
-- the system lets the process open, the list of a directory in the system's order, the size that `stat`
-- gives, the hash of a thread, the sort of the standard library, and the functions of LZ4. A stream
-- keeps what is written in its buffer until it is flushed or closed; that the library passes some of
-- it on before, at any point, is a step of its own, `spill`, in the runs of a writer whose appends do
-- not flush (Wal/Writer/Safety). Writing to an open file does not fail.
--
-- The store's keys and field values are types K and F with an order on K, of which Keys/Order has an
-- instance for the keys of a table. Allocation does not fail. Calls of one object are taken one after
-- the other; the lock of a MemTable is in the state because a call takes it twice, which is undefined
-- when it is held exclusively, and the lock of a writer is free when a call begins. The reference
-- engine_ of a WALWriter, which no constructor initializes, so that the class does not compile as it
-- stands, is an argument of the model's constructor; the stream that no constructor opens is as in the
-- source. Nothing sets the active table of a MemTableManager: Manager/Reached has the states that its
-- calls lead to, and Manager/Laws says what they would do with one. `printTree`, which calls an
-- overload that is not declared, logging, the I/O engines and the sorted string tables, which have no
-- bodies yet, are not modelled.
pub mod Base
pub mod Vint
pub mod Ordered
pub mod Scalars
pub mod SortedList
pub mod Avl
pub mod Timestamp
pub mod Entry
pub mod Outcome
pub mod Memtable
pub mod Manager
pub mod Bytes
pub mod Crc
pub mod Text
pub mod Field
pub mod Keys
pub mod Wal
pub mod Compression
