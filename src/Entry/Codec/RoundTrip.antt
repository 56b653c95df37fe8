-- ===== src/Entry/Codec/RoundTrip.antt =====
-- `Entry::deserialize` of lib/entry/entry.cpp on what `Entry::serialize` gives.
use enigma_db.Base.{
  ℕ, ◌+◌, ◌-◌, ◌%◌, ◌^◌, ◌≤◌, ◌<◌, ◌≡◌, refl, ◌∙◌, sym, ap, ◌==◌, ltb, false, none, some, List, [],
  ◌++◌, arith, length, length-append, append_assoc, append-nil, if◌then◌else◌,
}
use mathlib.Core.Path.{subst}
use enigma_db.Bytes as Parser
use enigma_db.Bytes.{
  magic, write_magic_bytes, write_uint32, write_uint64, patch_uint64, read_uint64, read_uint32,
}
use enigma_db.Bytes.Reads.{Reads, at, bind-Reads}
use enigma_db.Bytes.Integers.{bytes_of, length-bytes_of}
use enigma_db.Bytes.RoundTrip.{
  write_uint32_lem, write_uint64_lem, read_uint32-Reads, read_uint64-Reads,
}
use enigma_db.Bytes.Strings.{patch_uint64-write_uint64}
use enigma_db.Crc.{compute_crc32}
use enigma_db.Crc.Agreement.{compute_crc32_vector-compute_crc32}
use enigma_db.Field.{given}
use enigma_db.Field.Codec.{Field}
use enigma_db.Entry.{Entry}
use enigma_db.Entry.Codec.{
  placeholder, serialize, read_body, verify, read_entry, result_of, deserialize,
}
use enigma_db.Entry.Codec.Body.{Stored, entry_of, IsStorable, body_size, body-Written}

-- The magic bytes, the size and the body.
abbrev guarded : ℕ → List ℕ → List ℕ
guarded total body = (magic ++ bytes_of 8 total) ++ body

patched_lem :
    (body : List ℕ) (total : ℕ)
    → patch_uint64 ((write_magic_bytes [] ++ placeholder) ++ body) 5 total
      ≡ some (guarded total body)
unfolding write_magic_bytes
patched_lem body total =
    patch_uint64-write_uint64 magic placeholder body total refl
    ∙ ap (λ t. some (t ++ body)) (write_uint64_lem magic total)

verify-Reads :
    (bytes : List ℕ) (total c : ℕ) (e : Entry (List Field) Field)
    → compute_crc32 bytes 0 ((total + 2 ^ 64 - 4) % 2 ^ 64) ≡ some c
    → Reads (verify bytes total e c) (some e) []
unfolding verify
verify-Reads bytes total c e same before rest n long =
    let accepted : (if c == c then some e else none) ≡ some e = ground arith in
    rw (same, verify) (rw (accepted, append-nil before) refl)

read_entry-Reads :
    (bytes body : List ℕ) (total c : ℕ) (e : Entry (List Field) Field)
    → total < 2 ^ 64
    → c < 2 ^ 32
    → Reads read_body (some e) body
    → compute_crc32 bytes 0 ((total + 2 ^ 64 - 4) % 2 ^ 64) ≡ some c
    → Reads (read_entry bytes) (some e) (bytes_of 8 total ++ (body ++ bytes_of 4 c))
unfolding read_entry
read_entry-Reads bytes body total c e small bound reads same =
    bind-Reads read_uint64 _ total _ (bytes_of 8 total) (body ++ bytes_of 4 c)
      (read_uint64-Reads total small)
      (bind-Reads read_body _ (some e) _ body (bytes_of 4 c) reads (
        bind-Reads read_uint32 (verify bytes total e) c _ (bytes_of 4 c) []
          (read_uint32-Reads c bound) (verify-Reads bytes total c e same)))

-- The magic bytes are recognised, and the parser starts behind them.
deserialize_lem :
    (tail : List ℕ) (size : ℕ)
    → deserialize (magic ++ tail) size
      ≡ result_of (read_entry (magic ++ tail) (at [] tail ((size + 2 ^ 64 - 5) % 2 ^ 64)))
unfolding deserialize Parser.new
deserialize_lem tail size =
    let long : ltb (length (magic ++ tail)) 5 ≡ false = ground arith in rw long refl

deserialize_guarded :
    (body rest : List ℕ) (total c : ℕ) (e : Entry (List Field) Field)
    → total < 2 ^ 64
    → c < 2 ^ 32
    → length (guarded total body) + 4 ≡ total
    → Reads read_body (some e) body
    → ((more : List ℕ)
        → compute_crc32 (guarded total body ++ more) 0 (length (guarded total body)) ≡ some c)
    → deserialize ((guarded total body ++ bytes_of 4 c) ++ rest) total ≡ given (some e)
deserialize_guarded body rest total c e small bound sized reads checks =
    let number = bytes_of 8 total in
    let tail = number ++ (body ++ bytes_of 4 c) in
    let shape : (guarded total body ++ bytes_of 4 c) ++ rest ≡ magic ++ (tail ++ rest) = refl in
    let behind : guarded total body ++ (bytes_of 4 c ++ rest) ≡ magic ++ (tail ++ rest) =
      sym (append_assoc (guarded total body) (bytes_of 4 c) rest) ∙ shape in
    let measured : length (guarded total body) ≡ (total + 2 ^ 64 - 4) % 2 ^ 64 = omega arith in
    let same : compute_crc32 (magic ++ (tail ++ rest)) 0 ((total + 2 ^ 64 - 4) % 2 ^ 64) ≡ some c =
      subst (λ t. compute_crc32 t 0 ((total + 2 ^ 64 - 4) % 2 ^ 64) ≡ some c) behind
        (subst (λ t. compute_crc32 (guarded total body ++ (bytes_of 4 c ++ rest)) 0 t ≡ some c)
          measured (checks (bytes_of 4 c ++ rest))) in
    let enough : 0 + length tail ≤ (total + 2 ^ 64 - 5) % 2 ^ 64 =
      omega (arith, sized, small, length-append body (bytes_of 4 c), length-bytes_of 4 c) in
    ap (λ t. deserialize t total) shape
    ∙ deserialize_lem (tail ++ rest) total
    ∙ ap result_of (
        read_entry-Reads (magic ++ (tail ++ rest)) body total c e small bound reads same [] rest
          ((total + 2 ^ 64 - 5) % 2 ^ 64) enough)

-- An entry of built-in values that fits the format is serialized into as many bytes as its size
-- says, and `deserialize` on them, whatever can be read behind them, gives back the entry.
pub deserialize-serialize_entry :
    (e : Stored) (rest : List ℕ)
    → IsStorable e
    → body_size e + 17 < 2 ^ 64
    → (bs : List ℕ) × (serialize (entry_of e) ≡ given bs)
      × (length bs ≡ body_size e + 17)
      × (deserialize (bs ++ rest) (length bs) ≡ given (some (entry_of e)))
unfolding serialize
deserialize-serialize_entry e rest ok small =
    let w = body-Written e ok in
    let total = body_size e + 17 in
    let sized : length (guarded total w.bytes) + 4 ≡ total = omega (arith, w.counts) in
    let (c, bound, vector, pointer) =
      compute_crc32_vector-compute_crc32 (guarded total w.bytes) (omega (arith, sized)) in
    let start = write_magic_bytes [] ++ placeholder in
    let counted : (length (start ++ w.bytes) + 4) % 2 ^ 64 ≡ total =
      unfold write_magic_bytes in omega (arith, w.counts) in
    let size : length (guarded total w.bytes ++ bytes_of 4 c) ≡ total =
      omega (arith, sized, length-append (guarded total w.bytes) (bytes_of 4 c)) in
    (
      guarded total w.bytes ++ bytes_of 4 c,
      rw (w.writes start, counted, patched_lem w.bytes total, vector)
          (ap given (write_uint32_lem (guarded total w.bytes) c)),
      size,
      rw size
          (deserialize_guarded w.bytes rest total c (entry_of e) small bound sized w.reads pointer),
    )
