-- ===== src/Bytes/Strings.antt =====
-- Strings, and the patching of an integer in place, in lib/utils/byte_parser.cpp.
use enigma_db.Base.{
  ℕ, zero, suc, ◌+◌, ◌*◌, ◌/◌, ◌%◌, ◌^◌, ◌≤◌, ◌<◌, ◌≡◌, refl, ◌∙◌, sym, ap, bit_and, bit_or, none,
  some, List, [], ◌∷◌, ◌++◌, arith, length, get_elem?, set, get_elem?-past, take, drop,
  length-append, drop-append, take-append, append_assoc,
}
use native.Mathlib.Decide.{dec_lt}
use enigma_db.Outcome.{returned, crashed, >>=-returned}
use enigma_db.Bytes.{
  read_byte, read_uint16, ByteParser, advance, write_uint16, write_uint64, write_loop, read_uint64,
  read_loop, patch_loop, patch_uint64, write_string, read_bytes, read_string,
}
use enigma_db.Bytes.Reads.{at, behind, Reads}
use enigma_db.Bytes.Integers.{bytes_of}
use enigma_db.Bytes.RoundTrip.{read_uint16-write_uint16, read_uint16_lem, write_uint16_lem}

set-append :
    (xs : List ℕ) (y : ℕ) (ys : List ℕ) (v : ℕ)
    → set (xs ++ (y ∷ ys)) (length xs) v ≡ xs ++ (v ∷ ys)
set-append [] y ys v = refl
set-append (x ∷ xs) y ys v = ap (λ t. x ∷ t) (set-append xs y ys v)

get_elem?-append :
    (xs : List ℕ) (y : ℕ) (ys : List ℕ) → get_elem? (xs ++ (y ∷ ys)) (length xs) ≡ some y
get_elem?-append [] y ys = refl
get_elem?-append (x ∷ xs) y ys = get_elem?-append xs y ys

read_bytes_lem :
    (before s rest : List ℕ) (n : ℕ)
    → read_bytes (length s) (at before (s ++ rest) n) ≡ returned s (at (before ++ s) rest n)
read_bytes_lem before s rest n =
    let fits : length before + length s ≤ length (before ++ (s ++ rest)) =
      omega (arith, length-append before (s ++ rest), length-append s rest) in
    let got : take (length s) (drop (length before) (before ++ (s ++ rest))) ≡ s =
      ap (take (length s)) (drop-append before (s ++ rest)) ∙ take-append s rest in
    ground (
      arith,
      fits,
      ap (λ t. returned t (advance (length s) (at before (s ++ rest) n))) got
          ∙ ap (returned s) (behind before s rest n (length s) refl),
    )

pub write_string_lem :
    (out s : List ℕ)
    → length s < 2 ^ 16
    → write_string out s ≡ some (write_uint16 out (length s) ++ s)
unfolding write_string
write_string_lem out s h =
    let short : length s % 2 ^ 16 ≡ length s = omega arith in rw short (ground arith)

-- The size of a string and its bytes.
abbrev pub string_bytes : List ℕ → List ℕ
string_bytes s = bytes_of 2 (length s) ++ s

pub write_string-string_bytes :
    (out s : List ℕ) → length s < 2 ^ 16 → write_string out s ≡ some (out ++ string_bytes s)
write_string-string_bytes out s h =
    write_string_lem out s h
    ∙ ap (λ t. some (t ++ s)) (write_uint16_lem out (length s))
    ∙ ap some (append_assoc out (bytes_of 2 (length s)) s)

read_bytes-Reads : (s : List ℕ) → Reads (read_bytes (length s)) s s
read_bytes-Reads s before rest n _ = read_bytes_lem before s rest n

read_string_lem :
    (s : List ℕ)
    → length s < 2 ^ 16
    → (before rest : List ℕ) (n : ℕ)
    → read_string (at before (string_bytes s ++ rest) n)
      ≡ returned s (at (before ++ string_bytes s) rest n)
unfolding read_string
read_string_lem s h before rest n =
    let bs = bytes_of 2 (length s) in
    rw (append_assoc bs s rest, ← append_assoc before bs s)
      (>>=-returned read_uint16 read_bytes (read_uint16_lem (length s) h before (s ++ rest) n)
        ∙ read_bytes_lem (before ++ bs) s rest n)

pub read_string-Reads : (s : List ℕ) → length s < 2 ^ 16 → Reads read_string s (string_bytes s)
read_string-Reads s h before rest n _ = read_string_lem s h before rest n

pub read_byte-Reads : (b : ℕ) → Reads read_byte b (b ∷ [])
unfolding read_byte
read_byte-Reads b before rest n _ =
    rw (get_elem?-append before b rest, read_byte)
      (ap (returned b) (behind before (b ∷ []) rest n 1 refl))

-- `writeString` appends a string of at most 65535 bytes to any vector, in two bytes more than it has,
-- and `readString` in front of them, whatever follows, returns the string and stands behind it.
pub read_string-write_string :
    (out s rest : List ℕ) (n : ℕ)
    → length s < 2 ^ 16
    → (bs : List ℕ) × (write_string out s ≡ some (out ++ bs))
      × (length bs ≡ length s + 2)
      × (read_string (at out (bs ++ rest) n) ≡ returned s (at (out ++ bs) rest n))
read_string-write_string out s rest n h =
    (string_bytes s, write_string-string_bytes out s h, omega arith, read_string_lem s h out rest n)

-- The patching loop writes over what the writing loop would append.
patch_loop_lem :
    (n i : ℕ) (out old rest : List ℕ) (offset v : ℕ)
    → length old ≡ n
    → length out ≡ offset + i
    → patch_loop n i (out ++ (old ++ rest)) offset v ≡ some (write_loop n i out v ++ rest)
unfolding patch_loop write_loop
patch_loop_lem zero i out [] rest offset v e k = refl
patch_loop_lem zero i out (b ∷ old) rest offset v e k = absurd (omega arith)
patch_loop_lem (suc n) i out [] rest offset v e k = absurd (omega arith)
patch_loop_lem (suc n) i out (b ∷ old) rest offset v e k =
    let byte = bit_and (v / 2 ^ (8 * i)) 0xff in
    let found : get_elem? (out ++ (b ∷ (old ++ rest))) (offset + i) ≡ some b =
      rw (← k) (get_elem?-append out b (old ++ rest)) in
    let stored : set (out ++ (b ∷ (old ++ rest))) (offset + i) byte
        ≡ (out ++ (byte ∷ [])) ++ (old ++ rest) =
      rw (← k)
        (set-append out b (old ++ rest) byte ∙ sym (append_assoc out (byte ∷ []) (old ++ rest))) in
    let more =
      patch_loop_lem n (i + 1) (out ++ (byte ∷ [])) old rest offset v (omega arith)
        (omega (arith, length-append out (byte ∷ []))) in
    rw (found, patch_loop) (rw (stored, patch_loop) more)

-- `patchUint64` over eight bytes that are there leaves what `writeUint64` would have written in
-- their place, and the bytes before and behind them.
pub patch_uint64-write_uint64 :
    (out old rest : List ℕ) (value : ℕ)
    → length old ≡ 8
    → patch_uint64 (out ++ (old ++ rest)) (length out) value ≡ some (write_uint64 out value ++ rest)
unfolding patch_uint64 write_uint64
patch_uint64-write_uint64 out old rest value e =
    patch_loop_lem 8 0 out old rest (length out) value e (omega arith)

get_elem?-within : (xs : List ℕ) (k : ℕ) → k < length xs → (x : ℕ) × (get_elem? xs k ≡ some x)
get_elem?-within [] k h = absurd (omega arith)
get_elem?-within (x ∷ xs) zero h = (x, refl)
get_elem?-within (x ∷ xs) (suc k) h = get_elem?-within xs k (omega arith)

read_loop_past :
    (n i w : ℕ) (bytes : List ℕ) (cursor result : ℕ)
    → length bytes < cursor + (i + n)
    → 0 < n
    → read_loop n i w bytes cursor result ≡ none
unfolding read_loop
read_loop_past zero i w bytes cursor result h k = absurd (omega arith)
read_loop_past (suc n) i w bytes cursor result h k = elim (dec_lt (cursor + i) (length bytes)) [
  | no past ↦ rw (get_elem?-past bytes (cursor + i) (omega arith), read_loop) refl
  | yes within ↦
      let (b, found) = get_elem?-within bytes (cursor + i) within in
      rw (found, read_loop)
        (read_loop_past n (i + 1) w bytes cursor (bit_or result (b * 2 ^ (i * 8) % 2 ^ w))
          (omega arith) (omega arith))
]

-- With fewer than eight bytes in front of the cursor `readUint64` reads past the end, whatever
-- length the parser was told.
pub read_uint64_past : (p : ByteParser) → length p.bytes < p.cursor + 8 → read_uint64 p ≡ crashed
unfolding read_uint64
read_uint64_past p h =
    rw (read_loop_past 8 0 64 p.bytes p.cursor 0 h (omega arith), read_uint64) refl

-- `readString` on a size that goes beyond the bytes reads past the end, whatever length the parser
-- was told.
pub read_string_past :
    (before rest : List ℕ) (size n : ℕ)
    → size < 2 ^ 16
    → length rest < size
    → read_string
        (record { bytes = write_uint16 before size ++ rest; cursor = length before; length = n })
      ≡ crashed
unfolding read_string
read_string_past before rest size n h k =
    let (bs, writes, two, reads) = read_uint16-write_uint16 before size rest n h in
    let short : length ((before ++ bs) ++ rest) < length (before ++ bs) + size =
      omega (arith, length-append (before ++ bs) rest) in
    let past : read_string (at before (bs ++ rest) n) ≡ crashed = ground (arith, reads, short) in
    rw (writes, append_assoc before bs rest) past
