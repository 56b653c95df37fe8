-- ===== src/Field/Parser/Written.antt =====
-- A writer of lib/utils/byte_parser.cpp and the reader of what it writes, as a pair that can be
-- composed.
use enigma_db.Base.{ℕ, ◌+◌, ◌≡◌, ◌∙◌, ap, List, ◌++◌, length, length-append, append_assoc, arith}
use enigma_db.Outcome
use enigma_db.Outcome.{Method}
use enigma_db.Bytes.{ByteParser}
use enigma_db.Bytes.Reads.{Reads, bind-Reads}
use enigma_db.Field.{Result, given, ◌>>=◌}

-- The writer appends `bytes` to every vector, and the reader returns `a` in front of them.
pub record Written {A : Type 0} (write : List ℕ → Result (List ℕ)) (read : Method ByteParser A)
    (a : A) (size : ℕ) : Type 0 where
  pub bytes : List ℕ
  pub writes : (out : List ℕ) → write out ≡ given (out ++ bytes)
  pub counts : length bytes ≡ size
  pub reads : Reads read a bytes

pub bind-Written :
    {A B : Type 0} (write write' : List ℕ → Result (List ℕ)) (read : Method ByteParser A)
    (more : A → Method ByteParser B) (a : A) (b : B) (n m : ℕ)
    → Written write read a n
    → Written write' (more a) b m
    → Written (λ out. write out >>= write') (Outcome.◌>>=◌ read more) b (n + m)
bind-Written write write' read more a b n m w w' = record {
  bytes = w.bytes ++ w'.bytes;
  writes = λ out.
      rw (w.writes out) (w'.writes (out ++ w.bytes) ∙ ap given (append_assoc out w.bytes w'.bytes));
  counts = omega (arith, length-append w.bytes w'.bytes, w.counts, w'.counts);
  reads = bind-Reads read more a b w.bytes w'.bytes w.reads w'.reads;
}
