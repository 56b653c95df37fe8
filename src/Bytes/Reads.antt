-- ===== src/Bytes/Reads.antt =====
-- A method of the parser of lib/utils/byte_parser.cpp in front of bytes that it understands: what it
-- returns, and that it then stands behind them.
use enigma_db.Base.{
  ℕ, ◌+◌, ◌≤◌, ◌≡◌, refl, ◌∙◌, sym, ap, List, [], ◌++◌, arith, length, length-append, append_assoc,
  append-nil,
}
use enigma_db.Outcome.{returned, Method, ◌>>=◌, >>=-returned}
use enigma_db.Bytes.{ByteParser, advance}

-- A parser that has read `before` and has `rest` in front of it.
abbrev pub at : List ℕ → List ℕ → ℕ → ByteParser
at before rest n = record { bytes = before ++ rest; cursor = length before; length = n }

pub behind :
    (before bs rest : List ℕ) (n k : ℕ)
    → length bs ≡ k
    → advance k (at before (bs ++ rest) n) ≡ at (before ++ bs) rest n
behind before bs rest n k e =
    ap (λ t. record { bytes = t; cursor = length before + k; length = n })
      (sym (append_assoc before bs rest))
    ∙ ap (λ t. record { bytes = (before ++ bs) ++ rest; cursor = t; length = n })
        (omega (arith, length-append before bs))

-- With the bytes in front of it, whatever follows, the method returns the value and the parser then
-- stands behind them, if it was told at least the length up to there.
abbrev pub Reads : {A : Type 0} → Method ByteParser A → A → List ℕ → Type 0
Reads read a bs =
    (before rest : List ℕ) (n : ℕ)
    → length before + length bs ≤ n
    → read (at before (bs ++ rest) n) ≡ returned a (at (before ++ bs) rest n)

pub returned-Reads : {A : Type 0} (a : A) → Reads (returned a) a []
returned-Reads a before rest n long = rw (append-nil before) refl

pub bind-Reads :
    {A B : Type 0} (read : Method ByteParser A) (more : A → Method ByteParser B) (a : A) (b : B)
    (bs cs : List ℕ)
    → Reads read a bs
    → Reads (more a) b cs
    → Reads (read >>= more) b (bs ++ cs)
bind-Reads read more a b bs cs first second before rest n long =
    let enough : length before + length bs ≤ n = omega (arith, length-append bs cs) in
    let enough' : length (before ++ bs) + length cs ≤ n =
      omega (arith, length-append bs cs, length-append before bs) in
    rw (append_assoc bs cs rest, ← append_assoc before bs cs)
      (>>=-returned read more (first before (cs ++ rest) n enough)
        ∙ second (before ++ bs) rest n enough')

pub map-Reads :
    {A B : Type 0} (read : Method ByteParser A) (f : A → B) (a : A) (bs : List ℕ)
    → Reads read a bs
    → Reads (read >>= λ x. returned (f x)) (f a) bs
map-Reads read f a bs reads before rest n long =
    >>=-returned read (λ x. returned (f x)) (reads before rest n long)
