-- ===== src/Wal/Load/Cut.antt =====
-- The beginning of a log of lib/wal: the records that are whole, and what is left of the next one.
use enigma_db.Base.{
  ℕ, ◌≡◌, refl, ◌∙◌, sym, ap, List, [], ◌∷◌, ◌++◌, arith, length, append_assoc, split-append,
}
use native.Mathlib.Decide.{dec_lt}
use enigma_db.Entry.Codec.Body.{Stored}
use enigma_db.Wal.Codec.Records.{frame}
use enigma_db.Wal.Log.{Log, empty, record_of}
use enigma_db.Wal.Load.Recovery.{Tail, nothing, torn}

-- The first bytes of a log of the entries: the records of the first entries, and at most the
-- beginning of a record.
pub record Cut (es : List Stored) (first : List ℕ) : Type 0 where
  pub kept : List Stored
  pub lost : List Stored
  pub bytes : List ℕ
  pub tail : List ℕ
  pub entries : es ≡ kept ++ lost
  pub stored : first ≡ bytes ++ tail
  pub log : Log kept bytes
  pub behind : Tail tail

append-nil_inverse : (xs ys : List ℕ) → xs ++ ys ≡ [] → xs ≡ []
append-nil_inverse [] ys e = refl
append-nil_inverse (x ∷ xs) ys e = absurd (cc e)

pub Log-Cut :
    {es : List Stored} {all : List ℕ} (first rest : List ℕ)
    → Log es all
    → first ++ rest ≡ all
    → Cut es first
Log-Cut first rest empty e = record {
  kept = [];
  lost = [];
  bytes = [];
  tail = [];
  entries = refl;
  stored = append-nil_inverse first rest e;
  log = empty;
  behind = nothing;
}
Log-Cut first rest (record_of {e = entry} {es} {bytes} w l) e =
    elim (dec_lt (length first) (length (frame w.payload))) [
      | yes short ↦
          let (more, whole, _) =
            split-append (frame w.payload) bytes first rest (sym e) (omega arith) in
          record {
            kept = [];
            lost = entry ∷ es;
            bytes = [];
            tail = first;
            entries = refl;
            stored = refl;
            log = empty;
            behind = torn w (record { lost = more; whole = sym whole; missing = short });
          }
      | no long ↦
          let (more, front, back) =
            split-append first rest (frame w.payload) bytes e (omega arith) in
          let c = Log-Cut more rest l back in
          record {
            kept = entry ∷ c.kept;
            lost = c.lost;
            bytes = frame w.payload ++ c.bytes;
            tail = c.tail;
            entries = ap (λ t. entry ∷ t) c.entries;
            stored =
                front
                ∙ ap (λ t. frame w.payload ++ t) c.stored
                ∙ sym (append_assoc (frame w.payload) c.bytes c.tail);
            log = record_of w c.log;
            behind = c.behind;
          }
    ]
