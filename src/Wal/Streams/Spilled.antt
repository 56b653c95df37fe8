-- ===== src/Wal/Streams/Spilled.antt =====
-- The files of a directory under an output stream of lib/wal that may pass bytes of its buffer on by
-- itself: what a file holds together with what the buffer still holds for it.
use enigma_db.Base.{
  ℕ, zero, suc, ◌≡◌, refl, ◌∙◌, sym, ap, inl, inr, Bool, true, false, Option, none, some, List, [],
  ◌∷◌, ◌++◌, take, drop, append-nil, append_assoc, Bool-cases, if◌then◌else◌,
}
use mathlib.Core.Path.{subst}
use enigma_db.Base.Strings.{same_bytes, same_bytes→≡}
use enigma_db.Wal.Streams.{
  FilePath, Files, contents, extend, Output, write, sync, flush, close, open_append, spill,
}
use enigma_db.Wal.Streams.Directory.{contents-opened}

take_append_drop : (n : ℕ) (xs : List ℕ) → take n xs ++ drop n xs ≡ xs
take_append_drop zero xs = refl
take_append_drop (suc n) [] = refl
take_append_drop (suc n) (x ∷ xs) = ap (λ t. x ∷ t) (take_append_drop n xs)

-- What the buffer holds for a file.
abbrev pub pending : Option FilePath → List ℕ → FilePath → List ℕ
pending none buffer q = []
pending (some path) buffer q = if same_bytes path q then buffer else []

-- A stream without a file has nothing in its buffer.
abbrev pub IsIdle : Option FilePath → List ℕ → Type 0
IsIdle none buffer = buffer ≡ []
IsIdle (some path) buffer = Unit

same_file : (r path q : FilePath) → same_bytes r path ≡ true → same_bytes path q ≡ same_bytes r q
same_file r path q here = ap (λ p. same_bytes p q) (sym (same_bytes→≡ r path here))

other_file :
    (r path q : FilePath)
    → same_bytes r path ≡ false
    → same_bytes r q ≡ true
    → same_bytes path q ≡ false
other_file r path q there same = elim (Bool-cases (same_bytes path q)) [
  | inr other ↦ other
  | inl also ↦
      let back : same_bytes r path ≡ true =
        ap (λ p. same_bytes r p) (same_bytes→≡ path q also) ∙ same in
      absurd (cc (there, back))
]

contents-extend-pending :
    (files : Files) (path more q : FilePath)
    → contents (extend files path more) q ≡ contents files q ++ pending (some path) more q
unfolding contents extend
contents-extend-pending [] path more q = elim (Bool-cases (same_bytes path q)) [
  | inl same ↦ rw same refl
  | inr other ↦ rw other refl
]
contents-extend-pending ((r, bytes) ∷ files) path more q = elim (Bool-cases (same_bytes r path)) [
  | inl here ↦ elim (Bool-cases (same_bytes r q)) [
    | inl same ↦ rw (here, same_file r path q here, same) refl
    | inr other ↦ rw (here, same_file r path q here, other) (sym (append-nil (contents files q)))
  ]
  | inr there ↦ elim (Bool-cases (same_bytes r q)) [
    | inl same ↦ rw (there, same, other_file r path q there same) (sym (append-nil bytes))
    | inr other ↦ rw (there, other) (contents-extend-pending files path more q)
  ]
]

pending-append :
    (path as' bs q : FilePath)
    → pending (some path) as' q ++ pending (some path) bs q ≡ pending (some path) (as' ++ bs) q
pending-append path as' bs q = elim (Bool-cases (same_bytes path q)) [
  | inl same ↦ rw same refl
  | inr other ↦ rw other refl
]

-- What stands in every file, with what is in the buffer for it.
pub record Whole (P : List ℕ → Type 0) (o : Output) : Type 0 where
  pub whole : (q : FilePath) → P (contents o.files q ++ pending o.path o.buffer q)
  pub idle : IsIdle o.path o.buffer

abbrev output : Option FilePath → Bool → List ℕ → Files → Output
output path good buffer files = record { path = path; good = good; buffer = buffer; files = files }

-- The buffer in two parts, the first of which goes into the file.
spilled_all :
    (files : Files) (path as' bs q : FilePath)
    → contents (extend files path as') q ++ pending (some path) bs q
      ≡ contents files q ++ pending (some path) (as' ++ bs) q
spilled_all files path as' bs q =
    ap (λ t. t ++ pending (some path) bs q) (contents-extend-pending files path as' q)
    ∙ append_assoc (contents files q) (pending (some path) as' q) (pending (some path) bs q)
    ∙ ap (λ t. contents files q ++ t) (pending-append path as' bs q)

module _ (P : List ℕ → Type 0) (join : (as' bs : List ℕ) → P as' → P bs → P (as' ++ bs)) where
  open_spill-Whole :
      (n : ℕ) (path : Option FilePath) (good : Bool) (buffer : List ℕ) (files : Files)
      → Whole P (output path good buffer files)
      → Whole P (spill n (output path good buffer files))
  unfolding spill
  open_spill-Whole n none good buffer files h = h
  open_spill-Whole n (some path) good buffer files h = record {
    whole = λ q.
        subst P
          (sym (
            spilled_all files path (take n buffer) (drop n buffer) q
            ∙ ap (λ t. contents files q ++ pending (some path) t q) (take_append_drop n buffer)))
          (h.whole q);
    idle = tt;
  }

  pub spill-Whole : (n : ℕ) (o : Output) → Whole P o → Whole P (spill n o)
  spill-Whole n o h = open_spill-Whole n o.path o.good o.buffer o.files h

  synced :
      (path : FilePath) (good : Bool) (buffer : List ℕ) (files : Files)
      → Whole P (output (some path) good buffer files)
      → (q : FilePath) → P (contents (extend files path buffer) q)
  synced path good buffer files h q =
      subst P (sym (contents-extend-pending files path buffer q)) (h.whole q)

  nothing_pending : (path q : FilePath) → pending (some path) [] q ≡ []
  nothing_pending path q = elim (Bool-cases (same_bytes path q)) [
    | inl same ↦ rw same refl
    | inr other ↦ rw other refl
  ]

  settled_whole :
      (path q : FilePath) (bytes : List ℕ) → P bytes → P (bytes ++ pending (some path) [] q)
  settled_whole path q bytes h =
      subst P (sym (ap (λ t. bytes ++ t) (nothing_pending path q) ∙ append-nil bytes)) h

  open_flush-Whole :
      (path : Option FilePath) (good : Bool) (buffer : List ℕ) (files : Files)
      → Whole P (output path good buffer files)
      → Whole P (flush (output path good buffer files))
  unfolding flush sync
  open_flush-Whole none good buffer files h = h
  open_flush-Whole (some path) true buffer files h = record {
    whole = λ q. settled_whole path q _ (synced path true buffer files h q);
    idle = tt;
  }
  open_flush-Whole (some path) false buffer files h = h

  pub flush-Whole : (o : Output) → Whole P o → Whole P (flush o)
  flush-Whole o h = open_flush-Whole o.path o.good o.buffer o.files h

  open_close-Whole :
      (path : Option FilePath) (good : Bool) (buffer : List ℕ) (files : Files)
      → Whole P (output path good buffer files)
      → Whole P (close (output path good buffer files))
  unfolding close sync
  open_close-Whole none good buffer files h = record { whole = h.whole; idle = h.idle }
  open_close-Whole (some path) good buffer files h = record {
    whole = λ q. subst P (sym (append-nil _)) (synced path good buffer files h q);
    idle = refl;
  }

  pub close-Whole : (o : Output) → Whole P o → Whole P (close o)
  close-Whole o h = open_close-Whole o.path o.good o.buffer o.files h

  written :
      (path : FilePath) (files : Files) (buffer bytes q : FilePath)
      → P bytes
      → P (contents files q ++ pending (some path) buffer q)
      → P (contents files q ++ pending (some path) (buffer ++ bytes) q)
  written path files buffer bytes q b h = elim (Bool-cases (same_bytes path q)) [
    | inl same ↦
        let h' : P (contents files q ++ buffer) =
          subst (λ c. P (contents files q ++ (if c then buffer else []))) same h in
        rw same (
          subst P (append_assoc (contents files q) buffer bytes)
            (join (contents files q ++ buffer) bytes h' b))
    | inr other ↦
        subst (λ c. P (contents files q ++ (if c then buffer ++ bytes else []))) (sym other)
          (subst (λ c. P (contents files q ++ (if c then buffer else []))) other h)
  ]

  open_write-Whole :
      (bytes : List ℕ) (path : Option FilePath) (good : Bool) (buffer : List ℕ) (files : Files)
      → P bytes
      → Whole P (output path good buffer files)
      → Whole P (write bytes (output path good buffer files))
  unfolding write
  open_write-Whole bytes none good buffer files b h = record { whole = h.whole; idle = h.idle }
  open_write-Whole bytes (some path) true buffer files b h = record {
    whole = λ q. written path files buffer bytes q b (h.whole q);
    idle = tt;
  }
  open_write-Whole bytes (some path) false buffer files b h = h

  pub write-Whole : (bytes : List ℕ) (o : Output) → P bytes → Whole P o → Whole P (write bytes o)
  write-Whole bytes o b h = open_write-Whole bytes o.path o.good o.buffer o.files b h

  open_append_cases :
      (opens : FilePath → Bool) (name : FilePath) (path : Option FilePath) (good : Bool)
      (buffer : List ℕ) (files : Files)
      → Whole P (output path good buffer files)
      → Whole P (open_append opens name (output path good buffer files))
  unfolding open_append
  open_append_cases opens name none good buffer files h = elim (Bool-cases (opens name)) [
    | inl opened ↦ rw opened (record {
      whole = λ q.
          subst P
            (ap (λ t. t ++ []) (sym (contents-opened files name q))
              ∙ ap (λ t. contents (extend files name []) q ++ t)
                  (sym (ap (λ b. pending (some name) b q) h.idle ∙ nothing_pending name q)))
            (h.whole q);
      idle = tt;
    })
    | inr refused ↦ rw refused (record { whole = h.whole; idle = h.idle })
  ]
  open_append_cases opens name (some path) good buffer files h = record {
    whole = h.whole;
    idle = h.idle;
  }

  pub open_append-Whole :
      (opens : FilePath → Bool) (name : FilePath) (o : Output)
      → Whole P o
      → Whole P (open_append opens name o)
  open_append-Whole opens name o h = open_append_cases opens name o.path o.good o.buffer o.files h
