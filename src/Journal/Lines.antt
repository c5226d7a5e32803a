-- ===== src/Journal/Lines.antt =====
-- Reading a journal back: whole records, a torn tail, and what is written after one.
use windy_public.Prelude.{
  ℕ, ◌≡◌, refl, sym, ap, ◌∙◌, Bool, false, ◌||◌, ◌&&◌, leb, none, List, [], ◌∷◌, ◌++◌, arith,
  append-nil, append_assoc, ◌==◌, map, true, take, length,
}
use windy_public.Journal.{
  JournalRecord, Codec, read_back, append_part, newline, has_newline, strip_cr, is_blank, last_line,
  lines_from, append, read_lines, read_all, write_all, truncate_through, after_seq,
}

or_false : (a b : Bool) → (a || b) ≡ false → (a ≡ false) × (b ≡ false)
or_false a b h = ground arith

take-length : (l : List ℕ) → take (length l) l ≡ l
take-length [] = refl
take-length (b ∷ bs) = ap (◌∷◌ b) (take-length bs)

-- A line without a newline in it is read up to the newline that ends it.
lines_from-append :
    (acc line rest : List ℕ)
    → has_newline line ≡ false
    → lines_from acc (line ++ newline ∷ rest) ≡ strip_cr (acc ++ line) ∷ lines_from [] rest
unfolding lines_from has_newline
lines_from-append acc [] rest h = rw append-nil
lines_from-append acc (b ∷ bs) rest h =
    let (hb, hbs) = or_false (b == newline) (has_newline bs) h in
    rw (hb, lines_from)
      (lines_from-append (acc ++ b ∷ []) bs rest hbs
        ∙ ap (λ l. strip_cr l ∷ lines_from [] rest) (append_assoc acc (b ∷ []) bs))

-- What stands after the last newline.
lines_from_last :
    (acc line : List ℕ) → has_newline line ≡ false → lines_from acc line ≡ last_line (acc ++ line)
unfolding lines_from has_newline
lines_from_last acc [] h = rw append-nil
lines_from_last acc (b ∷ bs) h =
    let (hb, hbs) = or_false (b == newline) (has_newline bs) h in
    rw (hb, lines_from)
      (lines_from_last (acc ++ b ∷ []) bs hbs ∙ ap last_line (append_assoc acc (b ∷ []) bs))

is_blank-append : (xs ys : List ℕ) → is_blank (xs ++ ys) ≡ (is_blank xs && is_blank ys)
unfolding is_blank
is_blank-append [] ys = refl
is_blank-append (x ∷ xs) ys = ground (arith, is_blank-append xs ys)

is_blank-strip_cr : (l : List ℕ) → is_blank (strip_cr l) ≡ is_blank l
unfolding is_blank strip_cr
is_blank-strip_cr [] = refl
is_blank-strip_cr (b ∷ []) = ground arith
is_blank-strip_cr (b ∷ c ∷ bs) =
    ap (λ r. (b == 32 || (leb 9 b && leb b 13)) && r) (is_blank-strip_cr (c ∷ bs))

has_newline-append : (xs ys : List ℕ) → has_newline (xs ++ ys) ≡ (has_newline xs || has_newline ys)
unfolding has_newline
has_newline-append [] ys = refl
has_newline-append (x ∷ xs) ys = ground (arith, has_newline-append xs ys)

module _ (codec : Codec) where
  open codec use {
    encode, decode, is_shallow, decode-encode, encode_one_line, encode_ends, encode_visible,
  }

  -- No record is nested too deeply to be read.
  abbrev pub AllShallow : List JournalRecord → Type 0
  AllShallow [] = Unit
  AllShallow (r ∷ rs) = (is_shallow r ≡ true) × AllShallow rs

  pub AllShallow-snoc :
      (rs : List JournalRecord) (r : JournalRecord)
      → AllShallow rs
      → is_shallow r ≡ true
      → AllShallow (rs ++ r ∷ [])
  AllShallow-snoc [] r a h = (h, tt)
  AllShallow-snoc (s ∷ rs) r a h = (a.0, AllShallow-snoc rs r a.1 h)

  -- One record's line, whatever follows.
  read_all-record :
      (r : JournalRecord) (rest : List ℕ)
      → is_shallow r ≡ true
      → read_all codec ((encode r ++ newline ∷ []) ++ rest) ≡ read_back r ∷ read_all codec rest
  unfolding read_all
  read_all-record r rest h = rw append_assoc (
      rw (lines_from-append [] (encode r) rest (encode_one_line r))
        (rw (encode_ends r) (rw (encode_visible r) (rw (decode-encode r h)))))

  read_all-write_all :
      (rs : List JournalRecord) (rest : List ℕ)
      → AllShallow rs
      → read_all codec (write_all codec rs ++ rest) ≡ map read_back rs ++ read_all codec rest
  unfolding write_all
  read_all-write_all [] rest h = refl
  read_all-write_all (r ∷ rs) rest (h, hs) = rw append_assoc (
      read_all-record r (write_all codec rs ++ rest) h
      ∙ ap (◌∷◌ (read_back r)) (read_all-write_all rs rest hs))

  read_all-nil : read_all codec [] ≡ []
  unfolding read_all
  read_all-nil = refl

  -- Reading a file of whole records, none nested too deeply to be read, gives those records in their
  -- order, except that a captured `Some(None)` (a stack variable that had no name, a function that had
  -- no memory card) has become `None`, also inside batches.
  pub read_all-written :
      (rs : List JournalRecord)
      → AllShallow rs
      → read_all codec (write_all codec rs) ≡ map read_back rs
  read_all-written rs h =
      ap (read_all codec) (sym (append-nil _))
      ∙ read_all-write_all rs [] h
      ∙ rw read_all-nil (append-nil (map read_back rs))

  pub write_all-append :
      (rs : List JournalRecord) (r : JournalRecord)
      → append codec (write_all codec rs) r ≡ write_all codec (rs ++ r ∷ [])
  unfolding append write_all
  write_all-append [] r = rw append-nil
  write_all-append (s ∷ rs) r =
      rw append_assoc (ap (◌++◌ (encode s ++ newline ∷ [])) (write_all-append rs r))

  -- A tail that a crash left: no newline ends it, it shows, and it is no record.
  abbrev pub IsTorn : List ℕ → Type 0
  IsTorn tail = (has_newline tail ≡ false) × (is_blank tail ≡ false) × (decode tail ≡ none)

  read_last :
      (line : List ℕ)
      → is_blank line ≡ false
      → decode line ≡ none
      → read_lines codec (last_line line) ≡ []
  unfolding read_lines last_line is_blank
  read_last [] v d = refl
  read_last (b ∷ bs) v d = rw v (rw d)

  read_all-torn : (tail : List ℕ) → IsTorn tail → read_all codec tail ≡ []
  unfolding read_all
  read_all-torn tail (n, v, d) = rw (lines_from_last [] tail n) (read_last tail v d)

  -- Whatever whole records stand before a torn tail are read, as they are read without it, and
  -- nothing else, if none is nested too deeply to be read.
  pub read_all_torn_tail :
      (rs : List JournalRecord) (tail : List ℕ)
      → AllShallow rs
      → IsTorn tail
      → read_all codec (write_all codec rs ++ tail) ≡ map read_back rs
  read_all_torn_tail rs tail h t =
      read_all-write_all rs tail h ∙ rw (read_all-torn tail t) (append-nil (map read_back rs))

  -- A line that is no record ends the reading.
  read_all-bad_line :
      (line rest : List ℕ)
      → has_newline line ≡ false
      → is_blank line ≡ false
      → decode (strip_cr line) ≡ none
      → read_all codec (line ++ newline ∷ rest) ≡ []
  unfolding read_all
  read_all-bad_line line rest n v d =
      rw (lines_from-append [] line rest n) (rw (is_blank-strip_cr line) (rw v (rw d)))

  -- A record appended behind a torn tail shares its line. If that line is no record, then the new
  -- record is not read back, and neither is any record written after it: what is read are the records
  -- before the tail (none of them nested too deeply to be read).
  pub append_after_torn_tail :
      (rs later : List JournalRecord) (tail : List ℕ) (r : JournalRecord)
      → AllShallow rs
      → IsTorn tail
      → decode (strip_cr (tail ++ encode r)) ≡ none
      → read_all codec (append codec (write_all codec rs ++ tail) r ++ write_all codec later)
        ≡ map read_back rs
  unfolding append
  append_after_torn_tail rs later tail r h (n, v, _) bad =
      let line : List ℕ = tail ++ encode r in
      let one_line : has_newline line ≡ false =
        has_newline-append tail (encode r) ∙ ground (arith, n, encode_one_line r) in
      let visible : is_blank line ≡ false = is_blank-append tail (encode r) ∙ ground (arith, v) in
      let regroup : ((write_all codec rs ++ tail) ++ (encode r ++ newline ∷ []))
            ++ write_all codec later
          ≡ write_all codec rs ++ (line ++ newline ∷ write_all codec later) =
        simp append_assoc in
      ap (read_all codec) regroup
      ∙ read_all-write_all rs (line ++ newline ∷ write_all codec later) h
      ∙ rw (read_all-bad_line line (write_all codec later) one_line visible bad)
          (append-nil (map read_back rs))

  pub truncate_through-write_all :
      (rs : List JournalRecord) (seq : ℕ)
      → AllShallow rs
      → truncate_through codec (write_all codec rs) seq
        ≡ write_all codec (after_seq seq (map read_back rs))
  unfolding truncate_through
  truncate_through-write_all rs seq h =
      ap (λ r. write_all codec (after_seq seq r)) (read_all-written rs h)

  -- Truncating also drops a torn tail: the new file has whole records only, those after `seq`, each
  -- written again as it was read (none was nested too deeply to be read).
  pub truncate_torn :
      (rs : List JournalRecord) (tail : List ℕ) (seq : ℕ)
      → AllShallow rs
      → IsTorn tail
      → truncate_through codec (write_all codec rs ++ tail) seq
        ≡ write_all codec (after_seq seq (map read_back rs))
  unfolding truncate_through
  truncate_torn rs tail seq h t =
      ap (λ r. write_all codec (after_seq seq r)) (read_all_torn_tail rs tail h t)

  pub append_part_none : (file : List ℕ) (r : JournalRecord) → append_part codec 0 file r ≡ file
  unfolding append_part
  append_part_none file r = append-nil file

  pub append_part_all :
      (file : List ℕ) (r : JournalRecord)
      → append_part codec (length (encode r ++ newline ∷ [])) file r ≡ append codec file r
  unfolding append append_part
  append_part_all file r = ap (◌++◌ file) (take-length (encode r ++ newline ∷ []))
