-- ===== src/Examples/Json.antt =====
-- A codec that keeps its promises, for the theorems that take one.
use windy_public.Prelude.{
  ℕ, zero, suc, ◌≡◌, refl, sym, ap, ◌∙◌, Bool, true, false, ◌&&◌, leb, none, some, List, [], ◌∷◌,
  ◌++◌, append-nil, arith,
}
use windy_public.Journal.{JournalRecord, Codec, read_back, has_newline, strip_cr, is_blank}
use windy_public.Examples.Tree.{
  Tree, num, node, bytes, run, top, push_byte, run-bytes, top-run-bytes,
}
use windy_public.Examples.Tree.Records.{record_tree, tree_record, tree_record-record_tree}
use mathlib.Core.Option

-- Digits from 48 to 50 only.
unfoldable pub digits : List ℕ → Bool
digits [] = true
digits (b ∷ bs) = (leb 48 b && leb b 50) && digits bs

digits-append : (xs ys : List ℕ) → digits xs ≡ true → digits ys ≡ true → digits (xs ++ ys) ≡ true
unfolding digits
digits-append [] ys h k = k
digits-append (x ∷ xs) ys h k = ground (arith, digits-append xs ys, h, k)

pub digits-bytes : (t : Tree) → digits (bytes t) ≡ true
unfolding bytes digits
digits-bytes (num zero) = refl
digits-bytes (num (suc n)) = digits-append (bytes (num n)) (49 ∷ []) (digits-bytes (num n)) refl
digits-bytes (node a b) =
    digits-append (bytes a) (bytes b ++ 50 ∷ []) (digits-bytes a)
      (digits-append (bytes b) (50 ∷ []) (digits-bytes b) refl)

pub has_newline-digits : (l : List ℕ) → digits l ≡ true → has_newline l ≡ false
unfolding digits has_newline
has_newline-digits [] h = refl
has_newline-digits (b ∷ bs) h = ground (arith, has_newline-digits bs)

and_right : (a b : Bool) → (a && b) ≡ true → b ≡ true
and_right a b h = ground arith

pub strip_cr-digits : (l : List ℕ) → digits l ≡ true → strip_cr l ≡ l
unfolding digits strip_cr
strip_cr-digits [] h = refl
strip_cr-digits (b ∷ []) h = ground arith
strip_cr-digits (b ∷ c ∷ bs) h =
    ap (λ l. b ∷ l)
      (strip_cr-digits (c ∷ bs) (and_right (leb 48 b && leb b 50) (digits (c ∷ bs)) h))

is_blank-digits : (b : ℕ) (l : List ℕ) → digits (b ∷ l) ≡ true → is_blank (b ∷ l) ≡ false
unfolding digits is_blank
is_blank-digits b l h = ground arith

starts_digit : (t : Tree) → (b : ℕ) × ((l : List ℕ) × (bytes t ≡ b ∷ l))
unfolding bytes
starts_digit (num zero) = (48, ([], refl))
starts_digit (num (suc n)) =
    let (b, (l, e)) = starts_digit (num n) in (b, (l ++ 49 ∷ [], ap (λ x. x ++ 49 ∷ []) e))
starts_digit (node s t) =
    let (b, (l, e)) = starts_digit s in
    (b, (l ++ (bytes t ++ 50 ∷ []), ap (λ x. x ++ (bytes t ++ 50 ∷ [])) e))

pub is_blank-bytes : (t : Tree) → is_blank (bytes t) ≡ false
is_blank-bytes t =
    let (b, (l, e)) = starts_digit t in
    ap is_blank e ∙ is_blank-digits b l (ap digits (sym e) ∙ digits-bytes t)

-- Reading loses a captured `Some(None)`.
abbrev read_tree : Tree → JournalRecord
read_tree t = read_back (tree_record t)

pub decode-record_tree :
    (r : JournalRecord)
    → true ≡ true
    → Option.map read_tree (top (run (bytes (record_tree r)) [])) ≡ some (read_back r)
decode-record_tree r h =
    ap (Option.map read_tree) (top-run-bytes (record_tree r))
    ∙ ap (λ s. some (read_back s)) (tree_record-record_tree r)

abbrev pub digits_codec : Codec
digits_codec = record {
  encode = λ r. bytes (record_tree r);
  decode = λ l. Option.map read_tree (top (run l []));
  is_shallow = λ r. true;
  decode-encode = decode-record_tree;
  encode_one_line = λ r. has_newline-digits _ (digits-bytes (record_tree r));
  encode_ends = λ r. strip_cr-digits _ (digits-bytes (record_tree r));
  encode_visible = λ r. is_blank-bytes (record_tree r);
}

two_more : (t : Tree) → top (run (48 ∷ 48 ∷ bytes t) []) ≡ none
unfolding run push_byte top
two_more t =
    ap (λ l. top (run l (num 0 ∷ num 0 ∷ []))) (sym (append-nil (bytes t)))
    ∙ ap top (run-bytes t [] (num 0 ∷ num 0 ∷ []))

-- A record behind two digits is none.
pub bad_line :
    (r : JournalRecord) → digits_codec.decode (strip_cr (48 ∷ 48 ∷ digits_codec.encode r)) ≡ none
unfolding digits
bad_line r =
    ap (λ l. Option.map read_tree (top (run l [])))
      (strip_cr-digits (48 ∷ 48 ∷ bytes (record_tree r)) (digits-bytes (record_tree r)))
    ∙ ap (Option.map read_tree) (two_more (record_tree r))
