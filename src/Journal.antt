-- ===== src/Journal.antt =====
-- src/project/op_log.rs: the operation journal as the bytes of its file, one record to a line.
pub mod Lines
use windy_public.Prelude.{
  ℕ, ◌≡◌, Bool, true, false, ◌||◌, ◌&&◌, Option, none, some, List, [], ◌∷◌, ◌++◌, if◌then◌else◌,
  ltb, leb, ◌==◌, ◌≡◌, take, map,
}
use windy_public.Project.Op.{
  Op, Ops, rename_symbol, set_comment, set_focus, set_global_type, set_function_signature,
  set_stack_local_type, set_stack_local_name, set_param_name, set_function_memory, batch, nil, cons,
}

pub record JournalRecord : Type 0 where
  pub seq : ℕ
  pub op : Op

abbrev pub newline : ℕ
newline = 10

unfoldable pub has_newline : List ℕ → Bool
has_newline [] = false
has_newline (b ∷ bs) = b == newline || has_newline bs

-- A carriage return at the end of a line is no part of it.
unfoldable pub strip_cr : List ℕ → List ℕ
strip_cr [] = []
strip_cr (b ∷ []) = if b == 13 then [] else b ∷ []
strip_cr (b ∷ c ∷ bs) = b ∷ strip_cr (c ∷ bs)

-- `line.trim().is_empty()`, for white space of ASCII.
unfoldable pub is_blank : List ℕ → Bool
is_blank [] = true
is_blank (b ∷ bs) = (b == 32 || (leb 9 b && leb b 13)) && is_blank bs

unfoldable pub last_line : List ℕ → List (List ℕ)
last_line [] = []
last_line (b ∷ bs) = (b ∷ bs) ∷ []

-- `BufRead::lines`, with the line read so far.
unfoldable pub lines_from : List ℕ → List ℕ → List (List ℕ)
unfolding last_line strip_cr
lines_from line [] = last_line line
lines_from line (b ∷ bs) = elim (b == newline) [
  | true ↦ strip_cr line ∷ lines_from [] bs
  | false ↦ lines_from (line ++ b ∷ []) bs
]

-- What a captured `Option<Option<_>>` is after it was written and read: `Some(None)` is written as
-- `null`, and `null` is read as `None`.
unfoldable pub null_lost {ℓ} : {A : Type ℓ} → Option (Option A) → Option (Option A)
null_lost none = none
null_lost (some none) = none
null_lost (some (some a)) = some (some a)

unfoldable mutual
  unfolding null_lost

  pub as_read : Op → Op
  as_read (rename_symbol va name kind on ok) = rename_symbol va name kind on ok
  as_read (set_comment va scope text old) = set_comment va scope text old
  as_read (set_focus va old) = set_focus va old
  as_read (set_global_type va ty old) = set_global_type va ty old
  as_read (set_function_signature va s old) = set_function_signature va s old
  as_read (set_stack_local_type va o ty old) = set_stack_local_type va o ty old
  as_read (set_stack_local_name va o n old) = set_stack_local_name va o n (null_lost old)
  as_read (set_param_name va i n old) = set_param_name va i n old
  as_read (set_function_memory va c old) = set_function_memory va c (null_lost old)
  as_read (batch ops) = batch (all_as_read ops)

  pub all_as_read : Ops → Ops
  all_as_read nil = nil
  all_as_read (cons op ops) = cons (as_read op) (all_as_read ops)

-- A record after it was written and read.
abbrev pub read_back : JournalRecord → JournalRecord
read_back r = record { seq = r.seq; op = as_read r.op }

-- `serde_json` on a record: a line of JSON, which it reads back but for a lost `null`. `is_shallow`
-- tells the records that are nested no deeper than it reads. `decode` is `none` for text that is not
-- UTF-8 or is no record.
pub record Codec : Type 0 where
  pub encode : JournalRecord → List ℕ
  pub decode : List ℕ → Option JournalRecord
  pub is_shallow : JournalRecord → Bool
  pub decode-encode :
      (r : JournalRecord) → is_shallow r ≡ true → decode (encode r) ≡ some (read_back r)
  pub encode_one_line : (r : JournalRecord) → has_newline (encode r) ≡ false
  pub encode_ends : (r : JournalRecord) → strip_cr (encode r) ≡ encode r
  pub encode_visible : (r : JournalRecord) → is_blank (encode r) ≡ false

-- Highest sequence number present.
unfoldable pub head_seq : List JournalRecord → Option ℕ
head_seq [] = none
head_seq (r ∷ []) = some r.seq
head_seq (r ∷ s ∷ rs) = head_seq (s ∷ rs)

-- `filter(|r| r.seq > seq)`
unfoldable pub after_seq : ℕ → List JournalRecord → List JournalRecord
after_seq seq [] = []
after_seq seq (r ∷ rs) = if ltb seq r.seq then r ∷ after_seq seq rs else after_seq seq rs

module _ (codec : Codec) where
  open codec use {encode, decode}

  -- The bytes that `append` adds to the file.
  unfoldable pub append : List ℕ → JournalRecord → List ℕ
  append file r = file ++ (encode r ++ newline ∷ [])

  -- What an `append` that fails leaves in the file: the first `n` bytes of the line.
  unfoldable pub append_part : ℕ → List ℕ → JournalRecord → List ℕ
  append_part n file r = file ++ take n (encode r ++ newline ∷ [])

  unfoldable pub read_lines : List (List ℕ) → List JournalRecord
  read_lines [] = []
  read_lines (l ∷ ls) =
      let rest = read_lines ls in
      if is_blank l then rest else elim (decode l) [ none ↦ [] | some r ↦ r ∷ rest ]

  unfoldable pub read_all : List ℕ → List JournalRecord
  unfolding read_lines lines_from
  read_all file = read_lines (lines_from [] file)

  unfoldable pub write_all : List JournalRecord → List ℕ
  write_all [] = []
  write_all (r ∷ rs) = (encode r ++ newline ∷ []) ++ write_all rs

  unfoldable pub truncate_through : List ℕ → ℕ → List ℕ
  unfolding read_all after_seq write_all
  truncate_through file seq = write_all (after_seq seq (read_all file))
