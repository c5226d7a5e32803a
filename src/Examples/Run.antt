-- ===== src/Examples/Run.antt =====
-- The theorems at small journals and runs of requests.
use mathlib.Core.Option
use windy_public.Prelude.{
  ℕ, ◌≡◌, refl, none, some, List, String, Option, [], ◌∷◌, ◌++◌, arith, string_eq,
}
use windy_public.Prelude.Int.{pos}
use windy_public.Project.Types.{int, unknown}
use windy_public.Project.Tables.{
  user, function_scope, FunctionMemoryCard, is_clear, tags_clear, is_none, symbol_name, symbol_kind,
  get_comment,
}
use windy_public.Project.Op.{
  Op, set_stack_local_name, rename_symbol, set_comment, set_global_type, set_function_memory,
  capture, capture_kind,
}
use windy_public.Project.Apply.{apply_to}
use windy_public.Project.Inverse.{inverse}
use windy_public.Project.View.{view, effect}
use windy_public.Journal.{
  JournalRecord, as_read, null_lost, append, read_all, write_all, truncate_through, after_seq,
  has_newline, is_blank,
}
use windy_public.Journal.Lines.{
  read_all-written, read_all_torn_tail, append_after_torn_tail, truncate_torn,
}
use windy_public.Manager.{
  Writer, Result, ok, appended, append_failed, Request, Outcome, apply_request, undo_request,
  redo_request, all_saved, first_open, sessions, writer_loop, reopen, advance, serve, redo_one,
  stack_of, err, replay,
}
use windy_public.Manager.Durable.{IsShallow}
use windy_public.Manager.Recovery.{recovery}
use windy_public.Manager.History.{
  undo_one-apply_one, redo_one-undo_one, serve_other_client, undone_writer,
}
use windy_public.Manager.Gaps.{undo_of_first_edit, memory_stamp_replayed, after_undo}
use windy_public.Examples.Tree.{run, push_byte, top}
use windy_public.Examples.Json.{digits_codec, bad_line}
use windy_public.Examples.Edits.{bare, main_symbol, named_project, rename_op, comment_op}

abbrev ok_saved : Outcome
ok_saved = record { journal = appended; save = all_saved }

abbrev first_session : List (Request × Outcome)
first_session =
    (apply_request "a" rename_op, ok_saved) ∷ (apply_request "b" comment_op, ok_saved) ∷ []

abbrev last_session : List (Request × Outcome)
last_session =
    (apply_request "a" comment_op, ok_saved)
    ∷ (undo_request "a", ok_saved)
    ∷ (redo_request "a", ok_saved)
    ∷ []

-- This codec reads whatever it has written.
shallow : (served : Result Op × Writer) → IsShallow digits_codec bare served
shallow (ok applied, w) = refl
shallow (err e, w) = tt

recovery_example :
    (view (
        reopen digits_codec bare (
          writer_loop digits_codec last_session
            (sessions digits_codec bare (first_session ∷ []) (first_open bare))))
      ≡ view
          (writer_loop digits_codec last_session
            (sessions digits_codec bare (first_session ∷ []) (first_open bare))).project)
    × ((reopen digits_codec bare (
          writer_loop digits_codec last_session
            (sessions digits_codec bare (first_session ∷ []) (first_open bare)))).op_seq
        ≡ (writer_loop digits_codec last_session
            (sessions digits_codec bare (first_session ∷ []) (first_open bare))).project.op_seq)
recovery_example =
    recovery digits_codec bare (first_session ∷ []) last_session
      ((refl, tt, shallow _, (refl, tt, shallow _, tt)), tt)
      (refl, tt, shallow _, (refl, tt, shallow _, (refl, tt, shallow _, tt))) (omega arith)

abbrev name_local : Option (Option String) → Op
name_local old = set_stack_local_name 4096 (pos 8) "count" old

-- The first name of a stack variable, as it is applied and written, and as it is read.
abbrev records : List JournalRecord
records = record { seq = 1; op = rename_op } ∷ record { seq = 2; op = name_local (some none) } ∷ []

abbrev records_read : List JournalRecord
records_read = record { seq = 1; op = rename_op } ∷ record { seq = 2; op = name_local none } ∷ []

-- Bytes that begin no record.
abbrev torn : List ℕ
torn = 48 ∷ 48 ∷ []

read_all-written_example : read_all digits_codec (write_all digits_codec records) ≡ records_read
unfolding as_read null_lost
read_all-written_example = read_all-written digits_codec records (refl, (refl, tt))

read_all_torn_tail_example :
    read_all digits_codec (write_all digits_codec records ++ torn) ≡ records_read
unfolding as_read null_lost has_newline is_blank run push_byte top
read_all_torn_tail_example =
    read_all_torn_tail digits_codec records torn (refl, (refl, tt)) (refl, refl, refl)

truncate_torn_example :
    truncate_through digits_codec (write_all digits_codec records ++ torn) 1
    ≡ write_all digits_codec (after_seq 1 records_read)
unfolding as_read null_lost has_newline is_blank run push_byte top
truncate_torn_example =
    truncate_torn digits_codec records torn 1 (refl, (refl, tt)) (refl, refl, refl)

serve_other_client_example :
    (serve digits_codec (append_failed 3) (undo_request "a") (first_open bare)).1.history "b" ≡ none
serve_other_client_example =
    serve_other_client digits_codec (append_failed 3) (undo_request "a") (first_open bare) "b" refl

undo_of_first_edit_example :
    ((after_undo (rename_symbol 4096 "start" user none none) bare).symbols 4096
      ≡ some (record { name = ""; kind = user }))
    × (get_comment
          (after_undo (set_comment 4096 function_scope "seen" none) bare).comments
          4096
          function_scope
        ≡ some "")
    × ((after_undo (set_global_type 4096 (int 32) none) bare).typed_globals 4096 ≡ some (unknown 0))
unfolding get_comment
undo_of_first_edit_example =
    undo_of_first_edit bare 4096 "start" "seen" user function_scope (int 32) refl refl refl

abbrev old_writer : Writer
old_writer = first_open named_project

abbrev rename_back : Op
rename_back = rename_symbol 4096 "main" user (some "start") (some user)

undo_one-apply_one_example :
    (view (undone_writer digits_codec old_writer "a" rename_op).project ≡ view named_project)
    × ((undone_writer digits_codec old_writer "a" rename_op).history "a"
        ≡ some (record { undos = []; redos = (advance rename_op named_project).0 ∷ [] }))
unfolding advance apply_to inverse symbol_name symbol_kind capture capture_kind stack_of
undo_one-apply_one_example =
    undo_one-apply_one digits_codec old_writer "a" rename_op rename_back refl (main_symbol, refl)

redo_one-undo_one_example :
    (let done =
        (redo_one digits_codec appended "a"
          (undone_writer digits_codec old_writer "a" rename_op)).1 in
      (view done.project
        ≡ effect rename_op (view (undone_writer digits_codec old_writer "a" rename_op).project))
      × (done.history "a"
          ≡ some (record {
            undos =
                (advance
                  (advance rename_op named_project).0
                  (undone_writer digits_codec old_writer "a" rename_op).project).0
                ∷ [];
            redos = [];
          })))
unfolding advance apply_to inverse symbol_name symbol_kind capture capture_kind stack_of
redo_one-undo_one_example = redo_one-undo_one digits_codec old_writer "a" rename_op rename_back refl

abbrev card : FunctionMemoryCard
card = record {
  va = 4096;
  purpose = some "entry point";
  tags = [];
  key_apis = [];
  key_strings = [];
  purity = none;
  confidence = 80;
  updated_seq = 0;
}

memory_stamp_replayed_example :
    (let done = advance (set_function_memory 4096 card none) bare in
      (Option.map (λ c. c.updated_seq) (done.1.function_memory 4096) ≡ some 2)
      × (Option.map
            (λ c. c.updated_seq)
            ((replay (record { seq = done.1.op_seq; op = done.0 } ∷ []) bare).function_memory 4096)
          ≡ some 1))
unfolding is_clear tags_clear is_none
memory_stamp_replayed_example = memory_stamp_replayed bare 4096 card refl (omega arith)

append_after_torn_tail_example :
    read_all digits_codec (
      append digits_codec
        (write_all digits_codec records ++ torn)
        (record { seq = 3; op = rename_op })
      ++ write_all digits_codec records)
    ≡ records_read
unfolding as_read null_lost has_newline is_blank run push_byte top
append_after_torn_tail_example =
    append_after_torn_tail digits_codec records records torn (record { seq = 3; op = rename_op })
      (refl, (refl, tt)) (refl, refl, refl) (bad_line (record { seq = 3; op = rename_op }))
