-- ===== src/Manager.antt =====
-- src/project_manager.rs: the writer task of a project, which applies, undoes and redoes operations for
-- its clients, journals them and saves a snapshot now and then; src/project/mod.rs: opening a project
-- from the snapshot and the journal. Input and output that can fail takes its outcome as an argument.
pub mod Replay
pub mod Durable
pub mod Recovery
pub mod History
pub mod Unjournaled
pub mod Gaps
pub mod Cache
pub mod Activity
use mathlib.Core.Option
use windy_public.Prelude.{
  ℕ, ◌+◌, ◌%◌, ◌^◌, String, Bool, true, false, Option, none, some, List, [], ◌∷◌, string_eq,
  if◌then◌else◌, ltb, leb,
}
use windy_public.KeyMap.{KeyMap, insert, empty}
use windy_public.Project.State.{Project, saturating_add}
use windy_public.Project.Op.{Op}
use windy_public.Project.Apply.{apply_to}
use windy_public.Project.Inverse.{inverse}
use windy_public.Project.Snapshot.{ProjectState, from_project, apply_state}
use windy_public.Journal.{JournalRecord, Codec, append, append_part, read_all, truncate_through}

pub data Error : Type 0 where
  nothing_to_undo nothing_to_redo not_invertible journal_failed : Error

pub data Result {ℓ} (A : Type ℓ) : Type ℓ where
  ok : A → Result A
  err : Error → Result A

-- The last element of a Rust `Vec` is the head of these lists.
pub record UndoRedoStack : Type 0 where
  pub undos : List Op
  pub redos : List Op

-- The variables of `writer_loop`, with the two files that it writes.
pub record Writer : Type 0 where
  pub project : Project
  pub history : KeyMap String UndoRedoStack
  pub ops_since_save : ℕ
  pub file : List ℕ
  pub saved : Option ProjectState

abbrev pub empty_stack : UndoRedoStack
empty_stack = record { undos = []; redos = [] }

-- `project.op_seq += 1`, which wraps in a release build.
unfoldable pub next_seq : ℕ → ℕ
next_seq s = (s + 1) % 2 ^ 64

-- `project.op_seq += 1; op.apply_to(project)`
unfoldable pub advance : Op → Project → Op × Project
unfolding next_seq
advance op p = apply_to op (record p { op_seq = next_seq p.op_seq })

-- `history.entry(client_id).or_default()`
unfoldable pub stack_of : KeyMap String UndoRedoStack → String → UndoRedoStack
stack_of history client = Option.get_or (history client) empty_stack

-- How saving a snapshot and then truncating the journal ends. A save fails before it touches the old
-- snapshot, or while it writes over it: then the argument is what `load_from` reads of what is left.
pub data SaveOutcome : Type 0 where
  save_fails truncate_fails all_saved : SaveOutcome
  save_torn : Option ProjectState → SaveOutcome

-- How appending to the journal ends. It fails in opening, writing, flushing or syncing, when some
-- number of bytes of the line, maybe all, are in the file.
pub data AppendOutcome : Type 0 where
  appended : AppendOutcome
  append_failed : ℕ → AppendOutcome

pub data Request : Type 0 where
  apply_request : String → Op → Request
  undo_request redo_request : String → Request

-- The outcomes of input and output while one request is served.
pub record Outcome : Type 0 where
  pub journal : AppendOutcome
  pub save : SaveOutcome

abbrev pub checkpoint_ops : ℕ
checkpoint_ops = 256

-- `Project::open`: the records that the project has not seen yet.
unfoldable pub replay : List JournalRecord → Project → Project
replay [] p = p
replay (r ∷ rs) p =
    replay rs (if ltb p.op_seq r.seq then record (apply_to r.op p).1 { op_seq = r.seq } else p)

unfoldable pub load : Project → Option ProjectState → Project
load fresh none = fresh
load fresh (some s) = apply_state s fresh

module _ (codec : Codec) where
  -- `journal.append(project.op_seq, &applied)`, and the changed project.
  unfoldable pub commit : Writer → Op × Project → Writer
  commit w (applied, p) = record w {
    project = p;
    file = append codec w.file (record { seq = p.op_seq; op = applied });
  }

  -- What a failing `append` leaves: the changed project, and `n` bytes of the record's line.
  unfoldable pub commit_failed : ℕ → Writer → Op × Project → Writer
  commit_failed n w (applied, p) = record w {
    project = p;
    file = append_part codec n w.file (record { seq = p.op_seq; op = applied });
  }

  unfoldable pub apply_one : AppendOutcome → String → Op → Writer → Result Op × Writer
  unfolding commit commit_failed
  apply_one journal client op w =
      let done = advance op w.project in
      let s = stack_of w.history client in
      let pushed : UndoRedoStack = record { undos = done.0 ∷ s.undos; redos = [] } in
      elim journal [
        | appended ↦
            (ok done.0, record (commit w done) { history = insert w.history client pushed })
        | append_failed n ↦ (err journal_failed, commit_failed n w done)
      ]

  -- After `last` was popped from the undo stack.
  unfoldable pub undo_popped :
      AppendOutcome → String → UndoRedoStack → Op → Option Op → Writer → Result Op × Writer
  unfolding commit commit_failed
  undo_popped journal client s last none w =
      (err not_invertible, record w { history = insert w.history client s })
  undo_popped journal client s last (some inv) w =
      let done = advance inv w.project in
      let pushed : UndoRedoStack = record s { redos = last ∷ s.redos } in
      elim journal [
        | appended ↦
            (ok done.0, record (commit w done) { history = insert w.history client pushed })
        | append_failed n ↦ (
          err journal_failed,
          record (commit_failed n w done) { history = insert w.history client s },
        )
      ]

  unfoldable pub undo_stack :
      AppendOutcome → String → UndoRedoStack → List Op → Writer → Result Op × Writer
  unfolding undo_popped
  undo_stack journal client s [] w = (err nothing_to_undo, w)
  undo_stack journal client s (last ∷ rest) w =
      undo_popped journal client (record s { undos = rest }) last (inverse last) w

  unfoldable pub undo_one : AppendOutcome → String → Writer → Result Op × Writer
  unfolding undo_stack
  undo_one journal client w = elim (w.history client) [
    | none ↦ (err nothing_to_undo, w)
    | some s ↦ undo_stack journal client s s.undos w
  ]

  unfoldable pub redo_stack :
      AppendOutcome → String → UndoRedoStack → List Op → Writer → Result Op × Writer
  unfolding commit commit_failed
  redo_stack journal client s [] w = (err nothing_to_redo, w)
  redo_stack journal client s (op ∷ rest) w =
      let done = advance op w.project in
      let popped : UndoRedoStack = record s { redos = rest } in
      let pushed : UndoRedoStack = record { undos = done.0 ∷ s.undos; redos = rest } in
      elim journal [
        | appended ↦
            (ok done.0, record (commit w done) { history = insert w.history client pushed })
        | append_failed n ↦ (
          err journal_failed,
          record (commit_failed n w done) { history = insert w.history client popped },
        )
      ]

  unfoldable pub redo_one : AppendOutcome → String → Writer → Result Op × Writer
  unfolding redo_stack
  redo_one journal client w = elim (w.history client) [
    | none ↦ (err nothing_to_redo, w)
    | some s ↦ redo_stack journal client s s.redos w
  ]

  -- `Project::save`
  unfoldable pub save : SaveOutcome → Writer → Writer
  save save_fails w = w
  save (save_torn left) w = record w { saved = left }
  save truncate_fails w = record w { saved = some (from_project w.project) }
  save all_saved w = record w {
    saved = some (from_project w.project);
    file = truncate_through codec w.file w.project.op_seq;
  }

  -- What follows each request.
  unfoldable pub checkpoint : SaveOutcome → Writer → Writer
  unfolding save
  checkpoint outcome w =
      let n = saturating_add w.ops_since_save 1 in
      if leb checkpoint_ops n
      then record (save outcome w) { ops_since_save = 0 }
      else record w { ops_since_save = n }

  unfoldable pub serve : AppendOutcome → Request → Writer → Result Op × Writer
  serve journal (apply_request client op) w = apply_one journal client op w
  serve journal (undo_request client) w = undo_one journal client w
  serve journal (redo_request client) w = redo_one journal client w

  -- `writer_loop`
  unfoldable pub writer_loop : List (Request × Outcome) → Writer → Writer
  writer_loop [] w = w
  writer_loop ((request, outcome) ∷ rest) w =
      writer_loop rest (checkpoint outcome.save (serve outcome.journal request w).1)

  -- The project as `Project::open` rebuilds it: a fresh analysis, the snapshot, the journal.
  unfoldable pub reopen : Project → Writer → Project
  unfolding replay load
  reopen fresh w = replay (read_all codec w.file) (load fresh w.saved)

  -- A new session over the files that the last one left.
  unfoldable pub restart : Project → Writer → Writer
  restart fresh w = record w { project = reopen fresh w; history = empty; ops_since_save = 0 }

  -- Sessions one after the other; each ends by the server's going away, and a new one opens.
  unfoldable pub sessions : Project → List (List (Request × Outcome)) → Writer → Writer
  sessions fresh [] w = w
  sessions fresh (requests ∷ rest) w = sessions fresh rest (restart fresh (writer_loop requests w))

-- A project that was never opened before.
abbrev pub first_open : Project → Writer
first_open fresh = record {
  project = fresh;
  history = empty;
  ops_since_save = 0;
  file = [];
  saved = none;
}
