-- ===== src/Manager/History.antt =====
-- Undo and redo as a client sees them.
use windy_public.Prelude.{
  ◌≡◌, refl, sym, ap, ◌∙◌, String, false, Option, none, some, List, [], ◌∷◌, string_eq,
  Option-cases, inl, inr,
}
use windy_public.KeyMap.{KeyMap, insert, get-insert_self, get-insert}
use windy_public.Project.State.{Project}
use windy_public.Project.Op.{Op}
use windy_public.Project.Apply.{apply_to}
use windy_public.Project.Inverse.{inverse}
use windy_public.Project.View.{View, view, effect, apply_to-view, effect-apply_to}
use windy_public.Project.Undo.{HadPrior, undo-apply}
use windy_public.Journal.{Codec}
use windy_public.Manager.{
  Writer, AppendOutcome, appended, append_failed, UndoRedoStack, ok, Request, apply_request,
  undo_request, redo_request, next_seq, advance, commit, commit_failed, apply_one, undo_one,
  undo_stack, undo_popped, redo_one, redo_stack, serve, stack_of,
}

-- The client that a request comes from.
abbrev pub client_of : Request → String
client_of (apply_request client op) = client
client_of (undo_request client) = client
client_of (redo_request client) = client

module _ (codec : Codec) where
  insert_other :
      (h : KeyMap String UndoRedoStack) (client other : String) (s : UndoRedoStack)
      → string_eq.beq client other ≡ false
      → insert h client s other ≡ h other
  insert_other h client other s e = rw get-insert (rw e)

  undo_popped_other :
      (journal : AppendOutcome) (client other : String) (s : UndoRedoStack) (last : Op)
      (inv : Option Op) (w : Writer)
      → string_eq.beq client other ≡ false
      → (undo_popped codec journal client s last inv w).1.history other ≡ w.history other
  unfolding undo_popped commit_failed
  undo_popped_other journal client other s last none w e = insert_other w.history client other _ e
  undo_popped_other appended client other s last (some inv) w e =
      insert_other w.history client other _ e
  undo_popped_other (append_failed n) client other s last (some inv) w e =
      insert_other w.history client other _ e

  undo_stack_other :
      (journal : AppendOutcome) (client other : String) (s : UndoRedoStack) (ops : List Op)
      (w : Writer)
      → string_eq.beq client other ≡ false
      → (undo_stack codec journal client s ops w).1.history other ≡ w.history other
  unfolding undo_stack
  undo_stack_other journal client other s [] w e = refl
  undo_stack_other journal client other s (last ∷ rest) w e =
      undo_popped_other journal client other _ last (inverse last) w e

  redo_stack_other :
      (journal : AppendOutcome) (client other : String) (s : UndoRedoStack) (ops : List Op)
      (w : Writer)
      → string_eq.beq client other ≡ false
      → (redo_stack codec journal client s ops w).1.history other ≡ w.history other
  unfolding redo_stack commit_failed
  redo_stack_other journal client other s [] w e = refl
  redo_stack_other appended client other s (op ∷ rest) w e = insert_other w.history client other _ e
  redo_stack_other (append_failed n) client other s (op ∷ rest) w e =
      insert_other w.history client other _ e

  -- A request leaves the undo and redo stacks of every other client alone, whatever becomes of it.
  pub serve_other_client :
      (journal : AppendOutcome) (request : Request) (w : Writer) (other : String)
      → string_eq.beq (client_of request) other ≡ false
      → (serve codec journal request w).1.history other ≡ w.history other
  unfolding serve apply_one undo_one redo_one commit_failed
  serve_other_client appended (apply_request client op) w other e =
      insert_other w.history client other _ e
  serve_other_client (append_failed n) (apply_request client op) w other e = refl
  serve_other_client journal (undo_request client) w other e =
      elim (Option-cases (w.history client)) [
        | inl h ↦ rw (h, undo_one)
        | inr (s, h) ↦ rw (h, undo_one) (undo_stack_other journal client other s s.undos w e)
      ]
  serve_other_client journal (redo_request client) w other e =
      elim (Option-cases (w.history client)) [
        | inl h ↦ rw (h, redo_one)
        | inr (s, h) ↦ rw (h, redo_one) (redo_stack_other journal client other s s.redos w e)
      ]

  view-advance : (op : Op) (p : Project) → view (advance op p).1 ≡ effect op (view p)
  unfolding advance
  view-advance op p = apply_to-view op (record p { op_seq = next_seq p.op_seq })

  effect-advance : (op : Op) (p : Project) (v : View) → effect (advance op p).0 v ≡ effect op v
  unfolding advance
  effect-advance op p v = effect-apply_to op (record p { op_seq = next_seq p.op_seq }) v

  project-commit : (w : Writer) (done : Op × Project) → (commit codec w done).project ≡ done.1
  unfolding commit
  project-commit w done = refl

  -- The writer after a client's operation, after its undo, and after its redo.
  abbrev pub applied_writer : Writer → String → Op → Writer
  applied_writer w client op = (apply_one codec appended client op w).1

  abbrev pub undone_writer : Writer → String → Op → Writer
  undone_writer w client op = (undo_one codec appended client (applied_writer w client op)).1

  undo_stack-apply_one :
      (w : Writer) (client : String) (op : Op)
      → (applied_writer w client op).history client
        ≡ some (record {
          undos = (advance op w.project).0 ∷ (stack_of w.history client).undos;
          redos = [];
        })
  unfolding apply_one
  undo_stack-apply_one w client op = get-insert_self w.history client _

  undo_one_top :
      (w : Writer) (client : String) (last inv : Op) (rest redos : List Op)
      → w.history client ≡ some (record { undos = last ∷ rest; redos = redos })
      → inverse last ≡ some inv
      → undo_one codec appended client w ≡ (
        ok (advance inv w.project).0,
        record (commit codec w (advance inv w.project)) {
          history = insert w.history client (record { undos = rest; redos = last ∷ redos });
        },
      )
  unfolding undo_one
  undo_one_top w client last inv rest redos h e = rw (h, undo_one) (rw (e, undo_popped))

  redo_one_top :
      (w : Writer) (client : String) (op : Op) (undos rest : List Op)
      → w.history client ≡ some (record { undos = undos; redos = op ∷ rest })
      → redo_one codec appended client w ≡ (
        ok (advance op w.project).0,
        record (commit codec w (advance op w.project)) {
          history =
              insert w.history client
                (record { undos = (advance op w.project).0 ∷ undos; redos = rest });
        },
      )
  unfolding redo_one
  redo_one_top w client op undos rest h = rw (h, redo_one)

  module _ (w : Writer) (client : String) (op inv : Op)
      (e : inverse (advance op w.project).0 ≡ some inv) where
    undone_eq : undo_one codec appended client (applied_writer w client op) ≡ (
      ok (advance inv (advance op w.project).1).0,
      record (commit codec (applied_writer w client op) (advance inv (advance op w.project).1)) {
        history = insert (applied_writer w client op).history client (record {
          undos = (stack_of w.history client).undos;
          redos = (advance op w.project).0 ∷ [];
        });
      },
    )
    unfolding apply_one
    undone_eq = undo_one_top _ client _ inv _ _ (undo_stack-apply_one w client op) e

    undone_history :
        (undone_writer w client op).history client
        ≡ some (record {
          undos = (stack_of w.history client).undos;
          redos = (advance op w.project).0 ∷ [];
        })
    undone_history = ap (λ r. r.1.history client) undone_eq ∙ get-insert_self _ client _

    undone_project : (undone_writer w client op).project ≡ (advance inv (advance op w.project).1).1
    undone_project = ap (λ r. r.1.project) undone_eq ∙ project-commit _ _

    -- A client applies an operation whose old values exist, and undoes it before its next one. The
    -- project shows what it showed before, the operation is the one to redo, and the client's undo
    -- stack is what it was.
    pub undo_one-apply_one :
        HadPrior op (record w.project { op_seq = next_seq w.project.op_seq })
        → (view (undone_writer w client op).project ≡ view w.project)
          × ((undone_writer w client op).history client
              ≡ some (record {
                undos = (stack_of w.history client).undos;
                redos = (advance op w.project).0 ∷ [];
              }))
    unfolding advance
    undo_one-apply_one prior =
        let p : Project = record w.project { op_seq = next_seq w.project.op_seq } in
        let left : Project = (apply_to op p).1 in
        (
          ap view undone_project
              ∙ view-advance inv left
              ∙ sym (apply_to-view inv left)
              ∙ undo-apply op inv p prior e,
          undone_history,
        )

    -- A client applies an operation that has an inverse, undoes it and redoes it. The project shows
    -- the operation's effect on what the undo left. The client's undo stack has, above what it had
    -- before the three, the operation as the redo applied it (with what it captured then), and its redo
    -- stack is empty.
    pub redo_one-undo_one :
        (let p = (undone_writer w client op).project in
          let done = (redo_one codec appended client (undone_writer w client op)).1 in
          (view done.project ≡ effect op (view p))
          × (done.history client
              ≡ some (record {
                undos = (advance (advance op w.project).0 p).0 ∷ (stack_of w.history client).undos;
                redos = [];
              })))
    redo_one-undo_one =
        let again : Op = (advance op w.project).0 in
        let p : Project = (undone_writer w client op).project in
        let eq = redo_one_top (undone_writer w client op) client again _ [] undone_history in
        (
          ap (λ r. view r.1.project) eq
              ∙ ap view (project-commit (undone_writer w client op) (advance again p))
              ∙ view-advance again p
              ∙ effect-advance op w.project (view p),
          ap (λ r. r.1.history client) eq ∙ get-insert_self _ client _,
        )
