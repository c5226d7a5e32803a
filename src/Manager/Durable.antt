-- ===== src/Manager/Durable.antt =====
-- The invariant of the writer: what its two files hold of its project.
use windy_public.Prelude.{
  ◌+◌, ◌^◌, ◌≤◌, ◌<◌, ◌≡◌, sym, ap, subst, ◌∙◌, String, true, Option, none, some, List, [], ◌∷◌,
  ◌++◌, string_eq, arith, Option-cases, inl, inr, map, map-append,
}
use windy_public.KeyMap.{KeyMap}
use windy_public.Project.State.{Project}
use windy_public.Project.Op.{Op}
use windy_public.Project.Apply.{apply_to}
use windy_public.Project.Inverse.{inverse}
use windy_public.Project.View.{view, effect, apply_to-view, effect-apply_to}
use windy_public.Project.Snapshot.Reload.{Grows, effect-Grows}
use windy_public.Journal.{JournalRecord, Codec, append, write_all, read_back, as_read}
use windy_public.Journal.Lines.{write_all-append, AllShallow, AllShallow-snoc}
use windy_public.Manager.Replay.{
  op_seq-apply_to, effect-as_read, AllSeq, AllSeq-mono, AllSeq-snoc, replay-append, replay_new,
  next_seq-suc,
}
use windy_public.Manager.{
  Writer, UndoRedoStack, Result, ok, err, appended, Request, apply_request, undo_request,
  redo_request, next_seq, advance, replay, load, commit, apply_one, undo_one, undo_stack,
  undo_popped, redo_one, redo_stack, serve,
}

module _ (codec : Codec) (fresh : Project) where
  -- The files hold what is needed to show the project again.
  pub record IsDurable (w : Writer) : Type 0 where
    pub records : List JournalRecord
    pub file : w.file ≡ write_all codec records
    pub seqs : AllSeq w.project.op_seq records
    pub shallow : AllShallow codec records
    pub seen : view (replay (map read_back records) (load fresh w.saved)) ≡ view w.project
    pub seq : (replay (map read_back records) (load fresh w.saved)).op_seq ≡ w.project.op_seq
    pub grows : Grows (view fresh) (view w.project)

  -- The record that an operation leaves in the journal.
  abbrev pub record_of : Op × Project → JournalRecord
  record_of (applied, p) = record { seq = p.op_seq; op = applied }

  pub commit-IsDurable :
      (w : Writer) (op : Op)
      → w.project.op_seq + 1 < 2 ^ 64
      → codec.is_shallow (record_of (advance op w.project)) ≡ true
      → IsDurable w
      → IsDurable (commit codec w (advance op w.project))
  unfolding commit advance
  commit-IsDurable w op room flat d =
      let p : Project = record w.project { op_seq = next_seq w.project.op_seq } in
      let q : Project = replay (map read_back d.records) (load fresh w.saved) in
      let r : JournalRecord = record { seq = (apply_to op p).1.op_seq; op = (apply_to op p).0 } in
      let stamp : r.seq ≡ w.project.op_seq + 1 = op_seq-apply_to op p ∙ next_seq-suc _ room in
      let step : replay (map read_back (d.records ++ r ∷ [])) (load fresh w.saved)
          ≡ record (apply_to (as_read r.op) q).1 { op_seq = r.seq } =
        ap (λ rs. replay rs (load fresh w.saved)) (map-append read_back d.records (r ∷ []))
        ∙ replay-append (map read_back d.records) (read_back r) (load fresh w.saved)
        ∙ replay_new (read_back r) q (omega (arith, d.seq, stamp)) in
      record {
        records = d.records ++ r ∷ [];
        file = ap (λ f. append codec f r) d.file ∙ write_all-append codec d.records r;
        seqs =
            AllSeq-snoc _ d.records r
              (AllSeq-mono w.project.op_seq _ d.records (omega (arith, stamp)) d.seqs)
              (omega arith);
        shallow = AllShallow-snoc codec d.records r d.shallow flat;
        seen =
            ap view step
            ∙ apply_to-view (as_read r.op) q
            ∙ effect-as_read r.op (view q)
            ∙ ap (effect r.op) d.seen
            ∙ effect-apply_to op p (view p)
            ∙ sym (apply_to-view op p);
        seq = ap (λ (x : Project). x.op_seq) step;
        grows =
            subst (Grows (view fresh)) (sym (apply_to-view op p))
              (effect-Grows op (view fresh) (view w.project) d.grows);
      }

  with_history :
      (w : Writer) (h : KeyMap String UndoRedoStack)
      → IsDurable w
      → IsDurable (record w { history = h })
  with_history w h d = record {
    records = d.records;
    file = d.file;
    seqs = d.seqs;
    shallow = d.shallow;
    seen = d.seen;
    seq = d.seq;
    grows = d.grows;
  }

  -- One request on: still durable, and at most one sequence number further.
  abbrev pub Next : Writer → Writer → Type 0
  Next w w' = IsDurable w' × (w'.project.op_seq ≤ w.project.op_seq + 1)

  commit-Next :
      (w : Writer) (op : Op) (h : KeyMap String UndoRedoStack)
      → w.project.op_seq + 1 < 2 ^ 64
      → codec.is_shallow (record_of (advance op w.project)) ≡ true
      → IsDurable w
      → Next w (record (commit codec w (advance op w.project)) { history = h })
  commit-Next w op h room flat d = (
    with_history _ h (commit-IsDurable w op room flat d),
    unfold commit advance in
        (omega (
          arith,
          op_seq-apply_to op (record w.project { op_seq = next_seq w.project.op_seq }),
          next_seq-suc _ room,
        )),
  )

  -- The record that a request wrote, if it wrote one, is nested no deeper than is read.
  abbrev pub IsShallow : Result Op × Writer → Type 0
  IsShallow (ok applied, w) = codec.is_shallow (record_of (applied, w.project)) ≡ true
  IsShallow (err e, w) = Unit

  -- A request after which the files still hold what is needed.
  abbrev Keeps : Writer → Result Op × Writer → Type 0
  Keeps w served = IsShallow served → Next w served.1

  module _ (w : Writer) (room : w.project.op_seq + 1 < 2 ^ 64) (d : IsDurable w) where
    stay : (h : KeyMap String UndoRedoStack) → Next w (record w { history = h })
    stay h = (with_history w h d, omega arith)

    undo_popped-Next :
        (client : String) (s : UndoRedoStack) (last : Op) (inv : Option Op)
        → Keeps w (undo_popped codec appended client s last inv w)
    unfolding undo_popped commit
    undo_popped-Next client s last none h = stay _
    undo_popped-Next client s last (some inv) h = commit-Next w inv _ room h d

    undo_stack-Next :
        (client : String) (s : UndoRedoStack) (ops : List Op)
        → Keeps w (undo_stack codec appended client s ops w)
    unfolding undo_stack
    undo_stack-Next client s [] h = stay w.history
    undo_stack-Next client s (last ∷ rest) h =
        undo_popped-Next client (record s { undos = rest }) last (inverse last) h

    redo_stack-Next :
        (client : String) (s : UndoRedoStack) (ops : List Op)
        → Keeps w (redo_stack codec appended client s ops w)
    unfolding redo_stack commit
    redo_stack-Next client s [] h = stay w.history
    redo_stack-Next client s (op ∷ rest) h = commit-Next w op _ room h d

    pub serve-Next : (request : Request) → Keeps w (serve codec appended request w)
    unfolding serve commit apply_one undo_one redo_one
    serve-Next (apply_request client op) h = commit-Next w op _ room h d
    serve-Next (undo_request client) h = elim (Option-cases (w.history client)) [
      | inl e ↦ rw (e, undo_one) (stay w.history)
      | inr (s, e) ↦ rw (e, undo_one) (undo_stack-Next client s s.undos (rw (e, undo_one) at h))
    ]
    serve-Next (redo_request client) h = elim (Option-cases (w.history client)) [
      | inl e ↦ rw (e, redo_one) (stay w.history)
      | inr (s, e) ↦ rw (e, redo_one) (redo_stack-Next client s s.redos (rw (e, redo_one) at h))
    ]
