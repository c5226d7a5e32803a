-- ===== src/Manager/Recovery.antt =====
-- What opening a project again finds, after a run of the writer.
use windy_public.Prelude.{
  ℕ, subst, ◌+◌, ◌^◌, ◌≤◌, ◌<◌, ◌≡◌, refl, sym, ap, ◌∙◌, map, some, List, [], ◌∷◌, leb, arith,
  length, Bool-cases, inl, inr,
}
use windy_public.Project.State.{Project, saturating_add}
use windy_public.Project.View.{view}
use windy_public.Project.Snapshot.{from_project, apply_state}
use windy_public.Project.Snapshot.Reload.{Grows, Grows-refl, reload-view}
use windy_public.Journal.{read_back, Codec, read_all, write_all, truncate_through}
use windy_public.Journal.Lines.{read_all-written, truncate_through-write_all}
use windy_public.Manager.Replay.{AllSeq, AllSeq-read_back, after_seq-nil, replay_seen}
use windy_public.Manager.Durable.{IsDurable, IsShallow, Next, serve-Next}
use windy_public.Manager.{
  Writer, appended, SaveOutcome, save_torn, save_fails, truncate_fails, all_saved, Request, Outcome,
  replay, load, save, checkpoint, checkpoint_ops, serve, writer_loop, reopen, restart, sessions,
  first_open,
}

-- The old snapshot was not left half overwritten.
abbrev pub IsWhole : SaveOutcome → Type 0
IsWhole (save_torn left) = ⊥
IsWhole _ = Unit

abbrev pub requests_in : List (List (Request × Outcome)) → ℕ
requests_in [] = 0
requests_in (requests ∷ rest) = length requests + requests_in rest

module _ (codec : Codec) (fresh : Project) where
  -- The journal took the record of every request, none of them nested too deeply to be read, and no
  -- snapshot was left half written.
  abbrev pub AllKept : List (Request × Outcome) → Writer → Type 0
  AllKept [] w = Unit
  AllKept ((request, outcome) ∷ rest) w =
      (outcome.journal ≡ appended)
      × IsWhole outcome.save
      × IsShallow codec fresh (serve codec outcome.journal request w)
      × AllKept rest (checkpoint codec outcome.save (serve codec outcome.journal request w).1)

  abbrev pub AllSessions : List (List (Request × Outcome)) → Writer → Type 0
  AllSessions [] w = Unit
  AllSessions (requests ∷ rest) w =
      AllKept requests w × AllSessions rest (restart codec fresh (writer_loop codec requests w))

  load_saved :
      (p : Project)
      → Grows (view fresh) (view p)
      → view (load fresh (some (from_project p))) ≡ view p
  unfolding load
  load_saved p g = reload-view fresh p g

  seq-load_saved : (p : Project) → (load fresh (some (from_project p))).op_seq ≡ p.op_seq
  unfolding load apply_state from_project
  seq-load_saved p = refl

  save-IsDurable :
      (o : SaveOutcome) (w : Writer)
      → IsWhole o
      → IsDurable codec fresh w
      → IsDurable codec fresh (save codec o w)
  unfolding save
  save-IsDurable (save_torn left) w h d = absurd h
  save-IsDurable save_fails w h d = d
  save-IsDurable truncate_fails w h d =
      let base : Project = load fresh (some (from_project w.project)) in
      let same : replay (map read_back d.records) base ≡ base =
        replay_seen (map read_back d.records) base (
          subst (λ n. AllSeq n (map read_back d.records)) (sym (seq-load_saved w.project))
            (AllSeq-read_back w.project.op_seq d.records d.seqs)) in
      record {
        records = d.records;
        file = d.file;
        seqs = d.seqs;
        shallow = d.shallow;
        seen = ap view same ∙ load_saved w.project d.grows;
        seq = ap (λ (x : Project). x.op_seq) same ∙ seq-load_saved w.project;
        grows = d.grows;
      }
  save-IsDurable all_saved w h d =
      let base : Project = load fresh (some (from_project w.project)) in
      let same : replay [] base ≡ base = replay_seen [] base tt in
      record {
        records = [];
        file =
            ap (λ f. truncate_through codec f w.project.op_seq) d.file
            ∙ truncate_through-write_all codec d.records w.project.op_seq d.shallow
            ∙ ap (write_all codec) (
                after_seq-nil w.project.op_seq (map read_back d.records)
                  (AllSeq-read_back w.project.op_seq d.records d.seqs));
        seqs = tt;
        shallow = tt;
        seen = ap view same ∙ load_saved w.project d.grows;
        seq = ap (λ (x : Project). x.op_seq) same ∙ seq-load_saved w.project;
        grows = d.grows;
      }

  with_count :
      (w : Writer) (n : ℕ)
      → IsDurable codec fresh w
      → IsDurable codec fresh (record w { ops_since_save = n })
  with_count w n d = record {
    records = d.records;
    file = d.file;
    seqs = d.seqs;
    shallow = d.shallow;
    seen = d.seen;
    seq = d.seq;
    grows = d.grows;
  }

  checkpoint-IsDurable :
      (o : SaveOutcome) (w : Writer)
      → IsWhole o
      → IsDurable codec fresh w
      → IsDurable codec fresh (checkpoint codec o w)
  unfolding checkpoint
  checkpoint-IsDurable o w h d =
      elim (Bool-cases (leb checkpoint_ops (saturating_add w.ops_since_save 1))) [
        | inl e ↦ rw (checkpoint, e) (with_count (save codec o w) 0 (save-IsDurable o w h d))
        | inr e ↦ rw (checkpoint, e) (with_count w _ d)
      ]

  seq-checkpoint :
      (o : SaveOutcome) (w : Writer) → (checkpoint codec o w).project.op_seq ≡ w.project.op_seq
  unfolding checkpoint
  seq-checkpoint (save_torn left) w = ground arith
  seq-checkpoint save_fails w = ground arith
  seq-checkpoint truncate_fails w = ground arith
  seq-checkpoint all_saved w = ground arith

  writer_loop-IsDurable :
      (requests : List (Request × Outcome)) (w : Writer)
      → AllKept requests w
      → w.project.op_seq + length requests < 2 ^ 64
      → IsDurable codec fresh w
      → IsDurable codec fresh (writer_loop codec requests w)
        × ((writer_loop codec requests w).project.op_seq ≤ w.project.op_seq + length requests)
  unfolding writer_loop
  writer_loop-IsDurable [] w ok room d = (d, omega arith)
  writer_loop-IsDurable ((request, outcome) ∷ rest) w ok room d =
      let (took, whole, flat, oks) = ok in
      let served : Next codec fresh w (serve codec outcome.journal request w).1 =
        subst
          (λ b.
            IsShallow codec fresh (serve codec b request w)
            → Next codec fresh w (serve codec b request w).1)
          (sym took) (serve-Next codec fresh w (omega arith) d request) flat in
      let w' : Writer = checkpoint codec outcome.save (serve codec outcome.journal request w).1 in
      let same : w'.project.op_seq ≡ (serve codec outcome.journal request w).1.project.op_seq =
        seq-checkpoint outcome.save (serve codec outcome.journal request w).1 in
      let (d', le) =
        writer_loop-IsDurable rest w' oks (omega (arith, served.1, same))
          (checkpoint-IsDurable outcome.save _ whole served.0) in
      (d', omega (arith, served.1, same, le))

  pub reopen_durable :
      (w : Writer)
      → IsDurable codec fresh w
      → (view (reopen codec fresh w) ≡ view w.project)
        × ((reopen codec fresh w).op_seq ≡ w.project.op_seq)
  unfolding reopen
  reopen_durable w d =
      let records : read_all codec w.file ≡ map read_back d.records =
        ap (read_all codec) d.file ∙ read_all-written codec d.records d.shallow in
      (
        ap (λ rs. view (replay rs (load fresh w.saved))) records ∙ d.seen,
        ap (λ rs. (replay rs (load fresh w.saved)).op_seq) records ∙ d.seq,
      )

  restart-IsDurable :
      (w : Writer) → IsDurable codec fresh w → IsDurable codec fresh (restart codec fresh w)
  unfolding restart
  restart-IsDurable w d =
      let (same_view, same_seq) = reopen_durable w d in
      record {
        records = d.records;
        file = d.file;
        seqs = subst (λ n. AllSeq n d.records) (sym same_seq) d.seqs;
        shallow = d.shallow;
        seen = d.seen ∙ sym same_view;
        seq = d.seq ∙ sym same_seq;
        grows = subst (Grows (view fresh)) (sym same_view) d.grows;
      }

  pub first_open-IsDurable : IsDurable codec fresh (first_open fresh)
  unfolding write_all load replay
  first_open-IsDurable = record {
    records = [];
    file = refl;
    seqs = tt;
    shallow = tt;
    seen = refl;
    seq = refl;
    grows = Grows-refl (view fresh);
  }

  sessions-IsDurable :
      (history : List (List (Request × Outcome))) (w : Writer)
      → AllSessions history w
      → w.project.op_seq + requests_in history < 2 ^ 64
      → IsDurable codec fresh w
      → IsDurable codec fresh (sessions codec fresh history w)
        × ((sessions codec fresh history w).project.op_seq ≤ w.project.op_seq + requests_in history)
  unfolding sessions
  sessions-IsDurable [] w ok room d = (d, omega arith)
  sessions-IsDurable (requests ∷ rest) w ok room d =
      let (d', le) = writer_loop-IsDurable requests w ok.0 (omega arith) d in
      let w' : Writer = writer_loop codec requests w in
      let same : (restart codec fresh w').project.op_seq ≡ w'.project.op_seq =
        unfold restart in (reopen_durable w' d').1 in
      let (d'', le'') =
        sessions-IsDurable rest (restart codec fresh w') ok.1 (omega (arith, le, same))
          (restart-IsDurable w' d') in
      (d'', omega (arith, le, same, le''))

  -- Start on a fresh analysis with no files and serve any requests of any clients (operations, undos
  -- and redos), over any number of sessions and then in a last one, as long as every journal append
  -- succeeds, no written record is nested too deeply to be read, no failing save has overwritten a part
  -- of the old snapshot, and the sequence numbers fit 64 bits. A save may fail before it writes, and
  -- truncating the journal may fail after it. Then opening the project again from the snapshot and the
  -- journal shows what the writer's project shows, with the same sequence number.
  pub recovery :
      (history : List (List (Request × Outcome))) (last : List (Request × Outcome))
      → AllSessions history (first_open fresh)
      → AllKept last (sessions codec fresh history (first_open fresh))
      → fresh.op_seq + requests_in history + length last < 2 ^ 64
      → (let w = writer_loop codec last (sessions codec fresh history (first_open fresh)) in
          (view (reopen codec fresh w) ≡ view w.project)
          × ((reopen codec fresh w).op_seq ≡ w.project.op_seq))
  recovery history last ok ok_last room =
      let (d, le) =
        sessions-IsDurable history (first_open fresh) ok (omega arith) first_open-IsDurable in
      reopen_durable _
        (writer_loop-IsDurable last (sessions codec fresh history (first_open fresh)) ok_last
          (omega (arith, le)) d).0
