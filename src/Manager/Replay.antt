-- ===== src/Manager/Replay.antt =====
-- Sequence numbers, and which records a replay applies.
use windy_public.Prelude.{
  ℕ, ◌+◌, ◌^◌, ◌≤◌, ◌<◌, ◌≡◌, refl, ap, map, ◌∙◌, List, [], ◌∷◌, ◌++◌, string_eq, if◌then◌else◌,
  ltb, lt→ltb, arith, Bool-cases, inl, inr,
}
use windy_public.Project.State.{Project, invalidate_ssa_cache}
use windy_public.Project.Op.{
  Op, Ops, rename_symbol, set_comment, set_focus, set_global_type, set_function_signature,
  set_stack_local_type, set_stack_local_name, set_param_name, set_function_memory, batch, nil, cons,
}
use windy_public.Project.Tables.{is_clear}
use windy_public.Project.Apply.{apply_to, apply_ops}
use windy_public.Project.View.{View, effect, effect_all}
use windy_public.Journal.{JournalRecord, after_seq, as_read, all_as_read, read_back}
use windy_public.Manager.{next_seq, replay}

mutual
  unfolding apply_to invalidate_ssa_cache

  pub op_seq-apply_to : (op : Op) (p : Project) → (apply_to op p).1.op_seq ≡ p.op_seq
  op_seq-apply_to (rename_symbol va name kind on ok) p = refl
  op_seq-apply_to (set_comment va scope text old) p = refl
  op_seq-apply_to (set_focus va old) p = ground arith
  op_seq-apply_to (set_global_type va ty old) p = refl
  op_seq-apply_to (set_function_signature va s old) p = refl
  op_seq-apply_to (set_stack_local_type va o ty old) p = refl
  op_seq-apply_to (set_stack_local_name va o n old) p = refl
  op_seq-apply_to (set_param_name va i n old) p = refl
  op_seq-apply_to (set_function_memory va c old) p = elim (Bool-cases (is_clear c)) [
    | inl e ↦ rw e
    | inr e ↦ rw e
  ]
  op_seq-apply_to (batch ops) p = op_seq-apply_ops ops p

  op_seq-apply_ops : (ops : Ops) (p : Project) → (apply_ops ops p).1.op_seq ≡ p.op_seq
  op_seq-apply_ops nil p = refl
  op_seq-apply_ops (cons op ops) p = op_seq-apply_ops ops (apply_to op p).1 ∙ op_seq-apply_to op p

-- What a record loses in the journal does not matter to its effect.
mutual
  unfolding effect as_read

  pub effect-as_read : (op : Op) (v : View) → effect (as_read op) v ≡ effect op v
  effect-as_read (rename_symbol va name kind on ok) v = refl
  effect-as_read (set_comment va scope text old) v = refl
  effect-as_read (set_focus va old) v = refl
  effect-as_read (set_global_type va ty old) v = refl
  effect-as_read (set_function_signature va s old) v = refl
  effect-as_read (set_stack_local_type va o ty old) v = refl
  effect-as_read (set_stack_local_name va o n old) v = refl
  effect-as_read (set_param_name va i n old) v = refl
  effect-as_read (set_function_memory va c old) v = refl
  effect-as_read (batch ops) v = effect-all_as_read ops v

  effect-all_as_read : (ops : Ops) (v : View) → effect_all (all_as_read ops) v ≡ effect_all ops v
  effect-all_as_read nil v = refl
  effect-all_as_read (cons op ops) v =
      effect-all_as_read ops (effect (as_read op) v) ∙ ap (effect_all ops) (effect-as_read op v)

-- Every record was written at or before `n`.
abbrev pub AllSeq : ℕ → List JournalRecord → Type 0
AllSeq n [] = Unit
AllSeq n (r ∷ rs) = (r.seq ≤ n) × AllSeq n rs

pub AllSeq-mono : (m n : ℕ) (rs : List JournalRecord) → m ≤ n → AllSeq m rs → AllSeq n rs
AllSeq-mono m n [] h a = tt
AllSeq-mono m n (r ∷ rs) h a = (omega arith, AllSeq-mono m n rs h a.1)

pub AllSeq-snoc :
    (n : ℕ) (rs : List JournalRecord) (r : JournalRecord)
    → AllSeq n rs
    → r.seq ≤ n
    → AllSeq n (rs ++ r ∷ [])
AllSeq-snoc n [] r a h = (h, tt)
AllSeq-snoc n (s ∷ rs) r a h = (a.0, AllSeq-snoc n rs r a.1 h)

pub AllSeq-read_back : (n : ℕ) (rs : List JournalRecord) → AllSeq n rs → AllSeq n (map read_back rs)
AllSeq-read_back n [] a = tt
AllSeq-read_back n (r ∷ rs) a = (a.0, AllSeq-read_back n rs a.1)

pub after_seq-nil : (n : ℕ) (rs : List JournalRecord) → AllSeq n rs → after_seq n rs ≡ []
unfolding after_seq
after_seq-nil n [] a = refl
after_seq-nil n (r ∷ rs) a = ground (arith, after_seq-nil n rs a.1)

-- Records that a project has seen are passed over.
pub replay_seen : (rs : List JournalRecord) (p : Project) → AllSeq p.op_seq rs → replay rs p ≡ p
unfolding replay
replay_seen [] p a = refl
replay_seen (r ∷ rs) p a = elim (Bool-cases (ltb p.op_seq r.seq)) [
  | inl e ↦ absurd (ground arith)
  | inr e ↦ rw e (replay_seen rs p a.1)
]

pub replay-append :
    (rs : List JournalRecord) (r : JournalRecord) (p : Project)
    → replay (rs ++ r ∷ []) p ≡ replay (r ∷ []) (replay rs p)
unfolding replay
replay-append [] r p = refl
replay-append (s ∷ rs) r p =
    replay-append rs r
      (if ltb p.op_seq s.seq then record (apply_to s.op p).1 { op_seq = s.seq } else p)

pub replay_new :
    (r : JournalRecord) (p : Project)
    → p.op_seq < r.seq
    → replay (r ∷ []) p ≡ record (apply_to r.op p).1 { op_seq = r.seq }
unfolding replay
replay_new r p h = rw (lt→ltb p.op_seq r.seq h)

pub next_seq-suc : (s : ℕ) → s + 1 < 2 ^ 64 → next_seq s ≡ s + 1
unfolding next_seq
next_seq-suc s h = omega arith
