-- ===== src/Manager/Gaps.antt =====
-- Where undoing and replaying do not give back what was there.
use mathlib.Core.Option
use windy_public.Prelude.{
  ℕ, ◌+◌, ◌^◌, ◌<◌, ◌≡◌, ap, ◌∙◌, String, false, Option, none, some, [], ◌∷◌, arith, nat_eq,
}
use windy_public.KeyMap.{get-insert_self}
use windy_public.Project.Types.{DataType, unknown}
use windy_public.Project.Tables.{
  SymbolKind, CommentScope, CommentStore, FunctionMemoryCard, is_clear, insert_symbol, symbol_name,
  symbol_kind, get_comment, set_comment_text, address_scope, function_scope,
}
use windy_public.Project.State.{Project, saturating_add}
use windy_public.Project.Op.{
  Op, rename_symbol, set_comment, set_global_type, set_function_memory, capture, capture_kind,
}
use windy_public.Project.Apply.{apply_to, apply_memory}
use windy_public.Project.Inverse.{inverse}
use windy_public.Manager.{next_seq, advance, replay}
use windy_public.Manager.Replay.{op_seq-apply_to, next_seq-suc, replay_new}

-- The project after an operation and the inverse of what it captured.
abbrev pub after_undo : Op → Project → Project
after_undo op p = elim (inverse (apply_to op p).0) [
  | none ↦ (apply_to op p).1
  | some inv ↦ (apply_to inv (apply_to op p).1).1
]

get_comment-set_comment_text :
    (store : CommentStore) (va : ℕ) (scope : CommentScope) (text : String)
    → get_comment (set_comment_text store va scope text) va scope ≡ some text
unfolding get_comment set_comment_text
get_comment-set_comment_text store va address_scope text = get-insert_self store.by_addr va text
get_comment-set_comment_text store va function_scope text =
    get-insert_self store.by_function va text

first_rename :
    (p : Project) (va : ℕ) (name : String) (kind : SymbolKind)
    → p.symbols va ≡ none
    → (after_undo (rename_symbol va name kind none none) p).symbols va
      ≡ some (record { name = ""; kind = kind })
unfolding inverse apply_to insert_symbol symbol_name symbol_kind capture capture_kind
first_rename p va name kind hs = rw (hs, after_undo) (get-insert_self _ va _)

first_comment :
    (p : Project) (va : ℕ) (text : String) (scope : CommentScope)
    → get_comment p.comments va scope ≡ none
    → get_comment (after_undo (set_comment va scope text none) p).comments va scope ≡ some ""
unfolding inverse apply_to capture
first_comment p va text scope hc = rw (hc, after_undo) (get_comment-set_comment_text _ va scope "")

first_type :
    (p : Project) (va : ℕ) (ty : DataType)
    → p.typed_globals va ≡ none
    → (after_undo (set_global_type va ty none) p).typed_globals va ≡ some (unknown 0)
unfolding inverse apply_to capture
first_type p va ty ht = rw (ht, after_undo) (get-insert_self _ va _)

-- Where there was none before, undoing a rename, a comment or a global type at an address does not remove it: the address is
-- left with an empty name of the new kind, with an empty comment, or with an unknown type.
pub undo_of_first_edit :
    (p : Project) (va : ℕ) (name text : String) (kind : SymbolKind) (scope : CommentScope)
    (ty : DataType)
    → p.symbols va ≡ none
    → get_comment p.comments va scope ≡ none
    → p.typed_globals va ≡ none
    → ((after_undo (rename_symbol va name kind none none) p).symbols va
        ≡ some (record { name = ""; kind = kind }))
      × (get_comment (after_undo (set_comment va scope text none) p).comments va scope ≡ some "")
      × ((after_undo (set_global_type va ty none) p).typed_globals va ≡ some (unknown 0))
undo_of_first_edit p va name text kind scope ty hs hc ht =
    (first_rename p va name kind hs, first_comment p va text scope hc, first_type p va ty ht)

saturating_add_small : (a : ℕ) → a + 1 < 2 ^ 64 → saturating_add a 1 ≡ a + 1
unfolding saturating_add
saturating_add_small a h = omega arith

stamp :
    (p : Project) (va : ℕ) (card : FunctionMemoryCard) (old : Option (Option FunctionMemoryCard))
    → is_clear card ≡ false
    → Option.map
        (λ c. c.updated_seq)
        ((apply_to (set_function_memory va card old) p).1.function_memory va)
      ≡ some (saturating_add p.op_seq 1)
unfolding apply_to
stamp p va card old plain =
    rw (plain, apply_to) (ap (Option.map (λ c. c.updated_seq)) (get-insert_self _ va _))

-- A memory card is stamped with one sequence number when its operation is served, and with another
-- when the operation's record is replayed on the same project, for a card that is not the clearing
-- one and sequence numbers that fit 64 bits.
pub memory_stamp_replayed :
    (p : Project) (va : ℕ) (card : FunctionMemoryCard)
    → is_clear card ≡ false
    → p.op_seq + 2 < 2 ^ 64
    → (let done = advance (set_function_memory va card none) p in
        (Option.map (λ c. c.updated_seq) (done.1.function_memory va) ≡ some (p.op_seq + 2))
        × (Option.map
              (λ c. c.updated_seq)
              ((replay (record { seq = done.1.op_seq; op = done.0 } ∷ []) p).function_memory va)
            ≡ some (p.op_seq + 1)))
unfolding advance apply_to apply_memory
memory_stamp_replayed p va card plain room =
    let done = advance (set_function_memory va card none) p in
    let seq : done.1.op_seq ≡ p.op_seq + 1 =
      op_seq-apply_to (set_function_memory va card none) (record p { op_seq = next_seq p.op_seq })
      ∙ next_seq-suc p.op_seq (omega arith) in
    (
      stamp (record p { op_seq = next_seq p.op_seq }) va card none plain
          ∙ ap some (
              ap (λ s. saturating_add s 1) (next_seq-suc p.op_seq (omega arith))
              ∙ saturating_add_small (p.op_seq + 1) (omega arith)
              ∙ omega arith),
      ap (λ (q : Project). Option.map (λ c. c.updated_seq) (q.function_memory va))
            (replay_new _ p (omega (arith, seq)))
          ∙ stamp p va card (capture none (some (p.function_memory va))) plain
          ∙ ap some (saturating_add_small p.op_seq (omega arith)),
    )
