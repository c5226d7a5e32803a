-- ===== src/Project/Frame.antt =====
-- src/project/op.rs: the stack variables of a frame, found and written by their offset.
pub mod Restore
use windy_public.Prelude.{Option, none, some, List, [], ◌∷◌, ◌++◌, if◌then◌else◌}
use windy_public.Prelude.Int.{ℤ, pos, ltb_ℤ, eqb_ℤ}
use windy_public.Project.Types.{StackVariable, StackFrame, unknown}

-- `.find(|v| v.offset == offset)`
unfoldable pub find_var : ℤ → List StackVariable → Option StackVariable
find_var offset [] = none
find_var offset (v ∷ vs) = if eqb_ℤ v.offset offset then some v else find_var offset vs

-- `.iter_mut().find(…)` and a write through the reference that it returns.
unfoldable pub update_var :
    ℤ → (StackVariable → StackVariable) → List StackVariable → List StackVariable
update_var offset mutate [] = []
update_var offset mutate (v ∷ vs) =
    if eqb_ℤ v.offset offset then mutate v ∷ vs else v ∷ update_var offset mutate vs

-- `sort_by_key(|v| v.offset)`, which is stable.
unfoldable pub insert_sorted : StackVariable → List StackVariable → List StackVariable
insert_sorted v [] = v ∷ []
insert_sorted v (w ∷ ws) = if ltb_ℤ w.offset v.offset then w ∷ insert_sorted v ws else v ∷ w ∷ ws

unfoldable pub sort_by_offset : List StackVariable → List StackVariable
unfolding insert_sorted
sort_by_offset [] = []
sort_by_offset (v ∷ vs) = insert_sorted v (sort_by_offset vs)

abbrev pub new_var : ℤ → StackVariable
new_var offset = record { name = none; ty = unknown 0; offset = offset; size = 0 }

unfoldable pub upsert_in :
    ℤ → (StackVariable → StackVariable) → List StackVariable → List StackVariable
unfolding find_var update_var sort_by_offset
upsert_in offset mutate vs = elim (find_var offset vs) [
  | some v ↦ update_var offset mutate vs
  | none ↦ sort_by_offset (vs ++ mutate (new_var offset) ∷ [])
]

-- Locals have offsets at most 0, arguments have positive ones.
unfoldable pub upsert_stack_var : StackFrame → ℤ → (StackVariable → StackVariable) → StackFrame
unfolding upsert_in
upsert_stack_var frame offset mutate =
    if ltb_ℤ (pos 0) offset
    then record frame { args = upsert_in offset mutate frame.args }
    else record frame { locals = upsert_in offset mutate frame.locals }

-- `frame.locals.iter().chain(&frame.args).find(…)`
unfoldable pub find_in_frame : StackFrame → ℤ → Option StackVariable
unfolding find_var
find_in_frame frame offset = find_var offset (frame.locals ++ frame.args)
