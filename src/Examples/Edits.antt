-- ===== src/Examples/Edits.antt =====
-- The theorems on edits at small projects.
use windy_public.Prelude.{◌≡◌, refl, true, none, some, [], ◌∷◌, get_elem?, string_eq}
use windy_public.KeyMap.{empty}
use windy_public.Project.Types.{int, unknown}
use windy_public.Project.TypeManager.{no_types}
use windy_public.Project.Tables.{user, address_scope, Symbol, symbol_name, symbol_kind, get_comment}
use windy_public.Project.State.{Project}
use windy_public.Project.Op.{
  Op, Ops, rename_symbol, set_param_name, set_comment, batch, capture, capture_kind,
}
use windy_public.Project.Apply.{apply_to, placeholder}
use windy_public.Project.Decimal.{decimal}
use windy_public.Project.Params.{params_at, apply_to-params}
use windy_public.Project.Inverse.{inverse, as_batch, push_inverse, append_op}
use windy_public.Project.View.{view}
use windy_public.Project.Undo.{undo-apply}
use windy_public.Project.Command
use windy_public.Project.Command.{Command, CommandStack, undo_last, execute, redo_last}
use windy_public.Project.Command.Restore.{undo_last-execute, redo_last-undo_last}
use windy_public.Project.Snapshot.{from_project, apply_state}
use windy_public.Project.Snapshot.Reload.{Grows-refl, reload-view}

abbrev pub bare : Project
bare = record {
  has_function = λ va. true;
  symbols = empty;
  comments = record { by_addr = empty; by_function = empty };
  types = no_types;
  function_frames = empty;
  typed_globals = empty;
  function_signatures = empty;
  focus = none;
  op_seq = 0;
  function_memory = empty;
  alias_history = [];
  ssa_cache = empty;
}

abbrev pub main_symbol : Symbol
main_symbol = record { name = "main"; kind = user }

-- A project with a name, a comment, a global and a focus.
abbrev pub named_project : Project
named_project = record bare {
  symbols = λ va. some main_symbol;
  comments = record { by_addr = λ va. some "entry"; by_function = empty };
  typed_globals = λ va. some (int 32);
  focus = some 4096;
}

abbrev pub rename_op : Op
rename_op = rename_symbol 4096 "start" user none none

abbrev pub comment_op : Op
comment_op = set_comment 4096 address_scope "seen" none

abbrev two_edits : Op
two_edits = batch (Ops.cons rename_op (Ops.cons comment_op Ops.nil))

undo-apply_example :
    view
      (apply_to
        (batch (
          Ops.cons
            (set_comment 4096 address_scope "entry" (some "seen"))
            (Ops.cons (rename_symbol 4096 "main" user (some "start") (some user)) Ops.nil)))
        (apply_to two_edits named_project).1).1
    ≡ view named_project
unfolding apply_to inverse as_batch push_inverse append_op symbol_name symbol_kind get_comment
    capture capture_kind
undo-apply_example =
    undo-apply two_edits _ named_project ((main_symbol, refl), (("entry", refl), tt)) refl

apply_to-params_example :
    (get_elem? (params_at (apply_to (set_param_name 4096 2 "count" none) bare).1 4096) 1
      ≡ some ("arg1", unknown 0))
    × ((apply_to (set_param_name 4096 2 "count" none) bare).0
        ≡ set_param_name 4096 2 "count" (some "arg2"))
unfolding placeholder decimal
apply_to-params_example = apply_to-params bare 4096 2 1 "count" none

reload-view_example :
    view (apply_state (from_project named_project) named_project) ≡ view named_project
reload-view_example = reload-view named_project named_project (Grows-refl (view named_project))

abbrev no_undos : CommandStack
no_undos = record { undos = []; redos = [] }

undo_last-execute_example :
    undo_last
      (execute no_undos bare (Command.set_name 4096 "start" user none)).0
      (execute no_undos bare (Command.set_name 4096 "start" user none)).1
    ≡ (
      record {
        undos = [];
        redos = (Command.apply (Command.set_name 4096 "start" user none) bare).0 ∷ [];
      },
      bare,
    )
undo_last-execute_example =
    undo_last-execute no_undos bare (Command.set_name 4096 "start" user none)

redo_last-undo_last_example :
    (let (s, p) =
        undo_last
          (execute no_undos bare (Command.set_name 4096 "start" user none)).0
          (execute no_undos bare (Command.set_name 4096 "start" user none)).1 in
      redo_last s p)
    ≡ execute no_undos bare (Command.set_name 4096 "start" user none)
redo_last-undo_last_example =
    redo_last-undo_last no_undos bare (Command.set_name 4096 "start" user none)
