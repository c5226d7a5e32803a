-- ===== src/Project/Snapshot.antt =====
-- src/project/persistence.rs: the saved state of a project, taken from it and applied to a freshly
-- analysed one. The image's path and hash, which only name the file, are left out, and so are the
-- frames that applying also hands to the analysed functions.
pub mod Reload
use windy_public.Prelude.{ℕ, String, ◌&&◌, not, Option, none, some, List, if◌then◌else◌, ◌==◌}
use windy_public.KeyMap.{KeyMap, extend}
use windy_public.Project.Types.{DataType, FunctionSignature, StackFrame}
use windy_public.Project.TypeManager.{DataTypeManager}
use windy_public.Project.Tables.{Symbol, FunctionMemoryCard, AliasEvent}
use windy_public.Project.State.{Project}

-- The lists of entries that the source saves are kept as the maps that they list.
pub record ProjectState : Type 0 where
  pub symbols : KeyMap ℕ Symbol
  pub comments_addr : KeyMap ℕ String
  pub comments_func : KeyMap ℕ String
  pub types : DataTypeManager
  pub function_frames : KeyMap ℕ StackFrame
  pub typed_globals : KeyMap ℕ DataType
  pub function_signatures : KeyMap ℕ FunctionSignature
  pub focus : Option ℕ
  pub seq : ℕ
  pub version : ℕ
  pub function_memory : KeyMap ℕ FunctionMemoryCard
  pub alias_history : List AliasEvent

abbrev pub current_version : ℕ
current_version = 3

unfoldable pub from_project : Project → ProjectState
from_project p = record {
  symbols = p.symbols;
  comments_addr = p.comments.by_addr;
  comments_func = p.comments.by_function;
  types = p.types;
  function_frames = p.function_frames;
  typed_globals = p.typed_globals;
  function_signatures = p.function_signatures;
  focus = p.focus;
  seq = p.op_seq;
  version = current_version;
  function_memory = p.function_memory;
  alias_history = p.alias_history;
}

unfoldable pub keep_focus : Option ℕ → Option ℕ → Option ℕ
keep_focus none old = old
keep_focus (some f) old = some f

-- Symbols and comments are inserted over what analysis found; the rest is replaced.
unfoldable pub apply_state : ProjectState → Project → Project
unfolding keep_focus
apply_state s p =
    if not (s.version == 2) && not (s.version == current_version) then p else record p {
      symbols = extend p.symbols s.symbols;
      comments = record {
        by_addr = extend p.comments.by_addr s.comments_addr;
        by_function = extend p.comments.by_function s.comments_func;
      };
      types = s.types;
      function_frames = s.function_frames;
      typed_globals = s.typed_globals;
      function_signatures = s.function_signatures;
      function_memory = s.function_memory;
      alias_history = s.alias_history;
      op_seq = s.seq;
      focus = keep_focus s.focus p.focus;
    }
