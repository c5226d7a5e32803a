-- ===== src/Ssa/Rename.antt =====
-- src/decompiler/ssa/rename.rs: versions for definitions and uses, on a walk over the dominator tree.
-- The operations of the lifter are of any type. Versions are numbers without bound (`u32` in the code). An
-- index out of bounds, where the code panics, reads as nothing here and is not written.
pub mod Content
pub mod Count
pub mod Fresh
pub mod Stacks
pub mod Tree
pub mod Unreached
pub mod Walk
pub mod Written
use windy_public.Prelude.{
  ℕ, zero, suc, ◌+◌, Bool, ◌||◌, Option, none, some, List, [], ◌∷◌, ◌++◌, map, if◌then◌else◌, ◌==◌,
  length, get_or, set, replicate,
}
use windy_public.Ssa.Types.{
  Location, location_beq, is_instruction_scoped, SsaVar, PhiNode, SsaOpKind, phi, pcode, SsaOp,
  FlatOp,
}
use windy_public.Ssa.Phi.{has_location}

-- The maps and tables that `rename_block` changes. A missing version stack is an empty one, with its
-- last element at the head; a missing counter is 1.
pub record Renaming (Op : Type 0) : Type 0 where
  pub current_def : Location → List ℕ
  pub next_ver : Location → ℕ
  pub phis : List (List PhiNode)
  pub pcode_ops : List (List (SsaOp Op))

unfoldable pub update {ℓ} : {A : Type ℓ} → (Location → A) → Location → A → Location → A
unfolding location_beq
update m loc a l = if location_beq l loc then a else m l

unfoldable pub set_out : List PhiNode → ℕ → ℕ → List PhiNode
set_out [] idx v = []
set_out (p ∷ ps) zero v = record p { out = record p.out { version = v } } ∷ ps
set_out (p ∷ ps) (suc idx) v = p ∷ set_out ps idx v

-- `position(|&p| p == block).unwrap_or(0)`
unfoldable pub position_or_zero : List ℕ → ℕ → ℕ → ℕ
position_or_zero [] i block = 0
position_or_zero (p ∷ ps) i block =
    let later = position_or_zero ps (suc i) block in if p == block then i else later

unfoldable pub tail_of : List ℕ → List ℕ
tail_of [] = []
tail_of (v ∷ vs) = vs

-- What a call of the renamer only reads.
pub record Input (Op : Type 0) : Type 0 where
  pub block_flat : List (List (FlatOp Op))
  pub phi_locs : List (List Location)
  pub succ : List (List ℕ)
  pub pred : List (List ℕ)
  pub dom_children : List (List ℕ)

-- `dom_children[p].push(i)`, for the blocks from `i` on.
unfoldable pub children_from : ℕ → List (Option ℕ) → List (List ℕ) → List (List ℕ)
children_from i [] table = table
children_from i (none ∷ rest) table = children_from (suc i) rest table
children_from i (some p ∷ rest) table =
    children_from (suc i) rest (if p == i then table else set table p (get_or table p [] ++ i ∷ []))

-- `all_locs`: a set, so a location is listed once. Its order is of no account.
unfoldable pub add_location : Location → List Location → List Location
unfolding has_location is_instruction_scoped
add_location l ls = if is_instruction_scoped l || has_location l ls then ls else l ∷ ls

unfoldable pub add_locations : List Location → List Location → List Location
unfolding add_location
add_locations [] ls = ls
add_locations (l ∷ rest) ls = add_locations rest (add_location l ls)

-- The phis before renaming: version 0, and an empty slot for each predecessor.
unfoldable pub blank_phis : ℕ → List Location → List PhiNode
blank_phis slots [] = []
blank_phis slots (loc ∷ locs) =
    record { out = record { location = loc; version = 0 }; args = replicate slots none }
    ∷ blank_phis slots locs

unfoldable pub blank_table : ℕ → List (List ℕ) → List (List Location) → List (List PhiNode)
unfolding blank_phis
blank_table i pred [] = []
blank_table i pred (locs ∷ rest) =
    blank_phis (length (get_or pred i [])) locs ∷ blank_table (suc i) pred rest

module _ {Op : Type 0} where
  -- `new_version`, and the push of the version that follows it everywhere.
  unfoldable pub define : Location → Renaming Op → Renaming Op
  unfolding update
  define loc s = record s {
    current_def = update s.current_def loc (s.next_ver loc ∷ s.current_def loc);
    next_ver = update s.next_ver loc (suc (s.next_ver loc));
  }

  unfoldable pub top : Renaming Op → Location → ℕ
  top s loc = elim (s.current_def loc) [ [] ↦ 0 | v ∷ vs ↦ v ]

  -- The phi outputs of block `b`, from position `idx` on.
  unfoldable pub rename_phis : ℕ → ℕ → List Location → Renaming Op → Renaming Op
  unfolding define set_out
  rename_phis b idx [] s = s
  rename_phis b idx (loc ∷ locs) s =
      let defined = define loc s in
      rename_phis b (suc idx) locs
        (record defined { phis = set s.phis b (set_out (get_or s.phis b []) idx (s.next_ver loc)) })

  unfoldable pub rename_uses : Renaming Op → List Location → List SsaVar
  unfolding top
  rename_uses s [] = []
  rename_uses s (u ∷ us) = record { location = u; version = top s u } ∷ rename_uses s us

  -- `pcode_ops[bi].push(op)`
  unfoldable pub push_op : ℕ → SsaOp Op → Renaming Op → Renaming Op
  push_op b op s = record s { pcode_ops = set s.pcode_ops b (get_or s.pcode_ops b [] ++ op ∷ []) }

  unfoldable pub rename_op : ℕ → FlatOp Op → Option Location → Renaming Op → Renaming Op
  unfolding define rename_uses push_op
  rename_op b flat none s =
      push_op b
        (record { va = flat.va; kind = pcode flat.op; def = none; uses = rename_uses s flat.uses })
        s
  rename_op b flat (some loc) s =
      push_op b
        (record {
          va = flat.va;
          kind = pcode flat.op;
          def = some (record { location = loc; version = s.next_ver loc });
          uses = rename_uses s flat.uses;
        })
        (define loc s)

  unfoldable pub rename_ops : ℕ → List (FlatOp Op) → Renaming Op → Renaming Op
  unfolding rename_op
  rename_ops b [] s = s
  rename_ops b (flat ∷ flats) s = rename_ops b flats (rename_op b flat flat.def s)

  unfoldable pub fill_args : Renaming Op → ℕ → List PhiNode → List PhiNode
  unfolding top
  fill_args s slot [] = []
  fill_args s slot (p ∷ ps) =
      record p {
        args =
            set p.args slot
              (some (record { location = p.out.location; version = top s p.out.location }));
      }
      ∷ fill_args s slot ps

  unfoldable pub fill_successors : List (List ℕ) → ℕ → List ℕ → Renaming Op → Renaming Op
  unfolding fill_args position_or_zero
  fill_successors pred b [] s = s
  fill_successors pred b (c ∷ cs) s =
      let slot = position_or_zero (get_or pred c []) 0 b in
      fill_successors pred b cs
        (record s { phis = set s.phis c (fill_args s slot (get_or s.phis c [])) })

  unfoldable pub pop_all : List Location → Renaming Op → Renaming Op
  unfolding update tail_of
  pop_all [] s = s
  pop_all (loc ∷ locs) s =
      pop_all locs
        (record s { current_def = update s.current_def loc (tail_of (s.current_def loc)) })

  unfoldable pub defs_of : List (FlatOp Op) → List Location
  defs_of [] = []
  defs_of (flat ∷ flats) = elim flat.def [ none ↦ defs_of flats | some loc ↦ loc ∷ defs_of flats ]

  -- The children of a block, one after the other.
  unfoldable pub rename_children :
      (ℕ → Renaming Op → Option (Renaming Op)) → List ℕ → Renaming Op → Option (Renaming Op)
  rename_children visit [] s = some s
  rename_children visit (c ∷ cs) s = elim (visit c s) [
    | none ↦ none
    | some t ↦ rename_children visit cs t
  ]

  -- Steps 1 to 3 of `rename_block`.
  unfoldable pub rename_here : Input Op → ℕ → Renaming Op → Renaming Op
  unfolding rename_phis rename_ops fill_successors
  rename_here input b s =
      fill_successors input.pred b (get_or input.succ b []) (
        rename_ops b (get_or input.block_flat b [])
          (rename_phis b 0 (get_or input.phi_locs b []) s))

  -- The recursion down the dominator tree; `none` is the end of the fuel.
  unfoldable pub rename_block : ℕ → Input Op → ℕ → Renaming Op → Option (Renaming Op)
  unfolding rename_here rename_children pop_all defs_of
  rename_block zero input b s = none
  rename_block (suc fuel) input b s =
      elim (rename_children (rename_block fuel input) (get_or input.dom_children b [])
        (rename_here input b s)) [
          | none ↦ none
          | some t ↦
              some
                (pop_all (get_or input.phi_locs b [] ++ defs_of (get_or input.block_flat b [])) t)
        ]

  unfoldable pub locations_of : List (FlatOp Op) → List Location → List Location
  unfolding add_locations
  locations_of [] ls = ls
  locations_of (flat ∷ flats) ls =
      locations_of flats
        (add_locations flat.uses (elim flat.def [ none ↦ ls | some d ↦ add_location d ls ]))

  unfoldable pub all_locations : List (List (FlatOp Op)) → List Location → List Location
  unfolding locations_of
  all_locations [] ls = ls
  all_locations (flats ∷ rest) ls = all_locations rest (locations_of flats ls)

  unfoldable pub seed : List Location → Renaming Op → Renaming Op
  unfolding define
  seed [] s = s
  seed (loc ∷ locs) s = seed locs (define loc s)

  -- Nothing has a version yet.
  unfoldable pub blank : Input Op → Renaming Op
  unfolding blank_table
  blank input = record {
    current_def = λ l. [];
    next_ver = λ l. 1;
    phis = blank_table 0 input.pred input.phi_locs;
    pcode_ops = replicate (length input.block_flat) [];
  }

  -- The state that the walk starts from.
  unfoldable pub start : Input Op → Renaming Op
  unfolding seed all_locations blank
  start input = seed (all_locations input.block_flat []) (blank input)

  unfoldable pub input_of :
      List (List (FlatOp Op))
      → List (List Location)
      → List (List ℕ)
      → List (List ℕ)
      → List (Option ℕ)
      → Input Op
  unfolding children_from
  input_of block_flat phi_locs succ pred idom = record {
    block_flat = block_flat;
    phi_locs = phi_locs;
    succ = succ;
    pred = pred;
    dom_children = children_from 0 idom (replicate (length block_flat) []);
  }

  -- `rename`: the walk starts at block 0. The dominator tree of n blocks is at most n deep.
  unfoldable pub rename : Input Op → Option (Renaming Op)
  unfolding rename_block start
  rename input = rename_block (suc (length input.block_flat)) input 0 (start input)
