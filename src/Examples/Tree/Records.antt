-- ===== src/Examples/Tree/Records.antt =====
-- Operations and records of the journal as trees.
use windy_public.Prelude.{ℕ, zero, suc, ◌≡◌, ◌⊎◌, inl, inr, refl, ap, ap₂, String, Option}
use windy_public.Prelude.Int.{ℤ}
use windy_public.Project.Types.{DataType, FunctionSignature}
use windy_public.Project.Tables.{SymbolKind, CommentScope, FunctionMemoryCard}
use windy_public.Project.Op.{
  Op, Ops, rename_symbol, set_comment, set_focus, set_global_type, set_function_signature,
  set_stack_local_type, set_stack_local_name, set_param_name, set_function_memory, batch,
}
use windy_public.Journal.{JournalRecord}
use windy_public.Examples.Tree.{Tree, num, node}
use windy_public.Examples.Tree.Text.{
  Pack, number, pack_nat, pack_text, pack_option, pack_list, pack_pair, pack_sum,
}
use windy_public.Examples.Tree.Values.{
  pack_int, pack_kind, pack_scope, pack_type, pack_signature, pack_card,
}

abbrev Rename : Type 0
Rename = ℕ × (String × (SymbolKind × (Option String × Option SymbolKind)))

abbrev Comment : Type 0
Comment = ℕ × (CommentScope × (String × Option String))

abbrev Focus : Type 0
Focus = ℕ × Option ℕ

abbrev Global : Type 0
Global = ℕ × (DataType × Option DataType)

abbrev Signature : Type 0
Signature = ℕ × (FunctionSignature × Option FunctionSignature)

abbrev LocalType : Type 0
LocalType = ℕ × (ℤ × (DataType × Option DataType))

abbrev LocalName : Type 0
LocalName = ℕ × (ℤ × (String × Option (Option String)))

abbrev Param : Type 0
Param = ℕ × (ℕ × (String × Option String))

abbrev Memory : Type 0
Memory = ℕ × (FunctionMemoryCard × Option (Option FunctionMemoryCard))

abbrev Single : Type 0
Single =
    Rename
    ⊎ (Comment ⊎ (Focus ⊎ (Global ⊎ (Signature ⊎ (LocalType ⊎ (LocalName ⊎ (Param ⊎ Memory)))))))

unfoldable to_op : Single → Op
to_op (inl (va, (n, (k, (o, ok))))) = rename_symbol va n k o ok
to_op (inr (inl (va, (s, (t, o))))) = set_comment va s t o
to_op (inr (inr (inl (va, o)))) = set_focus va o
to_op (inr (inr (inr (inl (va, (t, o)))))) = set_global_type va t o
to_op (inr (inr (inr (inr (inl (va, (s, o))))))) = set_function_signature va s o
to_op (inr (inr (inr (inr (inr (inl (va, (z, (t, o))))))))) = set_stack_local_type va z t o
to_op (inr (inr (inr (inr (inr (inr (inl (va, (z, (n, o)))))))))) = set_stack_local_name va z n o
to_op (inr (inr (inr (inr (inr (inr (inr (inl (va, (i, (n, o))))))))))) = set_param_name va i n o
to_op (inr (inr (inr (inr (inr (inr (inr (inr (va, (c, o)))))))))) = set_function_memory va c o

abbrev pack_single : Pack Single
pack_single = pack_sum

unfoldable mutual
  tree_op : Tree → Op
  tree_op (num n) = batch Ops.nil
  tree_op (node (node a b) t) = batch Ops.nil
  tree_op (node (num zero) t) = to_op (pack_single.unpack t)
  tree_op (node (num (suc n)) t) = batch (tree_ops t)

  tree_ops : Tree → Ops
  tree_ops (num n) = Ops.nil
  tree_ops (node a b) = Ops.cons (tree_op a) (tree_ops b)

unfoldable single : Single → Tree
single s = node (num 0) (pack_single.pack s)

unfoldable mutual
  op_tree : Op → Tree
  op_tree (rename_symbol va n k o ok) = single (inl (va, (n, (k, (o, ok)))))
  op_tree (set_comment va s t o) = single (inr (inl (va, (s, (t, o)))))
  op_tree (set_focus va o) = single (inr (inr (inl (va, o))))
  op_tree (set_global_type va t o) = single (inr (inr (inr (inl (va, (t, o))))))
  op_tree (set_function_signature va s o) = single (inr (inr (inr (inr (inl (va, (s, o)))))))
  op_tree (set_stack_local_type va z t o) =
      single (inr (inr (inr (inr (inr (inl (va, (z, (t, o)))))))))
  op_tree (set_stack_local_name va z n o) =
      single (inr (inr (inr (inr (inr (inr (inl (va, (z, (n, o))))))))))
  op_tree (set_param_name va i n o) =
      single (inr (inr (inr (inr (inr (inr (inr (inl (va, (i, (n, o)))))))))))
  op_tree (set_function_memory va c o) =
      single (inr (inr (inr (inr (inr (inr (inr (inr (va, (c, o))))))))))
  op_tree (batch ops) = node (num 1) (ops_tree ops)

  ops_tree : Ops → Tree
  ops_tree Ops.nil = num 0
  ops_tree (Ops.cons op ops) = node (op_tree op) (ops_tree ops)

tree_op-single : (s : Single) → tree_op (single s) ≡ to_op s
unfolding tree_op single
tree_op-single s = ap to_op (pack_single.unpack-pack s)

mutual
  unfolding to_op tree_op op_tree

  tree_op-op_tree : (op : Op) → tree_op (op_tree op) ≡ op
  tree_op-op_tree (rename_symbol va n k o ok) = tree_op-single _
  tree_op-op_tree (set_comment va s t o) = tree_op-single _
  tree_op-op_tree (set_focus va o) = tree_op-single _
  tree_op-op_tree (set_global_type va t o) = tree_op-single _
  tree_op-op_tree (set_function_signature va s o) = tree_op-single _
  tree_op-op_tree (set_stack_local_type va z t o) = tree_op-single _
  tree_op-op_tree (set_stack_local_name va z n o) = tree_op-single _
  tree_op-op_tree (set_param_name va i n o) = tree_op-single _
  tree_op-op_tree (set_function_memory va c o) = tree_op-single _
  tree_op-op_tree (batch ops) = ap batch (tree_ops-ops_tree ops)

  tree_ops-ops_tree : (ops : Ops) → tree_ops (ops_tree ops) ≡ ops
  tree_ops-ops_tree Ops.nil = refl
  tree_ops-ops_tree (Ops.cons op ops) = ap₂ Ops.cons (tree_op-op_tree op) (tree_ops-ops_tree ops)

pub record_tree : JournalRecord → Tree
record_tree r = node (num r.seq) (op_tree r.op)

pub tree_record : Tree → JournalRecord
tree_record (num n) = record { seq = n; op = batch Ops.nil }
tree_record (node a b) = record { seq = number a; op = tree_op b }

pub tree_record-record_tree : (r : JournalRecord) → tree_record (record_tree r) ≡ r
unfolding tree_record record_tree number
tree_record-record_tree r = λ i. record { seq = r.seq; op = tree_op-op_tree r.op i }
