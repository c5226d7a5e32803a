-- ===== src/Ssa/Rename/Written.antt =====
-- What a block writes: its operations, in order.
use windy_public.Prelude.{
  ℕ, zero, suc, ◌<◌, ◌≡◌, refl, sym, ap, ap₂, ◌∙◌, List, [], ◌∷◌, ◌++◌, append-nil, append_assoc,
  map, get_or, set, Option, none, some, arith, length, length-set, length-replicate,
}
use windy_public.Ssa.Types.{Location, SsaOp, SsaOpKind, pcode, FlatOp}
use windy_public.Ssa.Rename.{
  Renaming, Input, rename_op, rename_ops, rename_uses, push_op, define, start, blank, all_locations,
}
use windy_public.Ssa.Rename.Unreached.{pcode_ops-seed}

-- An operation without its versions.
pub record Plain (Op : Type 0) : Type 0 where
  pub va : ℕ
  pub kind : SsaOpKind Op
  pub def : Option Location
  pub uses : List Location

get_or-set_here {ℓ} :
    {A : Type ℓ} (xs : List A) (i : ℕ) (v d : A) → i < length xs → get_or (set xs i v) i d ≡ v
get_or-set_here [] i v d h = absurd (omega arith)
get_or-set_here (x ∷ xs) zero v d h = refl
get_or-set_here (x ∷ xs) (suc i) v d h = get_or-set_here xs i v d (omega arith)

module _ {Op : Type 0} where
  abbrev pub plain_op : SsaOp Op → Plain Op
  plain_op op = record {
    va = op.va;
    kind = op.kind;
    def = elim op.def [ none ↦ none | some v ↦ some v.location ];
    uses = map (λ v. v.location) op.uses;
  }

  abbrev pub plain_flat : FlatOp Op → Plain Op
  plain_flat flat = record { va = flat.va; kind = pcode flat.op; def = flat.def; uses = flat.uses }

  -- The operations of block `x`, without versions.
  abbrev pub written : Renaming Op → ℕ → List (Plain Op)
  written s x = map plain_op (get_or s.pcode_ops x [])

  locations-rename_uses :
      (s : Renaming Op) (us : List Location) → map (λ v. v.location) (rename_uses s us) ≡ us
  unfolding rename_uses
  locations-rename_uses s [] = refl
  locations-rename_uses s (u ∷ us) = ap (λ ls. u ∷ ls) (locations-rename_uses s us)

  map-snoc :
      (ops : List (SsaOp Op)) (op : SsaOp Op)
      → map plain_op (ops ++ op ∷ []) ≡ map plain_op ops ++ plain_op op ∷ []
  map-snoc [] op = refl
  map-snoc (o ∷ ops) op = ap (λ ps. plain_op o ∷ ps) (map-snoc ops op)

  written-push_op :
      (b : ℕ) (op : SsaOp Op) (s : Renaming Op)
      → b < length s.pcode_ops
      → written (push_op b op s) b ≡ written s b ++ plain_op op ∷ []
  unfolding push_op
  written-push_op b op s h =
      ap (map plain_op) (get_or-set_here s.pcode_ops b _ [] h)
      ∙ map-snoc (get_or s.pcode_ops b []) op

  same_plain :
      (b : ℕ) (flat : FlatOp Op) (d : Option Location) (s : Renaming Op)
      → flat.def ≡ d
      → written s b
          ++ record {
            va = flat.va;
            kind = pcode flat.op;
            def = d;
            uses = map (λ v. v.location) (rename_uses s flat.uses);
          }
            ∷ []
        ≡ written s b ++ plain_flat flat ∷ []
  same_plain b flat d s e =
      ap₂
        (λ e us.
          written s b ++ record { va = flat.va; kind = pcode flat.op; def = e; uses = us } ∷ [])
        (sym e) (locations-rename_uses s flat.uses)

  written-rename_op :
      (b : ℕ) (flat : FlatOp Op) (d : Option Location) (s : Renaming Op)
      → flat.def ≡ d
      → b < length s.pcode_ops
      → written (rename_op b flat d s) b ≡ written s b ++ plain_flat flat ∷ []
  unfolding rename_op define
  written-rename_op b flat none s e h = written-push_op b _ s h ∙ same_plain b flat none s e
  written-rename_op b flat (some loc) s e h =
      written-push_op b _ (define loc s) h ∙ same_plain b flat (some loc) s e

  length-rename_op :
      (b : ℕ) (flat : FlatOp Op) (d : Option Location) (s : Renaming Op)
      → length (rename_op b flat d s).pcode_ops ≡ length s.pcode_ops
  unfolding rename_op push_op define
  length-rename_op b flat none s = length-set s.pcode_ops b _
  length-rename_op b flat (some loc) s = length-set s.pcode_ops b _

  pub length-rename_ops :
      (b : ℕ) (flats : List (FlatOp Op)) (s : Renaming Op)
      → length (rename_ops b flats s).pcode_ops ≡ length s.pcode_ops
  unfolding rename_ops
  length-rename_ops b [] s = refl
  length-rename_ops b (flat ∷ flats) s =
      length-rename_ops b flats (rename_op b flat flat.def s) ∙ length-rename_op b flat flat.def s

  pub written-rename_ops :
      (b : ℕ) (flats : List (FlatOp Op)) (s : Renaming Op)
      → b < length s.pcode_ops
      → written (rename_ops b flats s) b ≡ written s b ++ map plain_flat flats
  unfolding rename_ops
  written-rename_ops b [] s h = sym (append-nil (written s b))
  written-rename_ops b (flat ∷ flats) s h =
      written-rename_ops b flats (rename_op b flat flat.def s)
        (omega (arith, h, length-rename_op b flat flat.def s))
      ∙ ap (λ ps. ps ++ map plain_flat flats) (written-rename_op b flat flat.def s refl h)
      ∙ append_assoc (written s b) (plain_flat flat ∷ []) (map plain_flat flats)

  pub length-start : (input : Input Op) → length (start input).pcode_ops ≡ length input.block_flat
  unfolding start blank
  length-start input =
      ap length (pcode_ops-seed (all_locations input.block_flat []) (blank input))
      ∙ length-replicate (length input.block_flat) []
