-- ===== src/Ssa/Simplify/Whole.antt =====
-- The whole pass: it ends, and the side effects stay.
use windy_public.Prelude.{ℕ, suc, ◌+◌, ◌≡◌, refl, sym, ap, ◌∙◌, subst, List, [], ◌∷◌, arith, length}
use windy_public.KeyMap.{empty}
use windy_public.Ssa.Types.{SsaVar, SsaOp, SsaFunction}
use windy_public.Ssa.Cfg.{done}
use windy_public.Ssa.Cfg.Frontier.{AllBelow, IsInside, missing_le}
use windy_public.Ssa.Alias.{OpView, Aliases, SsaAnalysis, repoint, index_defs, find_aliases}
use windy_public.Ssa.Alias.Values.{IsSound, AllHold, find_alias-IsSound, find_aliases-IsSound}
use windy_public.Ssa.Simplify.{
  flatten_blocks, rebuild, simplify, needs, seed_live, drop_self_uses, count_ops, report,
}
use windy_public.Ssa.Simplify.Marks.{
  live_loop, IsInside-needs, length-needs, IndexBelow, IndexBelow-index_defs,
}
use windy_public.Ssa.Simplify.Live.{seed_live_lem, EffectsLive-grow, EffectsLive-drop_self_uses}
use windy_public.Ssa.Simplify.Effects.{
  block_effects, effects_at-repoint, effects-rebuild, effects_from_same, effects_from-flatten,
}

length-repoint :
    {Op : Type 0} (ops : List (ℕ × SsaOp Op)) (s : Aliases) → length (repoint ops s).0 ≡ length ops
unfolding repoint
length-repoint [] s = refl
length-repoint ((b, op) ∷ ops) s = ap suc (length-repoint ops _)

-- Where the values of the variables satisfy the copies and the phis of the function, simplifying ends,
-- and each block has the side effects that it had, in their order, each with the operation, what it
-- defines, and the values that it uses.
pub simplify-effects :
    {V Op : Type 0} (val : SsaVar → V) (view : Op → OpView) (ssa : SsaFunction Op)
    → AllHold val view (flatten_blocks 0 ssa.blocks)
    → (out : SsaFunction Op × SsaAnalysis) × (simplify view ssa ≡ done out)
      × (block_effects val view out.0.blocks ≡ block_effects val view ssa.blocks)
unfolding simplify
simplify-effects val view ssa holds =
    let flat = flatten_blocks 0 ssa.blocks in
    let defs = index_defs 0 flat empty in
    let s = find_aliases view defs flat (count_ops ssa.blocks) in
    let sound = find_aliases-IsSound val view defs flat (count_ops ssa.blocks) holds in
    let work = (repoint flat s).0 in
    let size = length-repoint flat s in
    let below_flat =
      IndexBelow-index_defs (length flat) 0 flat empty (omega arith) (λ v i h. absurd (cc h)) in
    let known = subst (λ n. IndexBelow n defs) (sym size) below_flat in
    let seeds = seed_live view defs work (repoint flat s).1 in
    let (below, live, after) =
      seed_live_lem view (λ t. IsSound val t.parent) (λ t v h. (find_alias-IsSound val t v h).1)
        defs work (repoint flat s).1 known (effects_at-repoint val view 0 flat s sound).1 in
    let needed = length-needs defs work in
    let (r, e, grows) =
      live_loop (needs defs work) (suc (length flat + length seeds.0.1)) seeds.0.0 seeds.0.1
        (subst (λ n. IsInside n (needs defs work)) (sym needed)
          (IsInside-needs (length work) defs work known))
        (subst (λ n. AllBelow n seeds.0.1) (sym needed) below)
        (omega (arith, missing_le (length (needs defs work)) seeds.0.0, needed, size)) in
    let left = drop_self_uses view 0 work seeds.1 r in
    let kept =
      EffectsLive-drop_self_uses view 0 work seeds.1 r
        (EffectsLive-grow view 0 work seeds.0.0 r grows live) in
    let blocks = rebuild 0 left.0 work ssa.blocks in
    (
      (
        record ssa { blocks = blocks },
        report (count_ops ssa.blocks) (count_ops blocks) left.1.analysis,
      ),
      rw (e, simplify) refl,
      effects-rebuild val view 0 left.0 work ssa.blocks kept
          ∙ effects_from_same val view 0 ssa.blocks flat work
              (λ c. (effects_at-repoint val view c flat s sound).0)
          ∙ effects_from-flatten val view 0 ssa.blocks,
    )
