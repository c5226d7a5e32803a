-- ===== src/Ssa/Rename/Stacks.antt =====
-- Each block pops the versions that it pushed.
use windy_public.Prelude.{
  ℕ, suc, ◌≡◌, refl, sym, ap, ◌∙◌, List, [], ◌∷◌, ◌++◌, if◌then◌else◌, get_or, inl, inr, Bool-cases,
  Option-cases,
}
use windy_public.Ssa.Types.{Location, location_beq, location_beq_iff, FlatOp}
use windy_public.Ssa.Rename.{
  Renaming, Input, update, define, tail_of, rename_phis, rename_op, rename_ops, push_op,
  fill_successors, pop_all, defs_of, rename_here,
}

-- The stack of `l` after a pop for each location of the list.
unfoldable drops : Location → List Location → List ℕ → List ℕ
unfolding tail_of
drops l [] vs = vs
drops l (k ∷ ks) vs = drops l ks (if location_beq l k then tail_of vs else vs)

tail_of-drops :
    (l : Location) (ks : List Location) (vs : List ℕ)
    → tail_of (drops l ks vs) ≡ drops l ks (tail_of vs)
unfolding drops
tail_of-drops l [] vs = refl
tail_of-drops l (k ∷ ks) vs = elim (Bool-cases (location_beq l k)) [
  | inl e ↦ rw e (tail_of-drops l ks (tail_of vs))
  | inr e ↦ rw e (tail_of-drops l ks vs)
]

drops-append :
    (l : Location) (xs ys : List Location) (vs : List ℕ)
    → drops l (xs ++ ys) vs ≡ drops l ys (drops l xs vs)
unfolding drops
drops-append l [] ys vs = refl
drops-append l (x ∷ xs) ys vs = drops-append l xs ys (if location_beq l x then tail_of vs else vs)

drops_commute :
    (l : Location) (xs ys : List Location) (vs : List ℕ)
    → drops l xs (drops l ys vs) ≡ drops l ys (drops l xs vs)
unfolding drops
drops_commute l [] ys vs = refl
drops_commute l (x ∷ xs) ys vs = elim (Bool-cases (location_beq l x)) [
  | inl e ↦ rw e (ap (drops l xs) (tail_of-drops l ys vs) ∙ drops_commute l xs ys (tail_of vs))
  | inr e ↦ rw e (drops_commute l xs ys vs)
]

module _ {Op : Type 0} where
  drops-define :
      (loc l : Location) (ks : List Location) (s : Renaming Op) (vs : List ℕ)
      → drops l ks vs ≡ (define loc s).current_def l
      → drops l (loc ∷ ks) vs ≡ s.current_def l
  unfolding define update drops tail_of
  drops-define loc l ks s vs h = elim (Bool-cases (location_beq l loc)) [
    | inl e ↦ rw e (
        sym (tail_of-drops l ks vs)
        ∙ ap tail_of h
        ∙ rw e (ap s.current_def (sym ((location_beq_iff l loc).0 e))))
    | inr e ↦ rw e (h ∙ rw e refl)
  ]

  rename_phis_pushes :
      (b idx : ℕ) (locs : List Location) (s : Renaming Op) (l : Location)
      → drops l locs ((rename_phis b idx locs s).current_def l) ≡ s.current_def l
  unfolding rename_phis drops
  rename_phis_pushes b idx [] s l = refl
  rename_phis_pushes b idx (loc ∷ locs) s l =
      drops-define loc l locs s _ (rename_phis_pushes b (suc idx) locs _ l)

  rename_ops_pushes :
      (b : ℕ) (flats : List (FlatOp Op)) (s : Renaming Op) (l : Location)
      → drops l (defs_of flats) ((rename_ops b flats s).current_def l) ≡ s.current_def l
  unfolding rename_ops rename_op push_op defs_of drops
  rename_ops_pushes b [] s l = refl
  rename_ops_pushes b (flat ∷ flats) s l = elim (Option-cases flat.def) [
    | inl e ↦ rw e (rename_ops_pushes b flats _ l)
    | inr (loc, e) ↦ rw e (drops-define loc l (defs_of flats) s _ (rename_ops_pushes b flats _ l))
  ]

  current_def-fill_successors :
      (pred : List (List ℕ)) (b : ℕ) (cs : List ℕ) (s : Renaming Op)
      → (fill_successors pred b cs s).current_def ≡ s.current_def
  unfolding fill_successors
  current_def-fill_successors pred b [] s = refl
  current_def-fill_successors pred b (c ∷ cs) s = current_def-fill_successors pred b cs _

  updated :
      (loc l : Location) (s : Renaming Op)
      → update s.current_def loc (tail_of (s.current_def loc)) l
        ≡ (if location_beq l loc then tail_of (s.current_def l) else s.current_def l)
  unfolding update
  updated loc l s = elim (Bool-cases (location_beq l loc)) [
    | inl e ↦ rw e (ap (λ k. tail_of (s.current_def k)) (sym ((location_beq_iff l loc).0 e)))
    | inr e ↦ rw e refl
  ]

  current_def-pop_all :
      (locs : List Location) (s : Renaming Op) (l : Location)
      → (pop_all locs s).current_def l ≡ drops l locs (s.current_def l)
  unfolding pop_all update drops tail_of
  current_def-pop_all [] s l = refl
  current_def-pop_all (loc ∷ locs) s l =
      current_def-pop_all locs _ l ∙ ap (drops l locs) (updated loc l s)

  -- The locations that a block pushes, in the order it pops them.
  abbrev pub pushed_by : Input Op → ℕ → List Location
  pushed_by input b = get_or input.phi_locs b [] ++ defs_of (get_or input.block_flat b [])

  pub popped_again :
      (input : Input Op) (b : ℕ) (s t : Renaming Op)
      → ((l : Location) → t.current_def l ≡ (rename_here input b s).current_def l)
      → (l : Location) → (pop_all (pushed_by input b) t).current_def l ≡ s.current_def l
  unfolding rename_here
  popped_again input b s t h l =
      let locs = get_or input.phi_locs b [] in
      let flats = get_or input.block_flat b [] in
      let phied = rename_phis b 0 locs s in
      current_def-pop_all (pushed_by input b) t l
      ∙ ap (drops l (pushed_by input b)) (
          h l
          ∙ ap (λ m. m l)
              (current_def-fill_successors input.pred b (get_or input.succ b [])
                (rename_ops b flats phied)))
      ∙ drops-append l locs (defs_of flats) _
      ∙ drops_commute l (defs_of flats) locs _
      ∙ ap (drops l locs) (rename_ops_pushes b flats phied l)
      ∙ rename_phis_pushes b 0 locs s l
