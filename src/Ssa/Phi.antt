-- ===== src/Ssa/Phi.antt =====
-- src/decompiler/ssa/phi.rs: where a location needs a phi node.
pub mod Placed
use windy_public.Prelude.{
  ℕ, Bool, true, false, ◌||◌, List, [], ◌∷◌, ◌++◌, if◌then◌else◌, leb, length, get_or, set,
  replicate,
}
use windy_public.Ssa.Types.{Location, location_beq}
use windy_public.Ssa.Cfg.{Run, done, out_of_bounds, out_of_fuel, iterated_df}

unfoldable pub has_location : Location → List Location → Bool
unfolding location_beq
has_location l [] = false
has_location l (k ∷ ks) = location_beq l k || has_location l ks

-- One block of an iterated frontier.
unfoldable pub push_phi : Location → ℕ → List (List Location) → List (List Location)
unfolding has_location
push_phi loc b table =
    if leb (length table) b
    then table
    else if has_location loc (get_or table b [])
    then table
    else set table b (get_or table b [] ++ loc ∷ [])

unfoldable pub push_phis : Location → List ℕ → List (List Location) → List (List Location)
unfolding push_phi
push_phis loc [] table = table
push_phis loc (b ∷ bs) table = push_phis loc bs (push_phi loc b table)

-- The loop over the map from locations to the blocks that define them, in the map's order.
unfoldable pub place_each :
    List (Location × List ℕ) → List (List ℕ) → List (List Location) → Run (List (List Location))
unfolding push_phis
place_each [] df table = done table
place_each ((loc, blocks) ∷ rest) df table = elim (leb 2 (length blocks)) [
  | false ↦ place_each rest df table
  | true ↦ elim (iterated_df df blocks) [
    | done idf ↦ place_each rest df (push_phis loc idf table)
    | out_of_bounds ↦ out_of_bounds
    | out_of_fuel ↦ out_of_fuel
  ]
]

unfoldable pub place_phis : List (Location × List ℕ) → List (List ℕ) → Run (List (List Location))
unfolding place_each
place_phis def_blocks df = place_each def_blocks df (replicate (length df) [])
