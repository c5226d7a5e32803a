-- ===== src/Examples/Tree.antt =====
-- A concrete reader and writer of records, for the tests: values as binary trees, trees as bytes.
pub mod Text
pub mod Values
pub mod Records
use windy_public.Prelude.{
  ℕ, zero, suc, ◌≡◌, refl, ap, sym, ◌∙◌, Option, none, some, List, [], ◌∷◌, ◌++◌, append_assoc,
  append-nil, if◌then◌else◌, ◌==◌,
}

pub data Tree : Type 0 where
  num : ℕ → Tree
  node : Tree → Tree → Tree

-- Postfix, in digits: 0 pushes the number zero, 1 counts it up, 2 joins two trees.
unfoldable pub bytes : Tree → List ℕ
bytes (num zero) = 48 ∷ []
bytes (num (suc n)) = bytes (num n) ++ 49 ∷ []
bytes (node a b) = bytes a ++ (bytes b ++ 50 ∷ [])

unfoldable pub count_up : List Tree → List Tree
count_up [] = []
count_up (num n ∷ st) = num (suc n) ∷ st
count_up (node a b ∷ st) = []

unfoldable pub join : List Tree → List Tree
join [] = []
join (b ∷ []) = []
join (b ∷ a ∷ st) = node a b ∷ st

unfoldable pub push_byte : ℕ → List Tree → List Tree
unfolding count_up join
push_byte b st =
    if b == 48 then num 0 ∷ st else if b == 49 then count_up st else if b == 50 then join st else []

unfoldable pub run : List ℕ → List Tree → List Tree
unfolding push_byte
run [] st = st
run (b ∷ bs) st = run bs (push_byte b st)

unfoldable pub top : List Tree → Option Tree
top [] = none
top (t ∷ []) = some t
top (t ∷ u ∷ st) = none

pub run-bytes :
    (t : Tree) (rest : List ℕ) (st : List Tree) → run (bytes t ++ rest) st ≡ run rest (t ∷ st)
unfolding run bytes
run-bytes (num zero) rest st = refl
run-bytes (num (suc n)) rest st = rw append_assoc (run-bytes (num n) (49 ∷ rest) st)
run-bytes (node a b) rest st = rw append_assoc (
    run-bytes a ((bytes b ++ 50 ∷ []) ++ rest) st
    ∙ rw append_assoc (run-bytes b (50 ∷ rest) (a ∷ st)))

-- Reading the bytes of a tree gives the tree.
pub top-run-bytes : (t : Tree) → top (run (bytes t) []) ≡ some t
unfolding top run
top-run-bytes t = ap (λ l. top (run l [])) (sym (append-nil (bytes t))) ∙ ap top (run-bytes t [] [])
