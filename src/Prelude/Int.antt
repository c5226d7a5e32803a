-- ===== src/Prelude/Int.antt =====
-- Signed integers over the native numbers, under the library's names: the `i64` offsets of stack
-- variables. Only their order and equality are used.
use windy_public.Prelude.{ℕ, suc, ◌+◌, ◌-◌, if◌then◌else◌, ◌≡◌, ◌↔◌, Bool, true, arith, ltb, ◌==◌}

-- `negsuc n` is -(n + 1).
pub data ℤ : Type 0 where
  pos : ℕ → ℤ
  negsuc : ℕ → ℤ

abbrev pub pos_part : ℤ → ℕ
pos_part (pos n) = n
pos_part (negsuc n) = 0

abbrev pub neg_part : ℤ → ℕ
neg_part (pos n) = 0
neg_part (negsuc n) = suc n

abbrev pub ltb_ℤ : ℤ → ℤ → Bool
ltb_ℤ a b = ltb (pos_part a + neg_part b) (pos_part b + neg_part a)

abbrev pub eqb_ℤ : ℤ → ℤ → Bool
eqb_ℤ a b = (pos_part a + neg_part b) == (pos_part b + neg_part a)

pub eqb_ℤ_iff : (a b : ℤ) → (eqb_ℤ a b ≡ true) ↔ (a ≡ b)
eqb_ℤ_iff a b = ground arith

-- `a - b` for two natural numbers.
abbrev pub sub_nat : ℕ → ℕ → ℤ
sub_nat a b = if ltb a b then negsuc (b - suc a) else pos (a - b)

infixl 60 ◌+ℤ◌
abbrev pub ◌+ℤ◌ : ℤ → ℤ → ℤ
a +ℤ b = sub_nat (pos_part a + pos_part b) (neg_part a + neg_part b)
