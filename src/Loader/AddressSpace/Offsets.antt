-- ===== src/Loader/AddressSpace/Offsets.antt =====
-- Offsets and addresses back and forth.
use mathlib.Core.List.{Mem}
use windy_public.Prelude.{
  ℕ, ◌+◌, ◌^◌, ◌≤◌, ◌<◌, ◌≡◌, refl, Bool, true, false, not, ◌&&◌, ◌||◌, Option, none, some, List,
  [], ◌∷◌, Option-cases, inl, inr,
}
use windy_public.Loader.AddressSpace.{
  Section, AddressSpace, va_to_offset, section_at_va, is_executable, is_executable_va, is_some,
  is_valid_va, is_data_va,
}

-- A section that lies in the address space and in the file, with its file bytes in its memory.
abbrev pub IsLaidOut : ℕ → Section → Type 0
IsLaidOut image_base s =
    (image_base + s.vaddr + s.vsize < 2 ^ 64)
    × (s.raw_addr + s.raw_size < 2 ^ 32)
    × (s.raw_size ≤ s.vsize)

abbrev pub AllLaidOut : ℕ → List Section → Type 0
AllLaidOut image_base [] = Unit
AllLaidOut image_base (s ∷ ss) = IsLaidOut image_base s × AllLaidOut image_base ss

abbrev IsFound : (Section → Bool) → ℕ → List Section → Option Section → Type 0
IsFound test base ss none = Unit
IsFound test base ss (some s) = (test s ≡ true) × IsLaidOut base s × Mem s ss

abbrev IsAddressOf : AddressSpace → ℕ → Option ℕ → Type 0
IsAddressOf space offset none = Unit
IsAddressOf space offset (some va) =
    (s : Section) × Mem s space.sections × (va_to_offset s space.image_base va ≡ some offset)

code_or_data : (b : Bool) → (true ≡ (b || not b)) × ((b && not b) ≡ false)
code_or_data true = (refl, refl)
code_or_data false = (refl, refl)

-- Every address is in code, in data, or in no section, and in one of the three only.
pub is_valid_va-is_data_va :
    (space : AddressSpace) (va : ℕ)
    → (is_valid_va space va ≡ (is_executable_va space va || is_data_va space va))
      × ((is_executable_va space va && is_data_va space va) ≡ false)
unfolding is_valid_va is_executable_va is_data_va is_some
is_valid_va-is_data_va space va = elim (Option-cases (section_at_va space va)) [
  | inl e ↦ rw e (refl, refl)
  | inr (s, e) ↦ rw e (code_or_data (is_executable s))
]
