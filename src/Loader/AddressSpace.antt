-- ===== src/Loader/AddressSpace.antt =====
-- src/loader/address_space.rs: virtual addresses and file offsets through the section table.
pub mod Offsets
use mathlib.Core.Option
use windy_public.Prelude.{
  ℕ, ◌+◌, ◌-◌, ◌/◌, ◌%◌, ◌^◌, Bool, true, false, not, ◌&&◌, Option, none, some, List, [], ◌∷◌,
  if◌then◌else◌, ltb, leb, ◌==◌, length, take, drop,
}
use windy_public.Project.State.{saturating_add}

pub record Section : Type 0 where
  pub vaddr : ℕ
  pub vsize : ℕ
  pub raw_addr : ℕ
  pub raw_size : ℕ
  pub characteristics : ℕ

pub record AddressSpace : Type 0 where
  pub image_base : ℕ
  pub sections : List Section

-- `characteristics & 0x2000_0000 != 0`
unfoldable pub is_executable : Section → Bool
is_executable s = (s.characteristics / 2 ^ 29) % 2 == 1

-- `image_base + u64::from(vaddr)`, which wraps in a release build.
unfoldable pub section_start : ℕ → Section → ℕ
section_start image_base s = (image_base + s.vaddr) % 2 ^ 64

-- `Section::contains_va`
unfoldable pub section_contains : Section → ℕ → ℕ → Bool
unfolding section_start
section_contains s image_base va =
    let start = section_start image_base s in leb start va && ltb va (saturating_add start s.vsize)

unfoldable pub va_to_offset : Section → ℕ → ℕ → Option ℕ
unfolding section_contains
va_to_offset s image_base va =
    let inside = (va - image_base) - s.vaddr in
    if not (section_contains s image_base va)
    then none
    else if leb s.raw_size inside
    then none
    else some (saturating_add s.raw_addr inside)

-- `sections.iter().find(…)`
unfoldable pub find : (Section → Bool) → List Section → Option Section
find test [] = none
find test (s ∷ ss) = if test s then some s else find test ss

unfoldable pub section_at_va : AddressSpace → ℕ → Option Section
unfolding find section_contains
section_at_va space va = find (λ s. section_contains s space.image_base va) space.sections

unfoldable pub is_executable_va : AddressSpace → ℕ → Bool
unfolding section_at_va is_executable
is_executable_va space va = Option.get_or (Option.map is_executable (section_at_va space va)) false

unfoldable pub is_some {ℓ} : {A : Type ℓ} → Option A → Bool
is_some none = false
is_some (some a) = true

unfoldable pub is_valid_va : AddressSpace → ℕ → Bool
unfolding section_at_va is_some
is_valid_va space va = is_some (section_at_va space va)

unfoldable pub is_data_va : AddressSpace → ℕ → Bool
unfolding section_at_va is_executable
is_data_va space va =
    Option.get_or (Option.map (λ s. not (is_executable s)) (section_at_va space va)) false

-- `u32::saturating_add`
unfoldable pub saturating_add_32 : ℕ → ℕ → ℕ
saturating_add_32 a b = if leb (2 ^ 32) (a + b) then 2 ^ 32 - 1 else a + b

unfoldable pub holds_offset : ℕ → Section → Bool
unfolding saturating_add_32
holds_offset offset s =
    leb s.raw_addr offset && ltb offset (saturating_add_32 s.raw_addr s.raw_size)

unfoldable pub va_of_offset : ℕ → ℕ → Section → ℕ
va_of_offset image_base offset s = (image_base + s.vaddr + (offset - s.raw_addr)) % 2 ^ 64

unfoldable pub offset_to_va : AddressSpace → ℕ → Option ℕ
unfolding find holds_offset va_of_offset
offset_to_va space offset =
    if leb (2 ^ 32) offset
    then none
    else Option.map (va_of_offset space.image_base offset)
        (find (holds_offset offset) space.sections)

unfoldable pub executable_of : List Section → List Section
unfolding is_executable
executable_of [] = []
executable_of (s ∷ ss) = let rest = executable_of ss in if is_executable s then s ∷ rest else rest

unfoldable pub exec_sections : AddressSpace → List Section
unfolding executable_of
exec_sections space = executable_of space.sections

-- `image.get(file_offset..file_offset.checked_add(len)?)`
unfoldable pub get_range : List ℕ → ℕ → ℕ → Option (List ℕ)
get_range image offset len =
    if leb (2 ^ 64) (offset + len)
    then none
    else if leb (offset + len) (length image)
    then some (take len (drop offset image))
    else none

unfoldable pub slice_in : List ℕ → ℕ → ℕ → ℕ → Section → Option (List ℕ)
unfolding get_range va_to_offset
slice_in image image_base va len s = elim (va_to_offset s image_base va) [
  | none ↦ none
  | some offset ↦ get_range image offset len
]

unfoldable pub slice_for_va : AddressSpace → List ℕ → ℕ → ℕ → Option (List ℕ)
unfolding section_at_va slice_in
slice_for_va space image va len = elim (section_at_va space va) [
  | none ↦ none
  | some s ↦ slice_in image space.image_base va len s
]
