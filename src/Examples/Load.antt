-- ===== src/Examples/Load.antt =====
-- The theorems on a small image and a small dump.
use windy_public.Prelude.{ℕ, ◌^◌, ◌≡◌, refl, List, [], ◌∷◌, arith}
use windy_public.Loader.AddressSpace.{Section, AddressSpace}
use windy_public.Loader.MemoryMap.{IndexedRegion, read_at, merge_adjacent}
use windy_public.Loader.MemoryMap.Merge.{
  locate, answer, byte_index, read_at-locate, merge_adjacent-byte_index,
}

abbrev text : Section
text = record { vaddr = 4096; vsize = 32; raw_addr = 2; raw_size = 4; characteristics = 2 ^ 29 }

abbrev small : AddressSpace
small = record { image_base = 65536; sections = text ∷ [] }

abbrev image : List ℕ
image = 1 ∷ 2 ∷ 3 ∷ 4 ∷ 5 ∷ 6 ∷ []

abbrev two_regions : List IndexedRegion
two_regions =
    record { va_start = 4096; size = 4; data_ptr = 0 }
    ∷ record { va_start = 4100; size = 2; data_ptr = 4 }
    ∷ []

read_at-locate_example : read_at image two_regions 4098 4 ≡ answer image 4 (locate two_regions 4098)
read_at-locate_example =
    read_at-locate image two_regions 4098 4
      (omega arith, omega arith, (omega arith, omega arith, tt)) refl

merge_adjacent-byte_index_example :
    byte_index (merge_adjacent two_regions) 4101 ≡ byte_index two_regions 4101
merge_adjacent-byte_index_example =
    merge_adjacent-byte_index two_regions 4101
      (omega arith, omega arith, (omega arith, omega arith, tt))
