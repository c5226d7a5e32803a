-- ===== src/Loader/MemoryMap.antt =====
-- src/loader/dump/memory_map.rs: the ranges of process memory that a dump holds. The dump's file is a
-- list of bytes, and a region's `data` pointer is an index into it.
pub mod Merge
use windy_public.Prelude.{
  ℕ, ◌+◌, ◌-◌, ◌^◌, min, Bool, true, false, not, ◌&&◌, ◌||◌, Option, none, some, List, [], ◌∷◌,
  if◌then◌else◌, ltb, leb, ◌==◌, length, take, drop, String,
}
use windy_public.Project.State.{saturating_add}

pub record IndexedRegion : Type 0 where
  pub va_start : ℕ
  pub size : ℕ
  pub data_ptr : ℕ

pub data MemorySource : Type 0 where
  no_source memory_list memory64_list mixed : MemorySource

pub record ProcessMemoryMap : Type 0 where
  pub regions : List IndexedRegion
  pub total_bytes : ℕ
  pub source : MemorySource

pub data ReadStatus : Type 0 where
  ok partial : List ℕ → ReadStatus
  unmapped : ReadStatus

-- `ReadStatus::ok`
unfoldable pub all_bytes : ReadStatus → Option (List ℕ)
all_bytes (ok bs) = some bs
all_bytes (partial bs) = none
all_bytes unmapped = none

unfoldable pub as_slice : ReadStatus → Option (List ℕ)
as_slice (ok bs) = some bs
as_slice (partial bs) = some bs
as_slice unmapped = none

unfoldable pub region_end : IndexedRegion → ℕ
unfolding saturating_add
region_end r = saturating_add r.va_start r.size

unfoldable pub merge_from : IndexedRegion → List IndexedRegion → List IndexedRegion
unfolding region_end
merge_from cur [] = cur ∷ []
merge_from cur (next ∷ rest) =
    let merged = merge_from (record cur { size = saturating_add cur.size next.size }) rest in
    let apart = cur ∷ merge_from next rest in
    if next.va_start == region_end cur && next.data_ptr == (cur.data_ptr + cur.size)
    then merged
    else apart

unfoldable pub merge_adjacent : List IndexedRegion → List IndexedRegion
unfolding merge_from
merge_adjacent [] = []
merge_adjacent (r ∷ rs) = merge_from r rs

-- What `minidump` says of a memory block: whether it is of the 64-bit list, where it begins, and
-- where its bytes are.
pub record UnifiedMemory : Type 0 where
  pub is_64 : Bool
  pub base_address : ℕ
  pub data_ptr : ℕ
  pub size : ℕ

unfoldable pub insert_by_start : IndexedRegion → List IndexedRegion → List IndexedRegion
insert_by_start r [] = r ∷ []
insert_by_start r (s ∷ ss) =
    let rest = insert_by_start r ss in if leb r.va_start s.va_start then r ∷ s ∷ ss else s ∷ rest

-- `sort_unstable_by_key(|r| r.va_start)`, on regions that start at different addresses.
unfoldable pub sort_by_start : List IndexedRegion → List IndexedRegion
unfolding insert_by_start
sort_by_start [] = []
sort_by_start (r ∷ rs) = insert_by_start r (sort_by_start rs)

unfoldable pub index_regions : List UnifiedMemory → List IndexedRegion
index_regions [] = []
index_regions (m ∷ ms) =
    let rest = index_regions ms in
    let region : IndexedRegion = record {
      va_start = m.base_address;
      size = m.size;
      data_ptr = m.data_ptr;
    } in
    if m.size == 0 then rest else region ∷ rest

unfoldable pub total_size : ℕ → List UnifiedMemory → ℕ
unfolding saturating_add
total_size total [] = total
total_size total (m ∷ ms) = total_size (saturating_add total m.size) ms

unfoldable pub saw : Bool → List UnifiedMemory → Bool
saw wide [] = false
saw wide (m ∷ ms) = (if wide then m.is_64 else not m.is_64) || saw wide ms

unfoldable pub source_of : Bool → Bool → MemorySource
source_of false false = no_source
source_of true false = memory_list
source_of false true = memory64_list
source_of true true = mixed

abbrev pub empty_map : ProcessMemoryMap
empty_map = record { regions = []; total_bytes = 0; source = no_source }

unfoldable pub from_unified : Option (List UnifiedMemory) → ProcessMemoryMap
unfolding merge_adjacent sort_by_start index_regions total_size saw source_of
from_unified none = empty_map
from_unified (some ms) = record {
  regions = merge_adjacent (sort_by_start (index_regions ms));
  total_bytes = total_size 0 ms;
  source = source_of (saw false ms) (saw true ms);
}

unfoldable pub region_count : ProcessMemoryMap → ℕ
region_count m = length m.regions

unfoldable pub source_label : ProcessMemoryMap → String
source_label m = elim m.source [
  | no_source ↦ "none"
  | memory_list ↦ "MemoryList"
  | memory64_list ↦ "Memory64List"
  | mixed ↦ "mixed"
]

-- The public part of each region of a page: where it starts and its size.
unfoldable pub page_entries : List IndexedRegion → List (ℕ × ℕ)
page_entries [] = []
page_entries (r ∷ rs) = (r.va_start, r.size) ∷ page_entries rs

unfoldable pub regions_page : ProcessMemoryMap → ℕ → ℕ → List (ℕ × ℕ)
unfolding page_entries
regions_page m offset limit = page_entries (take limit (drop offset m.regions))

-- `regions[partition_point(|r| r.va_start.saturating_add(r.size) <= va)]`: the first region that ends
-- after `va`, where the regions' ends ascend.
unfoldable pub first_ending_after : List IndexedRegion → ℕ → Option IndexedRegion
unfolding region_end
first_ending_after [] va = none
first_ending_after (r ∷ rs) va =
    let rest = first_ending_after rs va in if leb (region_end r) va then rest else some r

module _ (dump : List ℕ) where
  unfoldable pub slice_from_region : IndexedRegion → ℕ → ℕ → ReadStatus
  slice_from_region r va len =
      let offset = va - r.va_start in
      let avail = r.size - offset in
      let slice = take (min avail len) (drop (r.data_ptr + offset) dump) in
      if avail == 0 then unmapped else if min avail len == len then ok slice else partial slice

  unfoldable pub read_region : ℕ → ℕ → IndexedRegion → ReadStatus
  unfolding slice_from_region region_end
  read_region va len r =
      if ltb va r.va_start || leb (region_end r) va then unmapped else slice_from_region r va len

  unfoldable pub read_at : List IndexedRegion → ℕ → ℕ → ReadStatus
  unfolding first_ending_after read_region
  read_at regions va len =
      if len == 0
      then ok []
      else elim (first_ending_after regions va) [ none ↦ unmapped | some r ↦ read_region va len r ]

  unfoldable pub is_mapped : ReadStatus → Bool
  is_mapped (ok bs) = true
  is_mapped (partial bs) = true
  is_mapped unmapped = false

  unfoldable pub contains_va : List IndexedRegion → ℕ → Bool
  unfolding read_at is_mapped
  contains_va regions va = is_mapped (read_at regions va 1)
