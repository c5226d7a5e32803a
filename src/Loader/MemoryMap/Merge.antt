-- ===== src/Loader/MemoryMap/Merge.antt =====
-- Reading finds the bytes of an address, and merging regions moves none.
use windy_public.Prelude.{
  ℕ, subst, ◌+◌, ◌-◌, ◌^◌, ◌≤◌, ◌<◌, ◌≡◌, refl, ap, ◌∙◌, true, false, ◌&&◌, Option, none, some,
  List, [], ◌∷◌, if◌then◌else◌, arith, take, drop, ltb, leb, ◌==◌, Bool-cases, inl, inr,
}
use windy_public.Project.State.{saturating_add}
use windy_public.Loader.MemoryMap.{
  IndexedRegion, ReadStatus, ok, partial, unmapped, region_end, merge_from, merge_adjacent,
  first_ending_after, slice_from_region, read_region, read_at,
}

-- The regions begin at `lo` or later, one after the other, and end below 2^64.
abbrev pub IsApart : ℕ → List IndexedRegion → Type 0
IsApart lo [] = Unit
IsApart lo (r ∷ rs) =
    (lo ≤ r.va_start) × (r.va_start + r.size < 2 ^ 64) × IsApart (r.va_start + r.size) rs

-- The index of an address's byte in the dump, in the first region that holds the address, and how
-- many bytes that region has from there on.
unfoldable pub locate : List IndexedRegion → ℕ → Option (ℕ × ℕ)
locate [] va = none
locate (r ∷ rs) va =
    if leb r.va_start va && ltb va (r.va_start + r.size)
    then some (r.data_ptr + (va - r.va_start), r.size - (va - r.va_start))
    else locate rs va

unfoldable pub byte_index : List IndexedRegion → ℕ → Option ℕ
unfolding locate
byte_index [] va = none
byte_index (r ∷ rs) va =
    if leb r.va_start va && ltb va (r.va_start + r.size)
    then some (r.data_ptr + (va - r.va_start))
    else byte_index rs va

-- What a read should answer.
unfoldable pub answer : List ℕ → ℕ → Option (ℕ × ℕ) → ReadStatus
answer dump len none = unmapped
answer dump len (some (start, avail)) =
    if leb len avail
    then ok (take len (drop start dump))
    else partial (take avail (drop start dump))

locate_below : (rs : List IndexedRegion) (lo va : ℕ) → IsApart lo rs → va < lo → locate rs va ≡ none
unfolding locate
locate_below [] lo va a h = refl
locate_below (r ∷ rs) lo va a h = ground (arith, locate_below rs (r.va_start + r.size) va a.2)

take_answer :
    (dump : List ℕ) (r : IndexedRegion) (va len : ℕ)
    → r.va_start ≤ va
    → va < r.va_start + r.size
    → r.va_start + r.size < 2 ^ 64
    → (len == 0) ≡ false
    → read_region dump va len r
      ≡ answer dump len (some (r.data_ptr + (va - r.va_start), r.size - (va - r.va_start)))
unfolding read_region slice_from_region region_end saturating_add answer
take_answer dump r va len h k l n = ground arith

region_end_lem :
    (r : IndexedRegion) → r.va_start + r.size < 2 ^ 64 → region_end r ≡ r.va_start + r.size
unfolding region_end saturating_add
region_end_lem r h = omega arith

read_found : List ℕ → ℕ → ℕ → Option IndexedRegion → ReadStatus
read_found dump va len none = unmapped
read_found dump va len (some r) = read_region dump va len r

read_below :
    (dump : List ℕ) (r : IndexedRegion) (va len : ℕ)
    → ltb va r.va_start ≡ true
    → read_region dump va len r ≡ answer dump len none
unfolding read_region answer
read_below dump r va len l = rw (l, read_region) refl

read_first :
    (dump : List ℕ) (rs : List IndexedRegion) (lo va len : ℕ)
    → IsApart lo rs
    → (len == 0) ≡ false
    → read_found dump va len (first_ending_after rs va) ≡ answer dump len (locate rs va)
unfolding first_ending_after locate read_found
read_first dump [] lo va len a n = unfold answer in refl
read_first dump (r ∷ rs) lo va len a n =
    let at_end : region_end r ≡ r.va_start + r.size = region_end_lem r a.1 in
    elim (Bool-cases (leb (region_end r) va)) [
      | inl e ↦
          let out : (leb r.va_start va && ltb va (r.va_start + r.size)) ≡ false =
            ground (arith, at_end, e) in
          rw (e, first_ending_after)
            (rw (out, locate) (read_first dump rs (r.va_start + r.size) va len a.2 n))
      | inr e ↦ elim (Bool-cases (ltb va r.va_start)) [
        | inl l ↦
            let out : (leb r.va_start va && ltb va (r.va_start + r.size)) ≡ false =
              ground (arith, l) in
            let nothing : locate rs va ≡ none =
              locate_below rs (r.va_start + r.size) va a.2 (ground (arith, l)) in
            rw (e, first_ending_after) (rw (out, locate) (rw nothing (read_below dump r va len l)))
        | inr l ↦
            let into : (leb r.va_start va && ltb va (r.va_start + r.size)) ≡ true =
              ground (arith, at_end, e, l) in
            rw (e, first_ending_after)
              (rw (into, locate)
                (take_answer dump r va len (ground (arith, l)) (ground (arith, at_end, e)) a.1 n))
      ]
    ]

-- On regions one after the other, below 2^64, a read of at least one byte answers from the region that holds the address: all the bytes asked
-- for where the region has them, else those up to its end, and nothing where no region holds it.
pub read_at-locate :
    (dump : List ℕ) (rs : List IndexedRegion) (va len : ℕ)
    → IsApart 0 rs
    → (len == 0) ≡ false
    → read_at dump rs va len ≡ answer dump len (locate rs va)
unfolding read_at read_found
read_at-locate dump rs va len a n = rw (n, read_at) (read_first dump rs 0 va len a n)

byte_index-cons :
    (r : IndexedRegion) (xs ys : List IndexedRegion) (va : ℕ)
    → byte_index xs va ≡ byte_index ys va
    → byte_index (r ∷ xs) va ≡ byte_index (r ∷ ys) va
unfolding byte_index
byte_index-cons r xs ys va h =
    ap
      (λ rest.
        if leb r.va_start va && ltb va (r.va_start + r.size)
        then some (r.data_ptr + (va - r.va_start))
        else rest)
      h

-- Two regions that touch, in memory and in the dump, add up.
joined_size :
    (cur next : IndexedRegion)
    → cur.va_start + cur.size < 2 ^ 64
    → next.va_start + next.size < 2 ^ 64
    → (next.va_start == region_end cur && next.data_ptr == (cur.data_ptr + cur.size)) ≡ true
    → (next.va_start ≡ cur.va_start + cur.size)
      × (next.data_ptr ≡ cur.data_ptr + cur.size)
      × (saturating_add cur.size next.size ≡ cur.size + next.size)
unfolding region_end saturating_add
joined_size cur next h k e = (ground arith, ground arith, ground arith)

byte_index-joined :
    (cur next : IndexedRegion) (rs : List IndexedRegion) (va size : ℕ)
    → next.va_start ≡ cur.va_start + cur.size
    → next.data_ptr ≡ cur.data_ptr + cur.size
    → size ≡ cur.size + next.size
    → byte_index (record cur { size = size } ∷ rs) va ≡ byte_index (cur ∷ next ∷ rs) va
unfolding byte_index
byte_index-joined cur next rs va size start data_start total = ground arith

merge_from-byte_index :
    (cur : IndexedRegion) (rs : List IndexedRegion) (va : ℕ)
    → IsApart cur.va_start (cur ∷ rs)
    → byte_index (merge_from cur rs) va ≡ byte_index (cur ∷ rs) va
unfolding merge_from byte_index region_end saturating_add
merge_from-byte_index cur [] va a = refl
merge_from-byte_index cur (next ∷ rs) va a =
    let joined : IndexedRegion = record cur { size = saturating_add cur.size next.size } in
    elim (Bool-cases
      (next.va_start == region_end cur && next.data_ptr == (cur.data_ptr + cur.size))) [
        | inl e ↦
            let (start, data_start, total) = joined_size cur next a.1 a.2.1 e in
            let same_end : next.va_start + next.size ≡ cur.va_start + joined.size =
              omega (arith, start, total) in
            let apart : IsApart cur.va_start (joined ∷ rs) =
              (a.0, omega (arith, same_end, a.2.1), subst (λ n. IsApart n rs) same_end a.2.2) in
            rw (e, merge_from)
              (merge_from-byte_index joined rs va apart
                ∙ byte_index-joined cur next rs va joined.size start data_start total)
        | inr e ↦
            rw (e, merge_from)
              (byte_index-cons cur (merge_from next rs) (next ∷ rs) va
                (merge_from-byte_index next rs va (omega arith, a.2.1, a.2.2)))
      ]

from_zero :
    (rs : List IndexedRegion) (r : IndexedRegion) → IsApart 0 (r ∷ rs) → IsApart r.va_start (r ∷ rs)
from_zero rs r a = (omega arith, a.1, a.2)

-- On regions one after the other, below 2^64, merging moves no byte and loses none: an address has its byte at the same place of the
-- dump as before, or has none as before.
pub merge_adjacent-byte_index :
    (rs : List IndexedRegion) (va : ℕ)
    → IsApart 0 rs
    → byte_index (merge_adjacent rs) va ≡ byte_index rs va
unfolding merge_adjacent
merge_adjacent-byte_index [] va a = refl
merge_adjacent-byte_index (r ∷ rs) va a = merge_from-byte_index r rs va (from_zero rs r a)
