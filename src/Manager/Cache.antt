-- ===== src/Manager/Cache.antt =====
-- src/project_manager.rs: the cache of decompiled functions of a project, least recently used first.
use windy_public.Prelude.{
  ℕ, ◌+◌, ◌≤◌, ◌≡◌, refl, Bool, true, false, ◌&&◌, Option, none, some, List, [], ◌∷◌, ◌++◌,
  if◌then◌else◌, arith, ltb, ◌==◌, length, Bool-cases, inl, inr,
}

pub record DecompileCacheKey : Type 0 where
  pub op_seq : ℕ
  pub va : ℕ
  pub lane : ℕ

unfoldable pub same_key : DecompileCacheKey → DecompileCacheKey → Bool
same_key a b = a.op_seq == b.op_seq && (a.va == b.va && a.lane == b.lane)

pub data DecompileMode : Type 0 where
  legacy shadow_v2 v2 : DecompileMode

unfoldable pub mode_number : DecompileMode → ℕ
mode_number legacy = 0
mode_number shadow_v2 = 1
mode_number v2 = 2

-- `decompile_cache_discriminant`
unfoldable pub discriminant : DecompileMode → Bool → ℕ
unfolding mode_number
discriminant mode fallback = (mode_number mode + mode_number mode) + (if fallback then 1 else 0)

abbrev pub decompile_cache_cap : ℕ
decompile_cache_cap = 64

same_key_refl : (key : DecompileCacheKey) → same_key key key ≡ true
unfolding same_key
same_key_refl key = ground arith

module _ {ℓ} {A : Type ℓ} where
  -- The artifact of the first entry with the key, and the other entries.
  unfoldable pub remove_entry :
      DecompileCacheKey → List (DecompileCacheKey × A) → Option (A × List (DecompileCacheKey × A))
  unfolding same_key
  remove_entry key [] = none
  remove_entry key ((k, a) ∷ rest) =
      let later = remove_entry key rest in
      if same_key k key
      then some (a, rest)
      else elim later [ none ↦ none | some (b, left) ↦ some (b, (k, a) ∷ left) ]

  unfoldable pub cache_get :
      DecompileCacheKey → List (DecompileCacheKey × A) → Option A × List (DecompileCacheKey × A)
  unfolding remove_entry
  cache_get key cache = elim (remove_entry key cache) [
    | none ↦ (none, cache)
    | some (a, left) ↦ (some a, left ++ (key, a) ∷ [])
  ]

  -- `retain(|entry| entry.key != key)`
  unfoldable pub retain_others :
      DecompileCacheKey → List (DecompileCacheKey × A) → List (DecompileCacheKey × A)
  unfolding same_key
  retain_others key [] = []
  retain_others key ((k, a) ∷ rest) =
      let others = retain_others key rest in if same_key k key then others else (k, a) ∷ others

  -- `while cache.len() > DECOMPILE_CACHE_CAP { cache.pop_front() }`
  unfoldable pub evict : List (DecompileCacheKey × A) → List (DecompileCacheKey × A)
  evict [] = []
  evict (e ∷ rest) =
      let evicted = evict rest in
      if ltb decompile_cache_cap (length (e ∷ rest)) then evicted else e ∷ rest

  unfoldable pub cache_put :
      DecompileCacheKey → A → List (DecompileCacheKey × A) → List (DecompileCacheKey × A)
  unfolding retain_others evict
  cache_put key a cache = evict (retain_others key cache ++ (key, a) ∷ [])

  abbrev Lacks : DecompileCacheKey → List (DecompileCacheKey × A) → Type 0
  Lacks key [] = Unit
  Lacks key ((k, a) ∷ rest) = (same_key k key ≡ false) × Lacks key rest

  retain_others-Lacks :
      (key : DecompileCacheKey) (cache : List (DecompileCacheKey × A))
      → Lacks key (retain_others key cache)
  unfolding retain_others
  retain_others-Lacks key [] = tt
  retain_others-Lacks key ((k, a) ∷ rest) = elim (Bool-cases (same_key k key)) [
    | inl e ↦ rw (e, retain_others) (retain_others-Lacks key rest)
    | inr e ↦ rw (e, retain_others) (e, retain_others-Lacks key rest)
  ]

  -- Eviction keeps the entry at the back.
  evict_back :
      (key : DecompileCacheKey) (last : DecompileCacheKey × A)
      (cache : List (DecompileCacheKey × A))
      → Lacks key cache
      → (left : List (DecompileCacheKey × A)) × (Lacks key left
          × (evict (cache ++ last ∷ []) ≡ left ++ last ∷ []))
  unfolding evict
  evict_back key last [] h = ([], (tt, refl))
  evict_back key last ((k, a) ∷ rest) h =
      elim (Bool-cases (ltb decompile_cache_cap (length ((k, a) ∷ (rest ++ last ∷ []))))) [
        | inl e ↦ rw (e, evict) (evict_back key last rest h.1)
        | inr e ↦ rw (e, evict) ((k, a) ∷ rest, (h, refl))
      ]

  remove_back :
      (key : DecompileCacheKey) (a : A) (cache : List (DecompileCacheKey × A))
      → Lacks key cache
      → remove_entry key (cache ++ (key, a) ∷ []) ≡ some (a, cache)
  unfolding remove_entry
  remove_back key a [] h = rw (same_key_refl key, remove_entry) refl
  remove_back key a ((k, b) ∷ rest) h =
      rw (h.0, remove_entry) (rw (remove_back key a rest h.1) refl)

  -- What was just put in the cache is found there.
  pub cache_get-cache_put :
      (key : DecompileCacheKey) (a : A) (cache : List (DecompileCacheKey × A))
      → (cache_get key (cache_put key a cache)).0 ≡ some a
  unfolding cache_put cache_get
  cache_get-cache_put key a cache =
      let (left, (lacks, e)) =
        evict_back key (key, a) (retain_others key cache) (retain_others-Lacks key cache) in
      rw e (rw (remove_back key a left lacks, cache_get) refl)

  evict_cap : (cache : List (DecompileCacheKey × A)) → length (evict cache) ≤ decompile_cache_cap
  unfolding evict
  evict_cap [] = omega arith
  evict_cap (e ∷ rest) = ground (arith, evict_cap rest)

  -- After a put, the cache holds at most 64 entries, however many it held before.
  pub length-cache_put :
      (key : DecompileCacheKey) (a : A) (cache : List (DecompileCacheKey × A))
      → length (cache_put key a cache) ≤ decompile_cache_cap
  unfolding cache_put
  length-cache_put key a cache = evict_cap (retain_others key cache ++ (key, a) ∷ [])
