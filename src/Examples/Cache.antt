-- ===== src/Examples/Cache.antt =====
-- The cache of decompiled functions, with numbers for artifacts.
use windy_public.Prelude.{ℕ, ◌≡◌, ◌≤◌, some, List, [], ◌∷◌, length}
use windy_public.Manager.Cache.{
  DecompileCacheKey, cache_get, cache_put, decompile_cache_cap, cache_get-cache_put,
  length-cache_put,
}

abbrev first_key : DecompileCacheKey
first_key = record { op_seq = 3; va = 4096; lane = 5 }

abbrev old_cache : List (DecompileCacheKey × ℕ)
old_cache = (first_key, 7) ∷ []

cache_get-cache_put_example : (cache_get first_key (cache_put first_key 8 old_cache)).0 ≡ some 8
cache_get-cache_put_example = cache_get-cache_put first_key 8 old_cache

length-cache_put_example : length (cache_put first_key 8 old_cache) ≤ decompile_cache_cap
length-cache_put_example = length-cache_put first_key 8 old_cache
