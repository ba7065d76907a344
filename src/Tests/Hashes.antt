-- ===== src/Tests/Hashes.antt =====
-- The theorems on the LRU caches at concrete inputs.
use zdns.Prelude.{
  ℕ, ◌≡◌, ◌≢◌, refl, Bool, true, false, not, ◌&&◌, some, List, [], ◌∷◌, ℕ_discrete, leb,
}
use zdns.CacheHash.{CacheHash, init, upsert, eject, has}
use zdns.CacheHash.Elements.{entries}
use zdns.CacheHash.Lru.{lru_put}
use zdns.CacheHash.Valid.{IsValid, init-IsValid}
use zdns.CacheHash.Refines.{upsert_lem}
use zdns.CacheHash.Capacity.{upsert_zero_capacity}
use zdns.CacheHash.Recency.{
  Call, upserted, looked_up, run, history, Tracks, init-Tracks, run-Tracks,
}
use zdns.ShardedCacheHash
use zdns.ShardedCacheHash.{ShardedCacheHash}
use zdns.ShardedCacheHash.Shards
use zdns.ShardedCacheHash.Entries.{add-holds}
use zdns.Cache.Build.{CachedKey, CachedKey-discrete, CachedResult, build_cached_result}
use zdns.Cache.Valid.{key_of}
use zdns.Tests.Data.{
  full, full-IsValid, test_hash, question, response, new_cache, new_cache-IsValid,
}

-- Of four calls on a cache of two places, the last upsert evicts the key that was not looked up.
abbrev calls : List (Call ℕ ℕ)
calls = upserted 1 10 ∷ upserted 2 20 ∷ looked_up 1 ∷ upserted 3 30 ∷ []

run-Tracks_example :
    (c' : CacheHash ℕ ℕ) × (run ℕ_discrete (init 2) calls ≡ some c')
    × Tracks ℕ_discrete 2 c' (history ℕ_discrete 2 [] calls)
run-Tracks_example = run-Tracks ℕ_discrete 1 calls (init 2) [] (init-Tracks ℕ_discrete 2)

upsert_lem_example :
    (c' : CacheHash ℕ ℕ) × (upsert ℕ_discrete full 30 300
      ≡ some (c', has full 30, not (has full 30) && leb full.max_len full.len))
    × IsValid ℕ_discrete c'
    × (entries c'.l ≡ lru_put ℕ_discrete full.max_len 30 300 (entries full.l))
    × (c'.max_len ≡ full.max_len)
upsert_lem_example = upsert_lem ℕ_discrete full 30 full-IsValid 300

abbrev no_place : CacheHash ℕ ℕ
no_place = init 0

upsert_zero_capacity_example :
    (c' : CacheHash ℕ ℕ) × (upsert ℕ_discrete no_place 1 10 ≡ some (c', false, true))
    × IsValid ℕ_discrete c'
    × (c'.len ≡ 1)
    × (entries c'.l ≡ (1, 10) ∷ [])
    × (eject ℕ_discrete no_place ≡ some no_place)
unfolding init
upsert_zero_capacity_example =
    upsert_zero_capacity ℕ_discrete no_place 1 10 (init-IsValid ℕ_discrete 0) refl refl

-- the shards of a new cache, the key of a question and what is stored for it
abbrev shards : ShardedCacheHash CachedKey CachedResult
shards = new_cache.iterative_cache

abbrev key : CachedKey
key = key_of question [] false

abbrev value : CachedResult
value = build_cached_result 0 response

add-holds_example :
    (c' : ShardedCacheHash CachedKey CachedResult) × (exist : Bool) × (evicted : Bool)
    × (ShardedCacheHash.add CachedKey-discrete test_hash shards key value
        ≡ some (c', exist, evicted))
    × Shards.IsValid CachedKey-discrete test_hash c'
    × (Shards.holds CachedKey-discrete test_hash c' key ≡ some value)
    × (evicted ≡ false
        → (j : CachedKey) → j ≢ key
        → Shards.holds CachedKey-discrete test_hash c' j
          ≡ Shards.holds CachedKey-discrete test_hash shards j)
    × ((j : CachedKey) (w : CachedResult)
        → j ≢ key
        → Shards.holds CachedKey-discrete test_hash c' j ≡ some w
        → Shards.holds CachedKey-discrete test_hash shards j ≡ some w)
    × ((exist && evicted) ≡ false)
add-holds_example = add-holds CachedKey-discrete test_hash shards key new_cache-IsValid value

-- the shards with that entry
abbrev stocked : ShardedCacheHash CachedKey CachedResult
stocked = (add-holds CachedKey-discrete test_hash shards key new_cache-IsValid value).0

abbrev stocked-IsValid : Shards.IsValid CachedKey-discrete test_hash stocked
stocked-IsValid = (add-holds CachedKey-discrete test_hash shards key new_cache-IsValid value).4
