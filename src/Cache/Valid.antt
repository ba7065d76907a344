-- ===== src/Cache/Valid.antt =====
-- The invariant of the cache of src/zdns/cache.go, and what the cache holds under a key.
use zdns.Prelude.{
  ℕ, ◌≡◌, sym, ap, ◌∙◌, Bool, Option, none, some, arith, if◌then◌else◌, inl, inr, ◌⊎◌, Text,
}
use zdns.Records.{Question}
use zdns.ShardedCacheHash.{ShardedCacheHash}
use zdns.ShardedCacheHash.Shards
use zdns.ShardedCacheHash.Entries.{add-holds, init-IsValid as shards_init-IsValid}
use zdns.Cache.Stats.{no_statistics, increment_adds, increment_ejects}
use zdns.Cache.Build.{CachedKey, CachedKey-discrete, CachedResult}
use zdns.Cache.{Cache, init, add_cached_answer}

abbrev pub key_of : Question → Text → Bool → CachedKey
key_of q name_server is_authority = record {
  question = q;
  name_server = name_server;
  is_authority = is_authority;
}

module _ (hash : CachedKey → ℕ) where
  abbrev pub IsValid : Cache → Type 0
  IsValid s = Shards.IsValid CachedKey-discrete hash s.iterative_cache

  abbrev pub holds : Cache → CachedKey → Option CachedResult
  holds s key = Shards.holds CachedKey-discrete hash s.iterative_cache key

  -- A new cache is valid and empty, whatever its size.
  pub init-IsValid :
      (size : ℕ)
      → (s : Cache) × (init size ≡ some s) × IsValid s × ((key : CachedKey) → holds s key ≡ none)
  unfolding init
  init-IsValid size =
      elim (shards_init-IsValid {V = CachedResult} CachedKey-discrete hash size 4096) [
        | inl e ↦ absurd (omega (arith, e.0))
        | inr (c, e, v, h) ↦ (record { iterative_cache = c; stats = no_statistics }, rw e, v, h)
      ]

  module _ (s : Cache) (q : Question) (name_server : Text) (is_authority : Bool)
      (valid : IsValid s) where
    new_value :
        (c : ShardedCacheHash CachedKey CachedResult) (r w : CachedResult) (j : CachedKey)
        → Shards.holds CachedKey-discrete hash c (key_of q name_server is_authority) ≡ some r
        → j ≡ key_of q name_server is_authority
        → Shards.holds CachedKey-discrete hash c j ≡ some w
        → w ≡ r
    new_value c r w j here p h =
        let e : Option.some w ≡ some r =
          sym h ∙ ap (Shards.holds CachedKey-discrete hash c) p ∙ here in
        cc

    -- Storing a result never panics: the result is then held under its key, and any
    -- other entry was held before.
    pub add_cached_answer-holds :
        (r : CachedResult)
        → (s' : Cache) × (add_cached_answer hash s q name_server is_authority r ≡ some s')
          × IsValid s'
          × (holds s' (key_of q name_server is_authority) ≡ some r)
          × ((j : CachedKey) (w : CachedResult)
              → holds s' j ≡ some w
              → (holds s j ≡ some w) ⊎ ((j ≡ key_of q name_server is_authority) × (w ≡ r)))
    unfolding add_cached_answer
    add_cached_answer-holds r =
        let (c, exist, evicted, done, v, here, _, old, once) =
          add-holds CachedKey-discrete hash s.iterative_cache (key_of q name_server is_authority)
            valid r in
        (
          record {
            iterative_cache = c;
            stats = increment_adds (if evicted then increment_ejects s.stats else s.stats);
          },
          ground (arith, done, once),
          v,
          here,
          λ j w h. elim (CachedKey-discrete j (key_of q name_server is_authority)) [
            | yes p ↦ inr (p, new_value c r w j here p h)
            | no p ↦ inl (old j w p h)
          ],
        )
