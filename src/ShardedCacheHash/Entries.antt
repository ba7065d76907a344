-- ===== src/ShardedCacheHash/Entries.antt =====
-- The methods of a sharded cache on the one map that it stands for.
use mathlib.Core.List.{lookup}
use mathlib.Core.Path.{subst}
use zdns.Prelude.{
  ℕ, zero, suc, ◌%◌, ◌<◌, ◌≡◌, ◌≢◌, ◌⊎◌, refl, sym, ap, ◌∙◌, Bool, true, false, none, some, List,
  arith, leb, not, ◌&&◌, length, inl, inr, Option-cases, ◌/◌, replicate, length-replicate,
  get_elem?-replicate,
}
use zdns.CacheHash
use zdns.CacheHash.{CacheHash}
use zdns.CacheHash.Elements.{entries, length-entries}
use zdns.CacheHash.Lru.{
  lru_put, lookup-erase_key, lookup-lru_get, lookup-lru_put_self, lookup-lru_put_ne,
  lookup-lru_put_old,
}
use zdns.CacheHash.Valid.{IsValid as IsValidShard, init-IsValid as init-IsValidShard}
use zdns.CacheHash.Refines.{has_lem, get_no_move_lem, get_lem, delete_lem, upsert_lem}
use zdns.ShardedCacheHash.{ShardedCacheHash, init, get_shard, get, get_no_move, has, add, delete}
use zdns.ShardedCacheHash.Shards.{
  IsValid, holds, Puts, get_shard_total, put_shard_lem, holds-Puts, holds-Puts_old,
}

module _ {K V : Type 0} (dec : Discrete K) (hash : K → ℕ) (c : ShardedCacheHash K V) (k : K)
    (h : IsValid dec hash c) where
  holds_shard :
      (s : CacheHash K V)
      → get_shard hash c k ≡ some s
      → holds dec hash c k ≡ lookup dec k (entries s.l)
  unfolding holds
  holds_shard s e = ground arith

  -- `Get` does not panic and returns what the cache holds; afterwards it holds the same entries.
  pub get-holds :
      (c' : ShardedCacheHash K V) × (get hash c k ≡ some (c', holds dec hash c k))
      × IsValid dec hash c'
      × ((j : K) → holds dec hash c' j ≡ holds dec hash c j)
  unfolding get
  get-holds =
      let (s, _, e, v) = get_shard_total dec hash c k h in
      let (s', got, v', ent, _) = get_lem dec s k v in
      let (c', put, p) = put_shard_lem dec hash c k h s' v' in
      (
        c',
        ground (arith, e, got, put, holds_shard s e),
        p.valid,
        λ j.
            holds-Puts dec hash c k h j c' s s' e p
              (ap (lookup dec j) ent ∙ lookup-lru_get dec k j (entries s.l)),
      )

  -- The reads that move nothing agree with what the cache holds.
  pub get_no_move-holds :
      (get_no_move hash c k ≡ some (holds dec hash c k))
      × (has hash c k ≡ some (elim (holds dec hash c k) [ none ↦ false | some v ↦ true ]))
  unfolding get_no_move has
  get_no_move-holds =
      let (s, _, e, v) = get_shard_total dec hash c k h in
      (
        ground (arith, e, get_no_move_lem dec s k v, holds_shard s e),
        ground (arith, e, has_lem dec s k v, holds_shard s e),
      )

  -- `Delete` does not panic. It returns what the cache held under the key, which is gone afterwards,
  -- and leaves the other keys alone.
  pub delete-holds :
      (c' : ShardedCacheHash K V) × (delete dec hash c k ≡ some (c', holds dec hash c k))
      × IsValid dec hash c'
      × ((j : K) → j ≢ k → holds dec hash c' j ≡ holds dec hash c j)
      × (holds dec hash c' k ≡ none)
  unfolding delete holds
  delete-holds =
      let (s, _, e, v) = get_shard_total dec hash c k h in
      let (s', got, v', ent, _, gone) = delete_lem dec s k v in
      let (c', put, p) = put_shard_lem dec hash c k h s' v' in
      (
        c',
        ground (arith, e, got, put, holds_shard s e),
        p.valid,
        λ j ne.
            holds-Puts dec hash c k h j c' s s' e p
              (ap (lookup dec j) ent ∙ lookup-erase_key dec k j (entries s.l) ne),
        ground (arith, p.here k refl, gone),
      )

  room_of :
      (s : CacheHash K V)
      → IsValidShard dec s
      → (not (CacheHash.has s k) && leb s.max_len s.len) ≡ false
      → (lookup dec k (entries s.l) ≢ none) ⊎ (length (entries s.l) < s.max_len)
  room_of s w q = elim (Option-cases (lookup dec k (entries s.l))) [
    | inl e ↦ inr (ground (arith, has_lem dec s k w, length-entries s.l, w.counted))
    | inr (x, e) ↦ inl (λ n. cc)
  ]

  holds_new :
      (s' : CacheHash K V) (c' : ShardedCacheHash K V) (v : V) (n : ℕ) (t : List (K × V))
      → Puts dec hash c c' k s'
      → entries s'.l ≡ lru_put dec n k v t
      → holds dec hash c' k ≡ some v
  unfolding holds
  holds_new s' c' v n t p ent =
      ground (arith, p.here k refl, ap (lookup dec k) ent, lookup-lru_put_self dec n k v t)

  -- `Add` does not panic; afterwards the cache holds the value under the key. A call that reports no
  -- eviction leaves every other key alone, and in any case a value that it holds of another key was there
  -- before. No call reports both a known key and an eviction.
  pub add-holds :
      (v : V)
      → (c' : ShardedCacheHash K V) × (exist : Bool) × (evicted : Bool) × (add dec hash c k v
          ≡ some (c', exist, evicted))
        × IsValid dec hash c'
        × (holds dec hash c' k ≡ some v)
        × (evicted ≡ false → (j : K) → j ≢ k → holds dec hash c' j ≡ holds dec hash c j)
        × ((j : K) (w : V) → j ≢ k → holds dec hash c' j ≡ some w → holds dec hash c j ≡ some w)
        × ((exist && evicted) ≡ false)
  unfolding add
  add-holds v =
      let (s, _, e, w) = get_shard_total dec hash c k h in
      let (s', got, v', ent, _) = upsert_lem dec s k w v in
      let (c', put, p) = put_shard_lem dec hash c k h s' v' in
      (
        c',
        CacheHash.has s k,
        not (CacheHash.has s k) && leb s.max_len s.len,
        ground (arith, e, got, put),
        p.valid,
        holds_new s' c' v s.max_len (entries s.l) p ent,
        λ q j ne. holds-Puts dec hash c k h j c' s s' e p (
            ap (lookup dec j) ent
            ∙ lookup-lru_put_ne dec s.max_len k j v (entries s.l) ne (room_of s w q)),
        λ j w' ne. holds-Puts_old dec hash c k h j w' c' s s' e p (λ q.
            lookup-lru_put_old dec s.max_len k j v w' (entries s.l) ne
              (ap (lookup dec j) (sym ent) ∙ q)),
        ground arith,
      )

module _ {K V : Type 0} (dec : Discrete K) (hash : K → ℕ) where
  abbrev empty : ℕ → ℕ → ShardedCacheHash K V
  empty max_len shards = record {
    shards = replicate shards (CacheHash.init (max_len / shards));
    shards_len = shards;
  }

  empty-IsValid : (max_len shards : ℕ) → 0 < shards → IsValid dec hash (empty max_len shards)
  empty-IsValid max_len shards pos = record {
    positive = pos;
    counted = length-replicate shards _;
    each = λ i s e.
        subst (IsValidShard dec) (get_elem?-replicate shards i _ s e)
          (init-IsValidShard dec (max_len / shards));
  }

  holds-empty :
      (max_len shards : ℕ) → 0 < shards → (k : K) → holds dec hash (empty max_len shards) k ≡ none
  unfolding holds CacheHash.init lookup
  holds-empty max_len shards pos k =
      let (s, at, e, _) =
        get_shard_total dec hash (empty max_len shards) k (empty-IsValid max_len shards pos) in
      ground (
        arith,
        e,
        get_elem?-replicate shards (hash k % shards) (CacheHash.init (max_len / shards)) s at,
      )

  -- A new cache of at least one shard is valid and empty; with no shard `Init` divides by zero.
  pub init-IsValid :
      (max_len shards : ℕ)
      → ((shards ≡ 0) × (init {K = K} {V = V} max_len shards ≡ none))
        ⊎ ((c : ShardedCacheHash K V) × (init max_len shards ≡ some c)
            × IsValid dec hash c
            × ((k : K) → holds dec hash c k ≡ none))
  unfolding init
  init-IsValid max_len zero = inl (refl, refl)
  init-IsValid max_len (suc n) = inr (
    empty max_len (suc n),
    ground arith,
    empty-IsValid max_len (suc n) (omega arith),
    holds-empty max_len (suc n) (omega arith),
  )
