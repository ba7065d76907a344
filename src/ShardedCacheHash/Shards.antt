-- ===== src/ShardedCacheHash/Shards.antt =====
-- A sharded cache as one map: what its methods do to the entry of a key, and to the other entries.
use mathlib.Core.List.{lookup}
use mathlib.Core.Path.{subst}
use zdns.Prelude.{
  ℕ, ◌%◌, ◌<◌, ◌≡◌, ◌≢◌, sym, ◌∙◌, ℕ_discrete, Option, none, some, arith, length, get_elem?, set,
  length-set, get_elem?-set_self, get_elem?-set_ne, get_elem?_total,
}
use zdns.CacheHash.{CacheHash}
use zdns.CacheHash.Elements.{entries}
use zdns.CacheHash.Valid.{IsValid as IsValidShard}
use zdns.ShardedCacheHash.{ShardedCacheHash, get_shard, put_shard}

module _ {K V : Type 0} (dec : Discrete K) (hash : K → ℕ) where
  pub record IsValid (c : ShardedCacheHash K V) : Type 0 where
    pub positive : 0 < c.shards_len
    pub counted : length c.shards ≡ c.shards_len
    pub each : (i : ℕ) (s : CacheHash K V) → get_elem? c.shards i ≡ some s → IsValidShard dec s

  -- what the cache holds under a key
  unfoldable pub holds : ShardedCacheHash K V → K → Option V
  holds c k = elim (get_shard hash c k) [ none ↦ none | some s ↦ lookup dec k (entries s.l) ]

  pub get_shard_total :
      (c : ShardedCacheHash K V) (k : K)
      → IsValid c
      → (s : CacheHash K V) × (get_elem? c.shards (hash k % c.shards_len) ≡ some s)
        × (get_shard hash c k ≡ some s)
        × IsValidShard dec s
  unfolding get_shard
  get_shard_total c k h =
      let (s, e) =
        get_elem?_total c.shards (hash k % c.shards_len) (omega (arith, h.counted, h.positive)) in
      (s, e, ground (arith, h.positive, e), h.each (hash k % c.shards_len) s e)

  get_shard_cong :
      (c : ShardedCacheHash K V) (j k : K)
      → hash j % c.shards_len ≡ hash k % c.shards_len
      → get_shard hash c j ≡ get_shard hash c k
  unfolding get_shard
  get_shard_cong c j k e = ground arith

  -- `c'` is `c` with the shard `s` for the key `k`
  pub record Puts (c c' : ShardedCacheHash K V) (k : K) (s : CacheHash K V) : Type 0 where
    pub valid : IsValid c'
    pub here :
        (j : K) → hash j % c.shards_len ≡ hash k % c.shards_len → get_shard hash c' j ≡ some s
    pub there :
        (j : K)
        → hash j % c.shards_len ≢ hash k % c.shards_len
        → get_shard hash c' j ≡ get_shard hash c j

  module _ (c : ShardedCacheHash K V) (k : K) (h : IsValid c) where
    written-IsValid :
        (i : ℕ) (s : CacheHash K V)
        → i < length c.shards
        → IsValidShard dec s
        → IsValid (record c { shards = set c.shards i s })
    written-IsValid i s lt v = record {
      positive = h.positive;
      counted = length-set c.shards i s ∙ h.counted;
      each = λ m t e. elim (ℕ_discrete i m) [
        | yes p ↦
            let q : s ≡ t = ground (arith, get_elem?-set_self c.shards i s lt, e, p) in
            subst (IsValidShard dec) q v
        | no p ↦ h.each m t (sym (get_elem?-set_ne c.shards i m s p) ∙ e)
      ];
    }

    -- writing a valid shard back
    pub put_shard_lem :
        (s : CacheHash K V)
        → IsValidShard dec s
        → (c' : ShardedCacheHash K V) × (put_shard hash c k s ≡ some c') × Puts c c' k s
    unfolding put_shard get_shard
    put_shard_lem s v =
        let i = hash k % c.shards_len in
        let lt : i < length c.shards = omega (arith, h.counted, h.positive) in
        (
          record c { shards = set c.shards i s },
          ground (arith, h.positive),
          record {
            valid = written-IsValid i s lt v;
            here = λ j e. ground (arith, h.positive, get_elem?-set_self c.shards i s lt, e);
            there = λ j ne. ground (
              arith,
              h.positive,
              get_elem?-set_ne c.shards i (hash j % c.shards_len) s (λ e. ne (sym e)),
            );
          },
        )

    -- a shard that answers for a key as the old one does leaves the key as it was
    pub holds-Puts :
        (j : K) (c' : ShardedCacheHash K V) (s s' : CacheHash K V)
        → get_shard hash c k ≡ some s
        → Puts c c' k s'
        → lookup dec j (entries s'.l) ≡ lookup dec j (entries s.l)
        → holds c' j ≡ holds c j
    unfolding holds
    holds-Puts j c' s s' f p e = elim (ℕ_discrete (hash j % c.shards_len) (hash k % c.shards_len)) [
      | yes q ↦ ground (arith, p.here j q, f, e, get_shard_cong c j k q)
      | no q ↦ ground (arith, p.there j q)
    ]

    -- what the cache holds afterwards of a key that the new shard answers for
    pub holds-Puts_old :
        (j : K) (w : V) (c' : ShardedCacheHash K V) (s s' : CacheHash K V)
        → get_shard hash c k ≡ some s
        → Puts c c' k s'
        → (lookup dec j (entries s'.l) ≡ some w → lookup dec j (entries s.l) ≡ some w)
        → holds c' j ≡ some w
        → holds c j ≡ some w
    unfolding holds
    holds-Puts_old j w c' s s' f p old e =
        elim (ℕ_discrete (hash j % c.shards_len) (hash k % c.shards_len)) [
          | yes q ↦ ground (arith, p.here j q, f, old, get_shard_cong c j k q)
          | no q ↦ ground (arith, p.there j q)
        ]
