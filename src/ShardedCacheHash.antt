-- ===== src/ShardedCacheHash.antt =====
-- src/internal/cachehash/shardedcachehash.go: a fixed number of LRU caches, chosen by a hash of the
-- key. The hash, `crc32.ChecksumIEEE` of the key printed by `fmt`, is the parameter `hash`. `none`
-- is a panic: a division by zero shards, or a shard out of range. `Lock` and `Unlock` guard a shard
-- against other goroutines and change nothing that is modelled.
pub mod Shards
pub mod Entries
use zdns.Prelude.{
  ℕ, ◌/◌, ◌%◌, Bool, Option, none, some, List, map, replicate, get_elem?, set, ◌==◌, if◌then◌else◌,
  ◌>>=◌,
}
use zdns.CacheHash
use zdns.CacheHash.{CacheHash}

pub record ShardedCacheHash (K V : Type 0) : Type 0 where
  pub shards : List (CacheHash K V)
  pub shards_len : ℕ

module _ {K V : Type 0} where
  unfoldable pub init : ℕ → ℕ → Option (ShardedCacheHash K V)
  init max_len shards =
      if shards == 0
      then none
      else some (record {
        shards = replicate shards (CacheHash.init (max_len / shards));
        shards_len = shards;
      })

  unfoldable pub register_cb : ShardedCacheHash K V → ℕ → ShardedCacheHash K V
  register_cb c cb = record c { shards = map (λ s. CacheHash.register_cb s cb) c.shards }

module _ {K V : Type 0} (hash : K → ℕ) where
  unfoldable pub get_shard_id : ShardedCacheHash K V → K → Option ℕ
  get_shard_id c k = if c.shards_len == 0 then none else some (hash k % c.shards_len)

  unfoldable pub get_shard : ShardedCacheHash K V → K → Option (CacheHash K V)
  unfolding get_shard_id
  get_shard c k = do i ← get_shard_id c k; get_elem? c.shards i

  -- a method with a pointer receiver has changed the shard of the key in place
  unfoldable pub put_shard :
      ShardedCacheHash K V → K → CacheHash K V → Option (ShardedCacheHash K V)
  unfolding get_shard_id
  put_shard c k s = do i ← get_shard_id c k; some (record c { shards = set c.shards i s })

  unfoldable pub get : ShardedCacheHash K V → K → Option (ShardedCacheHash K V × Option V)
  unfolding get_shard put_shard
  get c k = do s ← get_shard c k; (s', v) ← CacheHash.get s k; c' ← put_shard c k s'; some (c', v)

  unfoldable pub get_no_move : ShardedCacheHash K V → K → Option (Option V)
  unfolding get_shard
  get_no_move c k = do s ← get_shard c k; CacheHash.get_no_move s k

  unfoldable pub has : ShardedCacheHash K V → K → Option Bool
  unfolding get_shard
  has c k = do s ← get_shard c k; some (CacheHash.has s k)

module _ {K V : Type 0} (dec : Discrete K) (hash : K → ℕ) where
  unfoldable pub add : ShardedCacheHash K V → K → V → Option (ShardedCacheHash K V × Bool × Bool)
  unfolding get_shard put_shard
  add c k v = do
    s ← get_shard hash c k
    (s', did_exist, did_eject) ← CacheHash.upsert dec s k v
    c' ← put_shard hash c k s'
    some (c', did_exist, did_eject)

  unfoldable pub delete : ShardedCacheHash K V → K → Option (ShardedCacheHash K V × Option V)
  unfolding get_shard put_shard
  delete c k = do
    s ← get_shard hash c k
    (s', v) ← CacheHash.delete dec s k
    c' ← put_shard hash c k s'
    some (c', v)
