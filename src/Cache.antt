-- ===== src/Cache.antt =====
-- src/zdns/cache.go: the cache of answers and of referrals, over the sharded LRU cache. Times are
-- nanoseconds; `now` is what `time.Now` returns in a call. `none` is a panic. The logging is left
-- out. The parameters are `net.IP.String` and the hash of the sharded cache.
pub mod Stats
pub mod Build
pub mod Valid
pub mod Read
pub mod Hits
pub mod Total
pub mod Kept
pub mod Poison
pub mod Write
pub mod Authorities
pub mod Referral
pub mod Invariant
use Stats.{
  no_statistics, CacheStatistics, increment_hits, increment_misses, increment_adds,
  increment_ejects,
}
use Build.{
  CachedKey, Question-discrete, CachedKey-discrete, TimedAnswer, CachedResult, unexpired,
  is_cacheable_type, second, build_section, build_cached_result, is_nil, nothing_cached,
  live_result, CacheRead, is_poison, has_poison, is_bogus, authority_name, is_delegation_record,
  delegation_records, other_records, make_dnssec_result,
}
use zdns.Prelude.{
  ℕ, ◌+◌, ◌*◌, Bool, true, false, not, ◌&&◌, ◌||◌, Option, none, some, List, [], ◌∷◌, ◌++◌, length,
  ltb, ◌==◌, if◌then◌else◌, ◌>>=◌, Text, codes, text_eq, to_lower, ℕ_discrete,
}
use zdns.Names.{name_is_beneath}
use zdns.Records.{
  Question, Answer, Kind, AnyAnswer, typed, base_ans, as_answer, DnsFlags, DnssecStatus,
  DnssecResult, SingleQueryResult, empty_result, type_a, type_ns, type_cname, type_aaaa, type_dname,
  type_ds, type_nsec, type_dnskey, type_nsec3, class_inet,
}
use zdns.Records.NameServers.{NameServer, show_name_server}
use zdns.ShardedCacheHash
use zdns.ShardedCacheHash.{ShardedCacheHash}

pub record Cache : Type 0 where
  pub iterative_cache : ShardedCacheHash CachedKey CachedResult
  pub stats : CacheStatistics

unfoldable pub init : ℕ → Option Cache
init cache_size = do
  c ← ShardedCacheHash.init cache_size 4096
  some (record { iterative_cache = c; stats = no_statistics })

module _ (hash : CachedKey → ℕ) where
  unfoldable pub add_cached_answer : Cache → Question → Text → Bool → CachedResult → Option Cache
  unfolding increment_adds increment_ejects
  add_cached_answer s q name_server is_authority result =
      let key : CachedKey = record {
        question = q;
        name_server = name_server;
        is_authority = is_authority;
      } in
      do
        (c, did_exist, did_eject) ←
            ShardedCacheHash.add CachedKey-discrete hash s.iterative_cache key result
        (if did_exist && did_eject
            then none
            else some (record {
              iterative_cache = c;
              stats = increment_adds (if did_eject then increment_ejects s.stats else s.stats);
            }))

  -- The records of the delegation go under the child's name, as a secure answer.
  unfoldable pub cache_delegation :
      ℕ → Cache → SingleQueryResult → List AnyAnswer → Text → Text → Option Cache
  unfolding add_cached_answer build_cached_result make_dnssec_result
  cache_delegation now s res [] name name_server = some s
  cache_delegation now s res (x ∷ xs) name name_server =
      let ds_res : SingleQueryResult = record res {
        answers = [];
        additionals = [];
        authorities = x ∷ xs;
        flags = record res.flags { authoritative = true };
        dnssec_result = some (record make_dnssec_result { status = DnssecStatus.secure });
      } in
      add_cached_answer s (record { type = type_ds; class = class_inet; name = name }) name_server
        false (build_cached_result now ds_res)

  -- what is not of the delegation goes under the name of the authority
  unfoldable pub cache_authority : ℕ → Cache → SingleQueryResult → Text → Text → Option Cache
  unfolding add_cached_answer build_cached_result nothing_cached other_records
  cache_authority now s res name name_server =
      let cached =
        build_cached_result now (record res { authorities = other_records res.authorities }) in
      if nothing_cached cached
      then some s
      else add_cached_answer s (record { type = type_ns; class = class_inet; name = name })
          name_server true cached

  -- `getCachedResult` with the key that it builds
  unfoldable pub read_entry :
      ℕ → Cache → CachedKey → Option CachedResult → SingleQueryResult → Option (Cache × CacheRead)
  unfolding increment_hits increment_misses live_result
  read_entry now s key none miss = some (
    record s { stats = increment_misses s.stats },
    record { retv = some miss; is_found = false; partially_expired = false },
  )
  read_entry now s key (some r) miss =
      let (res, partially_expired) = live_result now r in
      if is_nil res.answers && is_nil res.authorities && is_nil res.additionals
      then (do
        (c, _) ← ShardedCacheHash.delete CachedKey-discrete hash s.iterative_cache key
        some (
          record { iterative_cache = c; stats = increment_hits s.stats },
          record { retv = none; is_found = false; partially_expired = false },
        ))
      else some (
        record s { stats = increment_hits s.stats },
        record { retv = some res; is_found = true; partially_expired = partially_expired },
      )

module _ (ip_string : List ℕ → Text) (hash : CachedKey → ℕ) where
  unfoldable pub get_cached_result :
      ℕ → Cache → Question → Option NameServer → Bool → Option (Cache × CacheRead)
  unfolding show_name_server read_entry
  get_cached_result now s q ns is_authority =
      let shown = show_name_server ip_string ns in
      let key : CachedKey = record {
        question = q;
        name_server = shown;
        is_authority = is_authority;
      } in
      do
        (c, found) ← ShardedCacheHash.get hash s.iterative_cache key
        read_entry hash now (record s { iterative_cache = c }) key found
            (record empty_result { resolver = shown })

  -- the two readers take a partly expired entry for a miss
  unfoldable pub get_cached_results :
      ℕ → Cache → Question → Option NameServer → Option (Cache × Option SingleQueryResult × Bool)
  get_cached_results now s q ns = do
    (s', read) ← get_cached_result now s q ns false
    if read.partially_expired then some (s', none, false) else some (s', read.retv, read.is_found)

  unfoldable pub get_cached_authority :
      ℕ → Cache → Text → Option NameServer → Option (Cache × Option SingleQueryResult × Bool)
  get_cached_authority now s authority ns = do
    (s', read) ←
        get_cached_result now s (record { type = type_ns; class = class_inet; name = authority }) ns
          true
    if read.partially_expired then some (s', none, false) else some (s', read.retv, read.is_found)

  unfoldable pub safe_add_cached_answer :
      ℕ → Cache → Question → SingleQueryResult → Option NameServer → Text → Bool → Option Cache
  unfolding is_bogus has_poison build_cached_result nothing_cached show_name_server
  safe_add_cached_answer now s q res ns layer cache_non_authoritative =
      if is_bogus res.dnssec_result
      then none
      else if has_poison layer (res.answers ++ res.authorities ++ res.additionals)
      then some s
      else if not res.flags.authoritative && not cache_non_authoritative
      then some s
      else let cached = build_cached_result now res in
        if nothing_cached cached
        then some s
        else add_cached_answer hash s q (show_name_server ip_string ns) false cached

  -- The method empties the answers of the result that it is given, so it returns that too.
  unfoldable pub safe_add_cached_authority :
      ℕ → Cache → SingleQueryResult → Option NameServer → Text → Option (Cache × SingleQueryResult)
  unfolding is_bogus authority_name delegation_records cache_delegation cache_authority
      show_name_server
  safe_add_cached_authority now s given ns layer =
      let res : SingleQueryResult = record given { answers = [] } in
      let shown = show_name_server ip_string ns in
      if is_bogus given.dnssec_result then none else elim (authority_name [] res.authorities) [
        | none ↦ some (s, res)
        | some name ↦ if not (name_is_beneath name layer).0 then some (s, res) else do
          s' ← cache_delegation hash now s res (delegation_records res.authorities) name shown
          s'' ← cache_authority hash now s' res name shown
          some (s'', res)
      ]
