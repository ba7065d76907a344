-- ===== src/Cache/Total.antt =====
-- `GetCachedResults` and `GetCachedAuthority` of src/zdns/cache.go: what they return.
use zdns.Prelude.{
  ℕ, ◌≡◌, ◌⊎◌, refl, Bool, true, false, ◌&&◌, Option, none, some, List, arith, if◌then◌else◌, inl,
  inr, Bool-cases, Text,
}
use zdns.Records.{Question, SingleQueryResult, type_ns, class_inet}
use zdns.Records.NameServers.{NameServer, show_name_server}
use zdns.Cache.Build.{CachedKey, CachedResult, is_nil, live_result, CacheRead}
use zdns.Cache.{Cache, get_cached_results, get_cached_authority}
use zdns.Cache.Valid.{key_of, IsValid, holds}
use zdns.Cache.Read.{answer_of, get_cached_result_lem}

-- what a read returns as found is a result
answer_of-found :
    (now : ℕ) (resolver : Text) (o : Option CachedResult)
    → ((answer_of now resolver o).is_found ≡ false)
      ⊎ ((res : SingleQueryResult) × ((answer_of now resolver o).retv ≡ some res))
answer_of-found now resolver none = inl refl
answer_of-found now resolver (some r) =
    let res = (live_result now r).0 in
    elim (Bool-cases (is_nil res.answers && is_nil res.authorities && is_nil res.additionals)) [
      | inl e ↦ inl (ground arith)
      | inr e ↦ inr (res, ground arith)
    ]

-- what a read gives: a valid cache, and a result if it is found
pub record IsRead (hash : CachedKey → ℕ) (m : Option (Cache × Option SingleQueryResult × Bool))
    : Type 0 where
  pub cache : Cache
  pub result : Option SingleQueryResult
  pub found : Bool
  pub done : m ≡ some (cache, result, found)
  pub valid : IsValid hash cache
  pub has_result : (found ≡ false) ⊎ ((res : SingleQueryResult) × (result ≡ some res))

whole_or_none-IsRead :
    (hash : CachedKey → ℕ) (s' : Cache) (read : CacheRead)
    → IsValid hash s'
    → (read.is_found ≡ false) ⊎ ((res : SingleQueryResult) × (read.retv ≡ some res))
    → IsRead hash (
        if read.partially_expired
        then some (s', none, false)
        else some (s', read.retv, read.is_found))
whole_or_none-IsRead hash s' read v h = elim (Bool-cases read.partially_expired) [
  | inl e ↦ record {
    cache = s';
    result = none;
    found = false;
    done = ground arith;
    valid = v;
    has_result = inl refl;
  }
  | inr e ↦ record {
    cache = s';
    result = read.retv;
    found = read.is_found;
    done = ground arith;
    valid = v;
    has_result = h;
  }
]

module _ (ip_string : List ℕ → Text) (hash : CachedKey → ℕ) (now : ℕ) (s : Cache)
    (ns : Option NameServer) (valid : IsValid hash s) where
  pub get_cached_results-IsRead :
      (q : Question) → IsRead hash (get_cached_results ip_string hash now s q ns)
  unfolding get_cached_results
  get_cached_results-IsRead q =
      let (s', got, v, _, _, _) = get_cached_result_lem ip_string hash now s q ns false valid in
      let shown = show_name_server ip_string ns in
      let held = holds hash s (key_of q shown false) in
      let r =
        whole_or_none-IsRead hash s' (answer_of now shown held) v
          (answer_of-found now shown held) in
      record {
        cache = r.cache;
        result = r.result;
        found = r.found;
        done = rw got r.done;
        valid = r.valid;
        has_result = r.has_result;
      }

  pub get_cached_authority-IsRead :
      (name : Text) → IsRead hash (get_cached_authority ip_string hash now s name ns)
  unfolding get_cached_authority
  get_cached_authority-IsRead name =
      let q : Question = record { type = type_ns; class = class_inet; name = name } in
      let (s', got, v, _, _, _) = get_cached_result_lem ip_string hash now s q ns true valid in
      let shown = show_name_server ip_string ns in
      let held = holds hash s (key_of q shown true) in
      let r =
        whole_or_none-IsRead hash s' (answer_of now shown held) v
          (answer_of-found now shown held) in
      record {
        cache = r.cache;
        result = r.result;
        found = r.found;
        done = rw got r.done;
        valid = r.valid;
        has_result = r.has_result;
      }
