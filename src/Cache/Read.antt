-- ===== src/Cache/Read.antt =====
-- Reading the cache: what a hit returns, and what a read does to the cache.
use zdns.Prelude.{
  ℕ, ◌≤◌, ◌≡◌, ◌≢◌, refl, sym, ◌∙◌, Bool, true, false, ◌&&◌, Option, none, some, List, [], ◌∷◌, map,
  arith, All, if◌then◌else◌, inl, inr, Bool-cases, Text,
}
use zdns.Records.{Question, AnyAnswer, SingleQueryResult, empty_result}
use zdns.Records.NameServers.{NameServer, show_name_server}
use zdns.ShardedCacheHash.Entries.{get-holds, delete-holds}
use zdns.Cache.Stats.{increment_hits, increment_misses}
use zdns.Cache.Build.{
  CachedKey, CachedKey-discrete, TimedAnswer, CachedResult, unexpired, is_nil, live_result,
  CacheRead,
}
use zdns.Cache.{Cache, read_entry, get_cached_result}
use zdns.Cache.Valid.{key_of, IsValid, holds}

-- no entry has expired at the time
abbrev pub AllFresh : ℕ → List TimedAnswer → Type 0
AllFresh now ts = All (λ t. now ≤ t.expires_at) ts

pub record IsFresh (now : ℕ) (r : CachedResult) : Type 0 where
  pub answers : AllFresh now r.answers
  pub authorities : AllFresh now r.authorities
  pub additionals : AllFresh now r.additionals

abbrev pub contents : List TimedAnswer → List AnyAnswer
contents ts = map (λ t. t.answer) ts

-- the response that a stored result stands for
abbrev pub stored : CachedResult → SingleQueryResult
stored r = record empty_result {
  answers = contents r.answers;
  authorities = contents r.authorities;
  additionals = contents r.additionals;
  flags = r.flags;
  dnssec_result = r.dnssec_result;
}

unexpired_fresh :
    (now : ℕ) (ts : List TimedAnswer) → AllFresh now ts → unexpired now ts ≡ (contents ts, false)
unfolding unexpired
unexpired_fresh now [] h = refl
unexpired_fresh now (t ∷ ts) h = ground (arith, unexpired_fresh now ts h.1)

fresh_unexpired : (now : ℕ) (ts : List TimedAnswer) → (unexpired now ts).1 ≡ false → AllFresh now ts
unfolding unexpired
fresh_unexpired now [] h = tt
fresh_unexpired now (t ∷ ts) h = ground (arith, fresh_unexpired now ts)

pub live_result_fresh :
    (now : ℕ) (r : CachedResult) → IsFresh now r → live_result now r ≡ (stored r, false)
unfolding live_result
live_result_fresh now r h = ground (
  arith,
  unexpired_fresh now r.answers h.answers,
  unexpired_fresh now r.authorities h.authorities,
  unexpired_fresh now r.additionals h.additionals,
)

pub live_result-IsFresh :
    (now : ℕ) (r : CachedResult) → (live_result now r).1 ≡ false → IsFresh now r
unfolding live_result
live_result-IsFresh now r h = record {
  answers = fresh_unexpired now r.answers (ground arith);
  authorities = fresh_unexpired now r.authorities (ground arith);
  additionals = fresh_unexpired now r.additionals (ground arith);
}

-- what a read returns of what the cache holds
abbrev pub answer_of : ℕ → Text → Option CachedResult → CacheRead
answer_of now resolver none = record {
  retv = some (record empty_result { resolver = resolver });
  is_found = false;
  partially_expired = false;
}
answer_of now resolver (some r) =
    let (res, expired) = live_result now r in
    if is_nil res.answers && is_nil res.authorities && is_nil res.additionals
    then record { retv = none; is_found = false; partially_expired = false }
    else record { retv = some res; is_found = true; partially_expired = expired }

module _ (ip_string : List ℕ → Text) (hash : CachedKey → ℕ) (now : ℕ) (s : Cache) (q : Question)
    (ns : Option NameServer) (is_authority : Bool) (valid : IsValid hash s) where
  abbrev read_key : CachedKey
  read_key = key_of q (show_name_server ip_string ns) is_authority

  read_entry_lem :
      (c : Cache) (o : Option CachedResult)
      → IsValid hash c
      → (s' : Cache) × (read_entry hash now c read_key o
            (record empty_result { resolver = show_name_server ip_string ns })
          ≡ some (s', answer_of now (show_name_server ip_string ns) o))
        × IsValid hash s'
        × ((j : CachedKey) → j ≢ read_key → holds hash s' j ≡ holds hash c j)
        × ((answer_of now (show_name_server ip_string ns) o).is_found ≡ true
            → holds hash s' read_key ≡ holds hash c read_key)
        × ((w : CachedResult) → holds hash s' read_key ≡ some w → holds hash c read_key ≡ some w)
  unfolding read_entry
  read_entry_lem c none v =
      (record c { stats = increment_misses c.stats }, refl, v, λ j ne. refl, λ _. refl, λ w e. e)
  read_entry_lem c (some r) v =
      let res = (live_result now r).0 in
      let (d, gone, v', same, empty) =
        delete-holds CachedKey-discrete hash c.iterative_cache read_key v in
      elim (Bool-cases (is_nil res.answers && is_nil res.authorities && is_nil res.additionals)) [
        | inl e ↦ (
          record { iterative_cache = d; stats = increment_hits c.stats },
          ground (arith, gone),
          v',
          same,
          λ f. ground arith,
          λ w e. ground (arith, empty),
        )
        | inr e ↦ (
          record c { stats = increment_hits c.stats },
          ground arith,
          v,
          λ j ne. refl,
          λ _. refl,
          λ w e. e,
        )
      ]

  -- Reading never panics. It returns what is alive of the entry of the key, keeps the cache valid,
  -- and leaves every other key as it was, and this one too if it is found. What it holds of this key
  -- afterwards it held before.
  pub get_cached_result_lem :
      (s' : Cache) × (get_cached_result ip_string hash now s q ns is_authority
        ≡ some (s', answer_of now (show_name_server ip_string ns) (holds hash s read_key)))
      × IsValid hash s'
      × ((j : CachedKey) → j ≢ read_key → holds hash s' j ≡ holds hash s j)
      × ((answer_of now (show_name_server ip_string ns) (holds hash s read_key)).is_found ≡ true
          → holds hash s' read_key ≡ holds hash s read_key)
      × ((w : CachedResult) → holds hash s' read_key ≡ some w → holds hash s read_key ≡ some w)
  unfolding get_cached_result
  get_cached_result_lem =
      let (c, got, v, same) = get-holds CachedKey-discrete hash s.iterative_cache read_key valid in
      let (s', read, v', others, kept, before) =
        read_entry_lem (record s { iterative_cache = c }) (holds hash s read_key) v in
      (
        s',
        rw (got, read),
        v',
        λ j ne. others j ne ∙ same j,
        λ f. kept f ∙ same read_key,
        λ w e. sym (same read_key) ∙ before w e,
      )
