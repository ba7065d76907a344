-- ===== src/Cache/Hits.antt =====
-- The two readers, `GetCachedResults` and `GetCachedAuthority`: when they hit, and with what.
use zdns.Prelude.{
  ℕ, ◌≡◌, refl, ap, ◌∙◌, true, false, Option, none, some, List, [], ◌∷◌, arith, Text,
}
use zdns.Records.{Question, SingleQueryResult, type_ns, class_inet}
use zdns.Records.NameServers.{NameServer, show_name_server}
use zdns.Cache.Build.{
  CachedKey, TimedAnswer, CachedResult, is_nil, nothing_cached, live_result, CacheRead,
}
use zdns.Cache.{Cache, get_cached_results, get_cached_authority}
use zdns.Cache.Valid.{key_of, IsValid, holds}
use zdns.Cache.Read.{
  IsFresh, contents, stored, live_result_fresh, live_result-IsFresh, answer_of,
  get_cached_result_lem,
}

is_nil-contents : (ts : List TimedAnswer) → is_nil (contents ts) ≡ is_nil ts
is_nil-contents [] = refl
is_nil-contents (t ∷ ts) = refl

-- what a read makes of an entry with a record, none of which has expired
answer_of_fresh :
    (now : ℕ) (resolver : Text) (r : CachedResult)
    → IsFresh now r
    → nothing_cached r ≡ false
    → answer_of now resolver (some r)
      ≡ record { retv = some (stored r); is_found = true; partially_expired = false }
unfolding nothing_cached
answer_of_fresh now resolver r fresh full = ground (
  arith,
  live_result_fresh now r fresh,
  is_nil-contents r.answers,
  is_nil-contents r.authorities,
  is_nil-contents r.additionals,
)

-- what an entry must be that a read returns as found, with nothing expired
answer_of-IsFresh :
    (now : ℕ) (resolver : Text) (o : Option CachedResult) (res : SingleQueryResult)
    → answer_of now resolver o
      ≡ record { retv = some res; is_found = true; partially_expired = false }
    → (r : CachedResult) × (o ≡ some r) × IsFresh now r × (res ≡ stored r)
unfolding nothing_cached
answer_of-IsFresh now resolver none res e = absurd (ground arith)
answer_of-IsFresh now resolver (some r) res e =
    let whole : (live_result now r).1 ≡ false = ground arith in
    let fresh : IsFresh now r = live_result-IsFresh now r whole in
    (r, refl, fresh, ground (arith, live_result_fresh now r fresh))

module _ (ip_string : List ℕ → Text) (hash : CachedKey → ℕ) (now : ℕ) (s : Cache) (q : Question)
    (ns : Option NameServer) (valid : IsValid hash s) where
  abbrev key : CachedKey
  key = key_of q (show_name_server ip_string ns) false

  -- An entry with a record, none of which has expired, is a hit: every stored record is returned,
  -- and the cache holds what it held.
  pub get_cached_results_hit :
      (r : CachedResult)
      → holds hash s key ≡ some r
      → IsFresh now r
      → nothing_cached r ≡ false
      → (s' : Cache) × (get_cached_results ip_string hash now s q ns
          ≡ some (s', some (stored r), true))
        × IsValid hash s'
        × (holds hash s' key ≡ some r)
  unfolding get_cached_results
  get_cached_results_hit r e fresh full =
      let (s', got, v, others, kept, _) =
        get_cached_result_lem ip_string hash now s q ns false valid in
      let shown = show_name_server ip_string ns in
      let answered : answer_of now shown (holds hash s key)
          ≡ record { retv = some (stored r); is_found = true; partially_expired = false } =
        ap (answer_of now shown) e ∙ answer_of_fresh now shown r fresh full in
      (s', ground (arith, got, answered), v, kept (ap (λ (a : CacheRead). a.is_found) answered) ∙ e)

  -- Whatever is returned as found is an entry that the cache holds for the question, whole, with no
  -- record that has expired.
  pub get_cached_results_found :
      (s' : Cache) (res : SingleQueryResult)
      → get_cached_results ip_string hash now s q ns ≡ some (s', some res, true)
      → (r : CachedResult) × (holds hash s (key_of q (show_name_server ip_string ns) false)
          ≡ some r)
        × IsFresh now r
        × (res ≡ stored r)
  unfolding get_cached_results
  get_cached_results_found s' res e =
      let (s1, got, v, others, kept, _) =
        get_cached_result_lem ip_string hash now s q ns false valid in
      let shown = show_name_server ip_string ns in
      answer_of-IsFresh now shown (holds hash s key) res (ground (arith, got))

module _ (ip_string : List ℕ → Text) (hash : CachedKey → ℕ) (now : ℕ) (s : Cache) (authority : Text)
    (ns : Option NameServer) (valid : IsValid hash s) where
  abbrev ns_question : Question
  ns_question = record { type = type_ns; class = class_inet; name = authority }

  abbrev ns_key : CachedKey
  ns_key = key_of ns_question (show_name_server ip_string ns) true

  -- The entry of an authority with a record, none of which has expired, is a hit in the same way.
  pub get_cached_authority_hit :
      (r : CachedResult)
      → holds hash s (
          key_of
            (record { type = type_ns; class = class_inet; name = authority })
            (show_name_server ip_string ns)
            true)
        ≡ some r
      → IsFresh now r
      → nothing_cached r ≡ false
      → (s' : Cache) × (get_cached_authority ip_string hash now s authority ns
          ≡ some (s', some (stored r), true))
        × IsValid hash s'
  unfolding get_cached_authority
  get_cached_authority_hit r e fresh full =
      let (s', got, v, others, kept, _) =
        get_cached_result_lem ip_string hash now s ns_question ns true valid in
      let shown = show_name_server ip_string ns in
      let answered : answer_of now shown (holds hash s ns_key)
          ≡ record { retv = some (stored r); is_found = true; partially_expired = false } =
        ap (answer_of now shown) e ∙ answer_of_fresh now shown r fresh full in
      (s', ground (arith, got, answered), v)

-- The same for the entry of an authority.
pub get_cached_authority_found :
    (ip_string : List ℕ → Text) (hash : CachedKey → ℕ) (now : ℕ) (s : Cache) (authority : Text)
    (ns : Option NameServer)
    → IsValid hash s
    → (s' : Cache) (res : SingleQueryResult)
    → get_cached_authority ip_string hash now s authority ns ≡ some (s', some res, true)
    → (r : CachedResult) × (holds hash s (
          key_of
            (record { type = type_ns; class = class_inet; name = authority })
            (show_name_server ip_string ns)
            true)
        ≡ some r)
      × IsFresh now r
      × (res ≡ stored r)
unfolding get_cached_authority
get_cached_authority_found ip_string hash now s authority ns valid s' res e =
    let q : Question = record { type = type_ns; class = class_inet; name = authority } in
    let (s1, got, v, others, kept, _) =
      get_cached_result_lem ip_string hash now s q ns true valid in
    let shown = show_name_server ip_string ns in
    answer_of-IsFresh now shown (holds hash s (key_of q shown true)) res (ground (arith, got))
