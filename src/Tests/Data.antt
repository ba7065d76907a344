-- ===== src/Tests/Data.antt =====
-- The data of the tests: small caches, a question, a response and a referral.
use zdns.Prelude.{
  ℕ, ◌≡◌, inl, refl, true, false, none, some, List, [], ◌∷◌, ◌++◌, ℕ_discrete, Text, codes, arith,
  text_eq, has_suffix, trim_suffix, to_lower, to_lower_byte,
}
use zdns.CacheHash.{Element, CacheHash}
use zdns.CacheHash.Elements.{index}
use zdns.CacheHash.Valid.{IsValid as IsValidHash}
use zdns.Cache.Kept.{IsGood, HasGoodEntries, safe_add_cached_answer-HasGoodEntries}
use zdns.Names.{name_is_beneath}
use zdns.Records.{
  Question, Answer, AnyAnswer, base_ans, as_answer, SingleQueryResult, empty_result, no_flags,
  type_a, type_ns, class_inet,
}
use zdns.Records.NameServers.{NameServer, show_name_server}
use zdns.Resolver.{Config}
use zdns.Records.NameServers.{TransportMode, IpVersionMode, IterationIpPreference}
use zdns.Cache.{Cache, safe_add_cached_authority}
use zdns.Cache.Build.{
  CachedKey, build_cached_result, nothing_cached, is_delegation_record, other_records, is_bogus,
  is_poison, has_poison, is_cacheable_type, build_section,
}
use zdns.Cache.Valid.{key_of, IsValid, holds, init-IsValid}
use zdns.Cache.Read.{IsFresh}
use zdns.Cache.Poison.{has_poison_iff}
use zdns.Cache.Write.{Accepts, safe_add_cached_answer-holds}
use zdns.Cache.Referral.{ns_key, ns_entry, safe_add_cached_authority-holds}

-- a cache of two places with two entries, and an empty one without a place
abbrev pub two_elements : List (Element ℕ ℕ)
two_elements =
    record { addr = 1; key = 20; value = 200 } ∷ record { addr = 0; key = 10; value = 100 } ∷ []

abbrev pub full : CacheHash ℕ ℕ
full = record {
  h = λ k. index ℕ_discrete k two_elements;
  l = two_elements;
  len = 2;
  max_len = 2;
  eject_cb = some 7;
  calls = [];
  fresh = 2;
}

pub full-IsValid : IsValidHash ℕ_discrete full
full-IsValid = record {
  counted = refl;
  distinct = (((λ e. cc, λ e. cc), tt), (tt, tt));
  allocated = ground arith;
  indexed = λ k. refl;
}

abbrev pub test_hash : CachedKey → ℕ
test_hash k = k.question.type

abbrev pub test_ip_string : List ℕ → Text
test_ip_string ip = codes "192.0.2.53"

abbrev pub example : Text
example = codes "example.com"

abbrev pub question : Question
question = record { type = type_a; class = class_inet; name = example }

abbrev pub address : Answer
address = record {
  ttl = 300;
  type = codes "A";
  rr_type = type_a;
  class = codes "IN";
  rr_class = class_inet;
  name = example;
  answer = codes "192.0.2.1";
}

abbrev pub response : SingleQueryResult
response = record empty_result {
  answers = AnyAnswer.answer address ∷ [];
  flags = record no_flags { authoritative = true };
}

-- a referral to example.com, with glue
abbrev pub server : Answer
server = record address { type = codes "NS"; rr_type = type_ns; answer = codes "ns.example.com." }

abbrev pub glue : Answer
glue = record address { name = codes "ns.example.com" }

abbrev pub referral : SingleQueryResult
referral = record empty_result {
  authorities = AnyAnswer.answer server ∷ [];
  additionals = AnyAnswer.answer glue ∷ [];
}

abbrev pub name_server : NameServer
name_server = record {
  ip = some (192 ∷ 0 ∷ 2 ∷ 53 ∷ []);
  port = 53;
  domain_name = codes "ns.example.com";
}

-- a new cache
abbrev pub new_cache : Cache
new_cache = (init-IsValid test_hash 8192).0

pub new_cache-IsValid : IsValid test_hash new_cache
new_cache-IsValid = (init-IsValid test_hash 8192).2

pub response-Accepts : Accepts response example false
unfolding is_bogus has_poison is_poison base_ans name_is_beneath has_suffix trim_suffix to_lower
    text_eq to_lower_byte is_cacheable_type
response-Accepts = record {
  not_bogus = refl;
  clean =
      (has_poison_iff example (response.answers ++ response.authorities ++ response.additionals)).0
        refl;
  authoritative = refl;
  kept = refl;
}

-- the cache with the response, written at time 7
abbrev pub stocked : Cache
stocked =
    (safe_add_cached_answer-holds test_ip_string test_hash 7 new_cache question response none
      example false new_cache-IsValid response-Accepts).0

pub stocked-IsValid : IsValid test_hash stocked
stocked-IsValid =
    (safe_add_cached_answer-holds test_ip_string test_hash 7 new_cache question response none
      example false new_cache-IsValid response-Accepts).2

pub stocked-holds :
    holds test_hash stocked (key_of question [] false) ≡ some (build_cached_result 7 response)
unfolding show_name_server
stocked-holds =
    (safe_add_cached_answer-holds test_ip_string test_hash 7 new_cache question response none
      example false new_cache-IsValid response-Accepts).3

-- the records of the cache are those of the response
pub stocked-HasGoodEntries :
    (P Q : AnyAnswer → Type 0) → IsGood P Q response → HasGoodEntries P Q test_hash stocked
unfolding is_bogus
stocked-HasGoodEntries P Q good =
    safe_add_cached_answer-HasGoodEntries P Q test_ip_string test_hash 7 new_cache none
      new_cache-IsValid (λ j w h. absurd (let f = (init-IsValid test_hash 8192).3 j in cc)) stocked
      question response example false refl good
      (safe_add_cached_answer-holds test_ip_string test_hash 7 new_cache question response none
        example false new_cache-IsValid response-Accepts).1

pub response-IsFresh : IsFresh 7 (build_cached_result 7 response)
unfolding build_cached_result build_section base_ans is_cacheable_type
response-IsFresh = record { answers = (omega arith, tt); authorities = tt; additionals = tt }

pub response_kept : nothing_cached (build_cached_result 7 response) ≡ false
unfolding nothing_cached build_cached_result build_section base_ans is_cacheable_type
response_kept = refl

-- the cache with the referral, written at time 7
pub referred :
    (s' : Cache) × (safe_add_cached_authority test_ip_string test_hash 7 new_cache referral none
        (codes ".")
      ≡ some (s', record referral { answers = [] }))
    × IsValid test_hash s'
    × (holds test_hash s' (ns_key example []) ≡ some (ns_entry 7 referral))
unfolding as_answer to_lower to_lower_byte is_bogus nothing_cached other_records
    is_delegation_record build_section base_ans is_cacheable_type build_cached_result
    show_name_server
referred =
    safe_add_cached_authority-holds test_ip_string test_hash 7 new_cache referral none (codes ".")
      example new_cache-IsValid refl (λ e. cc) (omega arith) (refl, tt) (inl refl) refl

pub referral-IsFresh : IsFresh 7 (ns_entry 7 referral)
unfolding build_cached_result build_section base_ans is_cacheable_type other_records
    is_delegation_record
referral-IsFresh = record {
  answers = tt;
  authorities = (omega arith, tt);
  additionals = (omega arith, tt);
}

pub referral_kept : nothing_cached (ns_entry 7 referral) ≡ false
unfolding nothing_cached build_cached_result build_section base_ans is_cacheable_type other_records
    is_delegation_record
referral_kept = refl

abbrev pub cfg : Config
cfg = record {
  retries = 3;
  max_depth = 10;
  transport_mode = TransportMode.udp_or_tcp;
  ip_version_mode = IpVersionMode.ipv4_only;
  iteration_ip_preference = IterationIpPreference.prefer_ipv4;
  network_timeout = 2;
  iterative_timeout = 8;
  root_name_servers = name_server ∷ [];
  external_name_servers = name_server ∷ [];
  timeout = 20;
  lookup_all_name_servers = false;
  follow_cnames = true;
  has_blacklist = true;
  dns_over_https = false;
  dns_over_tls = false;
}
