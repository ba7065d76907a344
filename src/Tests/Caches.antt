-- ===== src/Tests/Caches.antt =====
-- The theorems on the cache of answers at concrete inputs.
use zdns.Prelude.{
  ◌+◌, ◌*◌, ◌≡◌, ◌≢◌, ◌⊎◌, inl, inr, refl, ap, true, false, none, some, [], ◌++◌, All, arith, Text,
  codes, text_eq, has_suffix, trim_suffix, to_lower, to_lower_byte,
}
use zdns.Names.{name_is_beneath}
use zdns.Names.Beneath.{name_is_beneath_iff}
use zdns.Records.{base_ans, as_answer, empty_result}
use zdns.Records.NameServers.{show_name_server}
use zdns.Cache.{
  Cache, get_cached_results, get_cached_authority, get_cached_result, safe_add_cached_answer,
  safe_add_cached_authority,
}
use zdns.Cache.Build.{
  CachedKey, CachedResult, is_bogus, is_poison, has_poison, build_cached_result, second,
}
use zdns.Cache.Valid.{key_of, IsValid, holds, init-IsValid}
use zdns.Cache.Read.{IsFresh, stored, answer_of, get_cached_result_lem}
use zdns.Cache.Hits.{get_cached_results_hit, get_cached_authority_hit, get_cached_results_found}
use zdns.Cache.Poison.{IsClean, has_poison_iff}
use zdns.Cache.Write.{cacheable, safe_add_cached_answer-holds, read-after-write}
use zdns.Cache.Authorities.{AreNamed}
use zdns.Cache.Referral.{IsNameInLayer, IsOfReferral, ns_entry, safe_add_cached_authority_sound}
use zdns.Cache.Invariant.{answer, start, next, IsSound, Reach-IsSound}
use zdns.Tests.Data.{
  test_hash, test_ip_string, example, question, response, referral, new_cache, new_cache-IsValid,
  response-Accepts, stocked, stocked-IsValid, stocked-holds, response-IsFresh, response_kept,
  referred, referral-IsFresh, referral_kept,
}

-- The response is written at time 7 and read 300 seconds later.
read-after-write_example :
    (s' s'' : Cache) × (safe_add_cached_answer test_ip_string test_hash 7 new_cache question
        response none example false
      ≡ some s')
    × (get_cached_results test_ip_string test_hash (7 + 300 * second) s' question none
        ≡ some (
          s'',
          some (record empty_result {
            answers = cacheable response.answers;
            authorities = cacheable response.authorities;
            additionals = cacheable response.additionals;
            flags = response.flags;
            dnssec_result = response.dnssec_result;
          }),
          true,
        ))
unfolding base_ans
read-after-write_example =
    read-after-write test_ip_string test_hash 7 new_cache question response none example false 300
      (7 + 300 * second) new_cache-IsValid response-Accepts ((λ a e. ground arith), tt) tt tt
      (omega arith)

-- The response is poison for the layer org.
is_dirty :
    ¬ All (IsClean (codes "org")) (response.answers ++ response.authorities ++ response.additionals)
unfolding has_poison is_poison base_ans name_is_beneath has_suffix trim_suffix to_lower text_eq
    to_lower_byte
is_dirty h =
    let f =
      (has_poison_iff (codes "org")
          (response.answers ++ response.authorities ++ response.additionals)).1
        h in
    cc

-- the read of the response from the stocked cache
results_read :
    (s' : Cache) × (get_cached_results test_ip_string test_hash 7 stocked question none
      ≡ some (s', some (stored (build_cached_result 7 response)), true))
    × IsValid test_hash s'
    × (holds test_hash s' (key_of question [] false) ≡ some (build_cached_result 7 response))
unfolding show_name_server
results_read =
    get_cached_results_hit test_ip_string test_hash 7 stocked question none stocked-IsValid
      (build_cached_result 7 response) stocked-holds response-IsFresh response_kept

get_cached_results_found_example :
    (r : CachedResult) × (holds test_hash stocked (key_of question [] false) ≡ some r)
    × IsFresh 7 r
    × (stored (build_cached_result 7 response) ≡ stored r)
unfolding show_name_server
get_cached_results_found_example =
    get_cached_results_found test_ip_string test_hash 7 stocked question none stocked-IsValid
      results_read.0 (stored (build_cached_result 7 response)) results_read.1

authority_read :
    (s' : Cache) × (get_cached_authority test_ip_string test_hash 7 referred.0 example none
      ≡ some (s', some (stored (ns_entry 7 referral)), true))
    × IsValid test_hash s'
unfolding show_name_server
authority_read =
    get_cached_authority_hit test_ip_string test_hash 7 referred.0 example none referred.2
      (ns_entry 7 referral) referred.3 referral-IsFresh referral_kept

get_cached_result_lem_example :
    (s' : Cache) × (get_cached_result test_ip_string test_hash 7 stocked question none false
      ≡ some (s', answer_of 7 [] (holds test_hash stocked (key_of question [] false))))
    × IsValid test_hash s'
    × ((j : CachedKey)
        → j ≢ key_of question [] false
        → holds test_hash s' j ≡ holds test_hash stocked j)
    × ((answer_of 7 [] (holds test_hash stocked (key_of question [] false))).is_found ≡ true
        → holds test_hash s' (key_of question [] false)
          ≡ holds test_hash stocked (key_of question [] false))
    × ((w : CachedResult)
        → holds test_hash s' (key_of question [] false) ≡ some w
        → holds test_hash stocked (key_of question [] false) ≡ some w)
unfolding show_name_server
get_cached_result_lem_example =
    get_cached_result_lem test_ip_string test_hash 7 stocked question none false stocked-IsValid

Reach-IsSound_example : IsSound test_ip_string test_hash stocked
Reach-IsSound_example = Reach-IsSound test_ip_string test_hash 8192 stocked (
    next new_cache stocked (start new_cache (init-IsValid test_hash 8192).1) (
      answer 7 question response none example false
        (safe_add_cached_answer-holds test_ip_string test_hash 7 new_cache question response none
          example false new_cache-IsValid response-Accepts).1))

safe_add_cached_authority_sound_example :
    (s' : Cache) × (safe_add_cached_authority test_ip_string test_hash 7 new_cache referral none
        (codes ".")
      ≡ some (s', record referral { answers = [] }))
    × IsValid test_hash s'
    × ((j : CachedKey) (w : CachedResult)
        → holds test_hash s' j ≡ some w
        → (holds test_hash new_cache j ≡ some w)
          ⊎ ((n : Text) × AreNamed n referral.authorities
              × IsNameInLayer (codes ".") n
              × IsOfReferral 7 referral n [] j w))
unfolding is_bogus show_name_server
safe_add_cached_authority_sound_example =
    safe_add_cached_authority_sound test_ip_string test_hash 7 new_cache referral none (codes ".")
      new_cache-IsValid refl

-- the only name of the referral's authorities is not in the layer org
is_outside : (n : Text) → AreNamed n referral.authorities → ¬ IsNameInLayer (codes "org") n
unfolding as_answer to_lower to_lower_byte name_is_beneath has_suffix trim_suffix text_eq
is_outside n h q = elim h.0 [
  | inl e ↦ cc
  | inr e ↦
      let f = (name_is_beneath_iff n (codes "org")).0.1 q in
      let g = ap (λ m. (name_is_beneath m (codes "org")).0) e in cc
]
