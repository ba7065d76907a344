-- ===== src/Cache/Kept.antt =====
-- What all records of the cache of src/zdns/cache.go keep: predicates on the records of the answers and
-- of the authorities, through the methods of the cache.
use zdns.Prelude.{
  ℕ, ◌≡◌, ◌≢◌, refl, sym, ap, ◌∙◌, Bool, true, false, ◌&&◌, Option, none, some, List, [], ◌∷◌,
  arith, All, if◌then◌else◌, inl, inr, Bool-cases, Option-cases, Text, ltb,
}
use mathlib.Core.Path.{subst}
use zdns.Records.{
  Question, AnyAnswer, base_ans, SingleQueryResult, type_ns, class_inet, empty_result,
}
use zdns.Records.NameServers.{NameServer, show_name_server}
use zdns.Cache.Build.{
  CachedKey, CachedKey-discrete, TimedAnswer, CachedResult, is_bogus, build_section,
  build_cached_result, is_cacheable_type, is_delegation_record, delegation_records, other_records,
  unexpired, live_result, is_nil,
}
use zdns.Cache.{
  Cache, get_cached_results, get_cached_authority, safe_add_cached_answer,
  safe_add_cached_authority,
}
use zdns.Cache.Valid.{key_of, IsValid, holds}
use zdns.Cache.Read.{contents, stored, answer_of, get_cached_result_lem}
use zdns.Cache.Write.{safe_add_cached_answer_sound}
use zdns.Cache.Referral.{IsOfReferral, safe_add_cached_authority_sound}

module _ (P Q : AnyAnswer → Type 0) where
  -- the records of the answers and of the authorities are as told
  abbrev pub IsGood : SingleQueryResult → Type 0
  IsGood res = All P res.answers × All Q res.authorities

  abbrev pub IsGoodResult : Option SingleQueryResult → Type 0
  IsGoodResult none = Unit
  IsGoodResult (some res) = IsGood res

  pub IsGoodResult-all :
      (o : Option SingleQueryResult)
      → ((res : SingleQueryResult) → o ≡ some res → IsGood res)
      → IsGoodResult o
  IsGoodResult-all none h = tt
  IsGoodResult-all (some res) h = h res refl

  abbrev pub HasGoodEntries : (CachedKey → ℕ) → Cache → Type 0
  HasGoodEntries hash s =
      (j : CachedKey) (w : CachedResult) → holds hash s j ≡ some w → IsGood (stored w)

  build_section-All :
      (R : AnyAnswer → Type 0) (t : ℕ) (xs : List AnyAnswer)
      → All R xs
      → All R (contents (build_section t xs))
  unfolding build_section
  build_section-All R t [] h = tt
  build_section-All R t (x ∷ xs) (h, hs) =
      let rest = build_section-All R t xs hs in
      elim (Option-cases (base_ans x)) [
        | inl e ↦ rw (build_section, e) rest
        | inr (a, e) ↦ elim (Bool-cases (is_cacheable_type a)) [
          | inl c ↦ rw (build_section, e, c) (h, rest)
          | inr c ↦ rw (build_section, e, c) rest
        ]
      ]

  unexpired-All :
      (R : AnyAnswer → Type 0) (now : ℕ) (ts : List TimedAnswer)
      → All R (contents ts)
      → All R (unexpired now ts).0
  unfolding unexpired
  unexpired-All R now [] h = tt
  unexpired-All R now (t ∷ ts) (h, hs) =
      let rest = unexpired-All R now ts hs in
      elim (Bool-cases (ltb t.expires_at now)) [
        | inl e ↦ rw (unexpired, e) rest
        | inr e ↦ rw (unexpired, e) (h, rest)
      ]

  delegation_records-All : (xs : List AnyAnswer) → All Q xs → All Q (delegation_records xs)
  unfolding delegation_records
  delegation_records-All [] h = tt
  delegation_records-All (x ∷ xs) (h, hs) = elim (Bool-cases (is_delegation_record x)) [
    | inl e ↦ rw (delegation_records, e) (h, delegation_records-All xs hs)
    | inr e ↦ rw (delegation_records, e) (delegation_records-All xs hs)
  ]

  other_records-All : (xs : List AnyAnswer) → All Q xs → All Q (other_records xs)
  unfolding other_records
  other_records-All [] h = tt
  other_records-All (x ∷ xs) (h, hs) = elim (Bool-cases (is_delegation_record x)) [
    | inl e ↦ rw (other_records, e) (other_records-All xs hs)
    | inr e ↦ rw (other_records, e) (h, other_records-All xs hs)
  ]

  build_cached_result-IsGood :
      (t : ℕ) (res : SingleQueryResult) → IsGood res → IsGood (stored (build_cached_result t res))
  unfolding build_cached_result
  build_cached_result-IsGood t res (p, q) =
      (build_section-All P t res.answers p, build_section-All Q t res.authorities q)

  IsOfReferral-IsGood :
      (t : ℕ) (given : SingleQueryResult) (n shown : Text) (j : CachedKey) (w : CachedResult)
      → IsGood given
      → IsOfReferral t given n shown j w
      → IsGood (stored w)
  IsOfReferral-IsGood t given n shown j w (_, q) (inl (_, e)) =
      subst (λ x. IsGood (stored x)) (sym e)
        (build_cached_result-IsGood t _ (tt, delegation_records-All given.authorities q))
  IsOfReferral-IsGood t given n shown j w (_, q) (inr (_, e)) =
      subst (λ x. IsGood (stored x)) (sym e)
        (build_cached_result-IsGood t _ (tt, other_records-All given.authorities q))

  answer_of-IsGood :
      (now : ℕ) (resolver : Text) (o : Option CachedResult)
      → ((w : CachedResult) → o ≡ some w → IsGood (stored w))
      → (res : SingleQueryResult) → (answer_of now resolver o).retv ≡ some res
      → IsGood res
  unfolding live_result
  answer_of-IsGood now resolver none h res e =
      let same : record empty_result { resolver = resolver } ≡ res = cc in
      subst IsGood same (tt, tt)
  answer_of-IsGood now resolver (some w) h res e =
      let (p, q) = h w refl in
      let live = (live_result now w).0 in
      elim (Bool-cases
        (is_nil live.answers && is_nil live.authorities && is_nil live.additionals)) [
          | inl n ↦ absurd (ground (arith, e, n))
          | inr n ↦
              let same : live ≡ res = ground (arith, e, n) in
              subst IsGood same
                (unexpired-All P now w.answers p, unexpired-All Q now w.authorities q)
        ]

  module _ (ip_string : List ℕ → Text) (hash : CachedKey → ℕ) (now : ℕ) (s : Cache)
      (ns : Option NameServer) (valid : IsValid hash s) (good : HasGoodEntries hash s) where
    -- what a read leaves, and what it returns
    abbrev pub ReadsGood : Option (Cache × Option SingleQueryResult × Bool) → Type 0
    ReadsGood m =
        (s' : Cache) (o : Option SingleQueryResult) (found : Bool)
        → m ≡ some (s', o, found)
        → HasGoodEntries hash s' × ((res : SingleQueryResult) → o ≡ some res → IsGood res)

    whole_or_none-IsGood :
        (q : Question) (is_authority : Bool) (s1 : Cache)
        → HasGoodEntries hash s1
        → (let read =
              answer_of now
                (show_name_server ip_string ns)
                (holds hash s (key_of q (show_name_server ip_string ns) is_authority)) in
            ReadsGood (
              if read.partially_expired
              then some (s1, none, false)
              else some (s1, read.retv, read.is_found)))
    whole_or_none-IsGood q is_authority s1 kept s' o found e =
        let key = key_of q (show_name_server ip_string ns) is_authority in
        let read = answer_of now (show_name_server ip_string ns) (holds hash s key) in
        elim (Bool-cases read.partially_expired) [
          | inl x ↦
              let same : s1 ≡ s' = ground (arith, e, x) in
              let nothing : o ≡ none = ground (arith, e, x) in
              (subst (HasGoodEntries hash) same kept, λ res f. absurd cc)
          | inr x ↦
              let same : s1 ≡ s' = ground (arith, e, x) in
              let got : read.retv ≡ o = ground (arith, e, x) in
              (
                subst (HasGoodEntries hash) same kept,
                λ res f.
                    answer_of-IsGood now (show_name_server ip_string ns) (holds hash s key)
                      (λ w h. good key w h) res (got ∙ f),
              )
        ]

    read-HasGoodEntries :
        (q : Question) (is_authority : Bool) (s1 : Cache)
        → ((j : CachedKey)
            → j ≢ key_of q (show_name_server ip_string ns) is_authority
            → holds hash s1 j ≡ holds hash s j)
        → ((w : CachedResult)
            → holds hash s1 (key_of q (show_name_server ip_string ns) is_authority) ≡ some w
            → holds hash s (key_of q (show_name_server ip_string ns) is_authority) ≡ some w)
        → HasGoodEntries hash s1
    read-HasGoodEntries q is_authority s1 others before j w held =
        elim (CachedKey-discrete j (key_of q (show_name_server ip_string ns) is_authority)) [
          | yes p ↦ good j w (ap (holds hash s) p ∙ before w (ap (holds hash s1) (sym p) ∙ held))
          | no p ↦ good j w (sym (others j p) ∙ held)
        ]

    pub get_cached_results-IsGood :
        (q : Question) → ReadsGood (get_cached_results ip_string hash now s q ns)
    unfolding get_cached_results
    get_cached_results-IsGood q s' o found e =
        let (s1, got, _, others, _, before) =
          get_cached_result_lem ip_string hash now s q ns false valid in
        whole_or_none-IsGood q false s1 (read-HasGoodEntries q false s1 others before) s' o found
          (sym (rw got refl) ∙ e)

    pub get_cached_authority-IsGood :
        (name : Text) → ReadsGood (get_cached_authority ip_string hash now s name ns)
    unfolding get_cached_authority
    get_cached_authority-IsGood name s' o found e =
        let q : Question = record { type = type_ns; class = class_inet; name = name } in
        let (s1, got, _, others, _, before) =
          get_cached_result_lem ip_string hash now s q ns true valid in
        whole_or_none-IsGood q true s1 (read-HasGoodEntries q true s1 others before) s' o found
          (sym (rw got refl) ∙ e)

    pub safe_add_cached_answer-HasGoodEntries :
        (s' : Cache) (q : Question) (res : SingleQueryResult) (layer : Text) (cna : Bool)
        → is_bogus res.dnssec_result ≡ false
        → IsGood res
        → safe_add_cached_answer ip_string hash now s q res ns layer cna ≡ some s'
        → HasGoodEntries hash s'
    safe_add_cached_answer-HasGoodEntries s' q res layer cna b g e =
        let (s1, got, _, old) =
          safe_add_cached_answer_sound ip_string hash now s q res ns layer cna valid b in
        let same : s1 ≡ s' = cc in
        subst (HasGoodEntries hash) same (λ j w held. elim (old j w held) [
          | inl h ↦ good j w h
          | inr (_, r, _) ↦
              subst (λ x. IsGood (stored x)) (sym r) (build_cached_result-IsGood now res g)
        ])

    pub safe_add_cached_authority-HasGoodEntries :
        (s' : Cache) (res res' : SingleQueryResult) (layer : Text)
        → is_bogus res.dnssec_result ≡ false
        → IsGood res
        → safe_add_cached_authority ip_string hash now s res ns layer ≡ some (s', res')
        → HasGoodEntries hash s'
    safe_add_cached_authority-HasGoodEntries s' res res' layer b g e =
        let (s1, got, _, old) =
          safe_add_cached_authority_sound ip_string hash now s res ns layer valid b in
        let same : s1 ≡ s' = cc in
        subst (HasGoodEntries hash) same (λ j w held. elim (old j w held) [
          | inl h ↦ good j w h
          | inr (n, _, _, r) ↦ IsOfReferral-IsGood now res n (show_name_server ip_string ns) j w g r
        ])

-- what all records are
abbrev pub AnyRecord : AnyAnswer → Type 0
AnyRecord x = Unit

All-any : (xs : List AnyAnswer) → All AnyRecord xs
All-any [] = tt
All-any (x ∷ xs) = (tt, All-any xs)

pub IsGood-any : (res : SingleQueryResult) → IsGood AnyRecord AnyRecord res
IsGood-any res = (All-any res.answers, All-any res.authorities)

pub IsGoodResult-any : (o : Option SingleQueryResult) → IsGoodResult AnyRecord AnyRecord o
IsGoodResult-any none = tt
IsGoodResult-any (some res) = IsGood-any res
