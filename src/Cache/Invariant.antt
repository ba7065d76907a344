-- ===== src/Cache/Invariant.antt =====
-- The cache over time: its methods as steps from a new cache, in any order, at any times and with any
-- arguments, and what then holds of every entry.
use zdns.Prelude.{
  ℕ, ◌≡◌, refl, sym, ap, ◌∙◌, Bool, true, false, Option, some, List, [], ◌∷◌, arith, All, inl, inr,
  Option-cases, Bool-cases, Text,
}
use mathlib.Core.Path.{subst}
use zdns.Records.{Question, Answer, AnyAnswer, base_ans, SingleQueryResult, type_ns, class_inet}
use zdns.Records.NameServers.{NameServer, show_name_server}
use zdns.Cache.Build.{
  CachedKey, TimedAnswer, CachedResult, is_bogus, build_section, build_cached_result,
  is_cacheable_type, CachedKey-discrete, delegation_records, CacheRead,
}
use zdns.Cache.{
  Cache, init, get_cached_result, get_cached_results, get_cached_authority, safe_add_cached_answer,
  safe_add_cached_authority,
}
use zdns.Cache.Valid.{key_of, IsValid, holds, init-IsValid}
use zdns.Cache.Read.{get_cached_result_lem}
use zdns.Cache.Write.{safe_add_cached_answer_sound, safe_add_cached_answer_bogus}
use zdns.Cache.Referral.{
  IsOfReferral, ds_key, ns_key, ds_entry, ns_entry, safe_add_cached_authority_sound,
  safe_add_cached_authority_bogus,
}

-- a record of a type that may be stored
abbrev pub IsCacheable : TimedAnswer → Type 0
IsCacheable t = (a : Answer) × (base_ans t.answer ≡ some a) × (is_cacheable_type a ≡ true)

-- what every entry is
pub record IsEntry (k : CachedKey) (r : CachedResult) : Type 0 where
  pub not_bogus : is_bogus r.dnssec_result ≡ false
  pub answers : All IsCacheable r.answers
  pub authorities : All IsCacheable r.authorities
  pub additionals : All IsCacheable r.additionals
  pub referral : k.is_authority ≡ true → (r.answers ≡ []) × (k.question.type ≡ type_ns)

build_section-IsCacheable : (t : ℕ) (xs : List AnyAnswer) → All IsCacheable (build_section t xs)
unfolding build_section
build_section-IsCacheable t [] = tt
build_section-IsCacheable t (x ∷ xs) = elim (Option-cases (base_ans x)) [
  | inl e ↦ ground (arith, build_section-IsCacheable t xs)
  | inr (a, e) ↦ elim (Bool-cases (is_cacheable_type a)) [
    | inl c ↦ ground (arith, build_section-IsCacheable t xs)
    | inr c ↦ ground (arith, build_section-IsCacheable t xs)
  ]
]

build-IsEntry :
    (t : ℕ) (res : SingleQueryResult) (k : CachedKey)
    → is_bogus res.dnssec_result ≡ false
    → (k.is_authority ≡ true → (res.answers ≡ []) × (k.question.type ≡ type_ns))
    → IsEntry k (build_cached_result t res)
unfolding build_cached_result build_section
build-IsEntry t res k b referral = record {
  not_bogus = b;
  answers = build_section-IsCacheable t res.answers;
  authorities = build_section-IsCacheable t res.authorities;
  additionals = build_section-IsCacheable t res.additionals;
  referral = λ q. (ap (build_section t) (referral q).0, (referral q).1);
}

IsEntry-cong : (j k : CachedKey) (w r : CachedResult) → j ≡ k → w ≡ r → IsEntry k r → IsEntry j w
IsEntry-cong j k w r p q h = subst (λ x. IsEntry x w) (sym p) (subst (IsEntry k) (sym q) h)

IsOfReferral-IsEntry :
    (t : ℕ) (given : SingleQueryResult) (n shown : Text) (j : CachedKey) (w : CachedResult)
    → is_bogus given.dnssec_result ≡ false
    → IsOfReferral t given n shown j w
    → IsEntry j w
unfolding is_bogus
IsOfReferral-IsEntry t given n shown j w b (inl (p, q)) =
    IsEntry-cong j (ds_key n shown) w (ds_entry t given (delegation_records given.authorities)) p q
      (build-IsEntry t _ (ds_key n shown) refl (λ f. absurd cc))
IsOfReferral-IsEntry t given n shown j w b (inr (p, q)) =
    IsEntry-cong j (ns_key n shown) w (ns_entry t given) p q
      (build-IsEntry t _ (ns_key n shown) b (λ _. (refl, refl)))

module _ (ip_string : List ℕ → Text) (hash : CachedKey → ℕ) where
  -- the calls that return, each from one state to the next
  pub data Step (s s' : Cache) : Type 0 where
    answer :
        (now : ℕ) (q : Question) (res : SingleQueryResult) (ns : Option NameServer) (layer : Text)
        (cna : Bool)
        → safe_add_cached_answer ip_string hash now s q res ns layer cna ≡ some s'
        → Step s s'
    authority :
        (now : ℕ) (res res' : SingleQueryResult) (ns : Option NameServer) (layer : Text)
        → safe_add_cached_authority ip_string hash now s res ns layer ≡ some (s', res')
        → Step s s'
    read_results :
        (now : ℕ) (q : Question) (ns : Option NameServer) (res : Option SingleQueryResult)
        (found : Bool)
        → get_cached_results ip_string hash now s q ns ≡ some (s', res, found)
        → Step s s'
    read_authority :
        (now : ℕ) (name : Text) (ns : Option NameServer) (res : Option SingleQueryResult)
        (found : Bool)
        → get_cached_authority ip_string hash now s name ns ≡ some (s', res, found)
        → Step s s'

  pub data Reach (size : ℕ) : Cache → Type 0 where
    start : (s : Cache) → init size ≡ some s → Reach size s
    next : (s s' : Cache) → Reach size s → Step s s' → Reach size s'

  pub record IsSound (s : Cache) : Type 0 where
    pub valid : IsValid hash s
    pub entries : (j : CachedKey) (w : CachedResult) → holds hash s j ≡ some w → IsEntry j w

  read-IsSound :
      (now : ℕ) (s s' : Cache) (q : Question) (ns : Option NameServer) (auth : Bool) (r : CacheRead)
      → IsSound s
      → get_cached_result ip_string hash now s q ns auth ≡ some (s', r)
      → IsSound s'
  read-IsSound now s s' q ns auth r h e =
      let key = key_of q (show_name_server ip_string ns) auth in
      let (s1, got, v, others, _, before) =
        get_cached_result_lem ip_string hash now s q ns auth h.valid in
      let same : s1 ≡ s' = cc in
      subst IsSound same (record {
        valid = v;
        entries = λ j w held. elim (CachedKey-discrete j key) [
          | yes p ↦
              h.entries j w (ap (holds hash s) p ∙ before w (ap (holds hash s1) (sym p) ∙ held))
          | no p ↦ h.entries j w (sym (others j p) ∙ held)
        ];
      })

  answer-IsSound :
      (now : ℕ) (s s' : Cache) (q : Question) (res : SingleQueryResult) (ns : Option NameServer)
      (layer : Text) (cna : Bool)
      → IsSound s
      → is_bogus res.dnssec_result ≡ false
      → safe_add_cached_answer ip_string hash now s q res ns layer cna ≡ some s'
      → IsSound s'
  answer-IsSound now s s' q res ns layer cna h b e =
      let (s1, got, v, old) =
        safe_add_cached_answer_sound ip_string hash now s q res ns layer cna h.valid b in
      let same : s1 ≡ s' = cc in
      subst IsSound same (record {
        valid = v;
        entries = λ j w held. elim (old j w held) [
          | inl g ↦ h.entries j w g
          | inr (p, r, _) ↦
              IsEntry-cong j (key_of q (show_name_server ip_string ns) false) w
                (build_cached_result now res) p r (build-IsEntry now res _ b (λ f. absurd cc))
        ];
      })

  authority-IsSound :
      (now : ℕ) (s s' : Cache) (res res' : SingleQueryResult) (ns : Option NameServer)
      (layer : Text)
      → IsSound s
      → is_bogus res.dnssec_result ≡ false
      → safe_add_cached_authority ip_string hash now s res ns layer ≡ some (s', res')
      → IsSound s'
  authority-IsSound now s s' res res' ns layer h b e =
      let (s1, got, v, old) =
        safe_add_cached_authority_sound ip_string hash now s res ns layer h.valid b in
      let same : s1 ≡ s' = cc in
      subst IsSound same (record {
        valid = v;
        entries = λ j w held. elim (old j w held) [
          | inl g ↦ h.entries j w g
          | inr (n, _, _, r) ↦
              IsOfReferral-IsEntry now res n (show_name_server ip_string ns) j w b r
        ];
      })

  Step-IsSound : (s s' : Cache) → IsSound s → Step s s' → IsSound s'
  unfolding get_cached_results get_cached_authority
  Step-IsSound s s' h (answer now q res ns layer cna e) =
      elim (Bool-cases (is_bogus res.dnssec_result)) [
        | inl b ↦
            absurd (
              ground
                (arith, safe_add_cached_answer_bogus ip_string hash now s q res ns layer cna b))
        | inr b ↦ answer-IsSound now s s' q res ns layer cna h b e
      ]
  Step-IsSound s s' h (authority now res res' ns layer e) =
      elim (Bool-cases (is_bogus res.dnssec_result)) [
        | inl b ↦
            absurd
              (ground (arith, safe_add_cached_authority_bogus ip_string hash now s res ns layer b))
        | inr b ↦ authority-IsSound now s s' res res' ns layer h b e
      ]
  Step-IsSound s s' h (read_results now q ns res found e) =
      elim (Option-cases (get_cached_result ip_string hash now s q ns false)) [
        | inl f ↦ absurd (ground arith)
        | inr ((s1, r), f) ↦
            let same : s1 ≡ s' = ground arith in
            read-IsSound now s s' q ns false r h (f ∙ ap (λ x. some (x, r)) same)
      ]
  Step-IsSound s s' h (read_authority now name ns res found e) =
      let q : Question = record { type = type_ns; class = class_inet; name = name } in
      elim (Option-cases (get_cached_result ip_string hash now s q ns true)) [
        | inl f ↦ absurd (ground arith)
        | inr ((s1, r), f) ↦
            let same : s1 ≡ s' = ground arith in
            read-IsSound now s s' q ns true r h (f ∙ ap (λ x. some (x, r)) same)
      ]

  -- In every state that calls reach from a new cache of any size, the cache is valid and each of its
  -- entries has only records of the types that may be stored, is not bogus and, if it is that of an
  -- authority, has no answers and the type NS.
  pub Reach-IsSound : (size : ℕ) (s : Cache) → Reach size s → IsSound s
  Reach-IsSound size s (start _ e) =
      let (s1, made, v, empty) = init-IsValid hash size in
      let same : s1 ≡ s = cc in
      subst IsSound same
        (record { valid = v; entries = λ j w held. absurd (let f = empty j in cc) })
  Reach-IsSound size s' (next s _ r step) = Step-IsSound s s' (Reach-IsSound size s r) step
