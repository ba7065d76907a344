-- ===== src/Cache/Referral.antt =====
-- `SafeAddCachedAuthority`: which referrals are cached, under which name, and with what.
use zdns.Prelude.{
  ℕ, ◌<◌, ◌≡◌, ◌≢◌, ◌⊎◌, refl, true, false, Option, none, some, List, [], ◌∷◌, arith, All, length,
  inl, inr, Option-cases, Bool-cases, Text, to_lower,
}
use zdns.Names.{dot, name_is_beneath}
use zdns.Names.Beneath.{IsBeneath, canonical, name_is_beneath_iff}
use zdns.Records.{AnyAnswer, SingleQueryResult, type_ns, class_inet, type_ds, DnssecStatus}
use zdns.Records.NameServers.{NameServer, show_name_server}
use zdns.Cache.Build.{
  CachedKey, make_dnssec_result, CachedResult, is_bogus, build_cached_result, nothing_cached,
  authority_name, delegation_records, other_records,
}
use zdns.Cache.{Cache, cache_delegation, cache_authority, safe_add_cached_authority}
use zdns.Cache.Valid.{key_of, IsValid, holds, add_cached_answer-holds}
use zdns.Cache.Authorities.{
  plain_names, AreNamed, authority_name-AreNamed, authority_name-plain_names,
}

abbrev pub IsNameInLayer : Text → Text → Type 0
IsNameInLayer layer n = (to_lower layer ≡ dot) ⊎ IsBeneath (canonical n) (to_lower layer)

-- the key and the entry of the records of a delegation, stored as a secure answer
abbrev pub ds_key : Text → Text → CachedKey
ds_key n shown = key_of (record { type = type_ds; class = class_inet; name = n }) shown false

abbrev pub ds_entry : ℕ → SingleQueryResult → List AnyAnswer → CachedResult
ds_entry t given records = build_cached_result t (record given {
  answers = [];
  additionals = [];
  authorities = records;
  flags = record given.flags { authoritative = true };
  dnssec_result = some (record make_dnssec_result { status = DnssecStatus.secure });
})

-- the key and the entry of the authority
abbrev pub ns_key : Text → Text → CachedKey
ns_key n shown = key_of (record { type = type_ns; class = class_inet; name = n }) shown true

abbrev pub ns_entry : ℕ → SingleQueryResult → CachedResult
ns_entry t given =
    build_cached_result t
      (record given { answers = []; authorities = other_records given.authorities })

-- the two entries that a referral to `n` may leave in the cache
abbrev pub IsOfReferral : ℕ → SingleQueryResult → Text → Text → CachedKey → CachedResult → Type 0
IsOfReferral t given n shown j w =
    ((j ≡ ds_key n shown) × (w ≡ ds_entry t given (delegation_records given.authorities)))
    ⊎ ((j ≡ ns_key n shown) × (w ≡ ns_entry t given))

module _ (hash : CachedKey → ℕ) (t : ℕ) (given : SingleQueryResult) (n shown : Text) where
  abbrev bare : SingleQueryResult
  bare = record given { answers = [] }

  delegation_lem :
      (s : Cache) (records : List AnyAnswer)
      → IsValid hash s
      → (s' : Cache) × (cache_delegation hash t s bare records n shown ≡ some s')
        × IsValid hash s'
        × ((j : CachedKey) (w : CachedResult)
            → holds hash s' j ≡ some w
            → (holds hash s j ≡ some w) ⊎ ((j ≡ ds_key n shown) × (w ≡ ds_entry t given records)))
  unfolding cache_delegation
  delegation_lem s [] v = (s, refl, v, λ j w h. inl h)
  delegation_lem s (x ∷ xs) v =
      let (s', added, v', _, old) =
        add_cached_answer-holds hash s (ds_key n shown).question shown false v
          (ds_entry t given (x ∷ xs)) in
      (s', added, v', old)

  authority_lem :
      (s : Cache)
      → IsValid hash s
      → (s' : Cache) × (cache_authority hash t s bare n shown ≡ some s')
        × IsValid hash s'
        × (nothing_cached (ns_entry t given) ≡ false
            → holds hash s' (ns_key n shown) ≡ some (ns_entry t given))
        × ((j : CachedKey) (w : CachedResult)
            → holds hash s' j ≡ some w
            → (holds hash s j ≡ some w) ⊎ ((j ≡ ns_key n shown) × (w ≡ ns_entry t given)))
  unfolding cache_authority
  authority_lem s v = elim (Bool-cases (nothing_cached (ns_entry t given))) [
    | inl e ↦ (s, ground arith, v, λ f. absurd cc, λ j w h. inl h)
    | inr e ↦
        let (s', added, v', here, old) =
          add_cached_answer-holds hash s (ns_key n shown).question shown true v
            (ns_entry t given) in
        (s', ground (arith, added), v', λ f. here, old)
  ]

  both_lem :
      (s : Cache)
      → IsValid hash s
      → (s' s'' : Cache) × (cache_delegation hash t s bare
            (delegation_records given.authorities)
            n
            shown
          ≡ some s')
        × (cache_authority hash t s' bare n shown ≡ some s'')
        × IsValid hash s''
        × (nothing_cached (ns_entry t given) ≡ false
            → holds hash s'' (ns_key n shown) ≡ some (ns_entry t given))
        × ((j : CachedKey) (w : CachedResult)
            → holds hash s'' j ≡ some w
            → (holds hash s j ≡ some w) ⊎ IsOfReferral t given n shown j w)
  both_lem s v =
      let (s', d, v', old) = delegation_lem s (delegation_records given.authorities) v in
      let (s'', a, v'', here, old') = authority_lem s' v' in
      (
        s',
        s'',
        d,
        a,
        v'',
        here,
        λ j w h. elim (old' j w h) [
          | inr e ↦ inr (inr e)
          | inl h' ↦ elim (old j w h') [ inl g ↦ inl g | inr e ↦ inr (inl e) ]
        ],
      )

module _ (ip_string : List ℕ → Text) (hash : CachedKey → ℕ) (t : ℕ) (s : Cache)
    (given : SingleQueryResult) (ns : Option NameServer) (layer : Text) where
  -- A bogus referral panics.
  pub safe_add_cached_authority_bogus :
      is_bogus given.dnssec_result ≡ true
      → safe_add_cached_authority ip_string hash t s given ns layer ≡ none
  unfolding safe_add_cached_authority
  safe_add_cached_authority_bogus b = ground arith

  -- A referral whose authorities have no common name in the layer changes nothing in the cache; the
  -- result that was given loses its answers all the same.
  pub safe_add_cached_authority_refused :
      is_bogus given.dnssec_result ≡ false
      → ((n : Text) → AreNamed n given.authorities → ¬ IsNameInLayer layer n)
      → safe_add_cached_authority ip_string hash t s given ns layer
        ≡ some (s, record given { answers = [] })
  unfolding safe_add_cached_authority
  safe_add_cached_authority_refused b out =
      elim (Option-cases (authority_name [] given.authorities)) [
        | inl e ↦ ground arith
        | inr (n, e) ↦
            let (_, named) = authority_name-AreNamed [] given.authorities n e in
            elim (Bool-cases (name_is_beneath n layer).0) [
              | inl q ↦ absurd (out n named ((name_is_beneath_iff n layer).0.0 q))
              | inr q ↦ ground arith
            ]
      ]

  -- A referral that is not bogus never panics and returns the result without its answers. The cache
  -- stays valid, and each of its entries was there before or is one of the two of a referral to a
  -- name in the layer that all the plain authorities have.
  pub safe_add_cached_authority_sound :
      IsValid hash s
      → is_bogus given.dnssec_result ≡ false
      → (s' : Cache) × (safe_add_cached_authority ip_string hash t s given ns layer
          ≡ some (s', record given { answers = [] }))
        × IsValid hash s'
        × ((j : CachedKey) (w : CachedResult)
            → holds hash s' j ≡ some w
            → (holds hash s j ≡ some w)
              ⊎ ((n : Text) × AreNamed n given.authorities
                  × IsNameInLayer layer n
                  × IsOfReferral t given n (show_name_server ip_string ns) j w))
  unfolding safe_add_cached_authority
  safe_add_cached_authority_sound v b = elim (Option-cases (authority_name [] given.authorities)) [
    | inl e ↦ (s, ground arith, v, λ j w h. inl h)
    | inr (n, e) ↦
        let (_, named) = authority_name-AreNamed [] given.authorities n e in
        elim (Bool-cases (name_is_beneath n layer).0) [
          | inr q ↦ (s, ground arith, v, λ j w h. inl h)
          | inl q ↦
              let (s', s'', d, a, v', _, old) =
                both_lem hash t given n (show_name_server ip_string ns) s v in
              (
                s'',
                ground (arith, d, a),
                v',
                λ j w h. elim (old j w h) [
                  | inl g ↦ inl g
                  | inr r ↦ inr (n, named, (name_is_beneath_iff n layer).0.0 q, r)
                ],
              )
        ]
  ]

  -- If all the plain authorities have one name, which lies in the layer, and something of the
  -- referral can be stored, then it is held under that name as the authority.
  pub safe_add_cached_authority-holds :
      (n : Text)
      → IsValid hash s
      → is_bogus given.dnssec_result ≡ false
      → n ≢ []
      → 0 < length (plain_names given.authorities)
      → All (λ m. m ≡ n) (plain_names given.authorities)
      → IsNameInLayer layer n
      → nothing_cached (ns_entry t given) ≡ false
      → (s' : Cache) × (safe_add_cached_authority ip_string hash t s given ns layer
          ≡ some (s', record given { answers = [] }))
        × IsValid hash s'
        × (holds hash s' (ns_key n (show_name_server ip_string ns)) ≡ some (ns_entry t given))
  unfolding safe_add_cached_authority
  safe_add_cached_authority-holds n v b ne pos same inside full =
      let (s', s'', d, a, v', here, _) =
        both_lem hash t given n (show_name_server ip_string ns) s v in
      (
        s'',
        ground (
          arith,
          authority_name-plain_names n given.authorities ne pos same,
          (name_is_beneath_iff n layer).0.1 inside,
          d,
          a,
        ),
        v',
        here full,
      )
