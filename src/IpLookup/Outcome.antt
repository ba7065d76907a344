-- ===== src/IpLookup/Outcome.antt =====
-- What `DoTargetedLookup` of src/zdns/alookup.go returns.
use zdns.Prelude.{
  ◌≡◌, ◌⊎◌, inl, inr, refl, sym, ◌∙◌, Bool, true, false, not, ◌&&◌, ◌||◌, none, some, List, [], ◌∷◌,
  ◌++◌, arith, any, Bool-cases, Option-cases, Text, codes, text_eq,
}
use zdns.Records.{Question, AnyAnswer, as_answer, Status, safe_status, type_a, type_aaaa}
use zdns.Records.NameServers.{NameServer}
use zdns.Lookup.Glue.{is_seen, addresses_of, get_ip_addresses_from_query_result}
use zdns.Lookup.Glue.Uniques.{AreDistinct, unique_lem}
use zdns.Cache.Build.{is_nil}
use zdns.Resolver.{Config, Resolver, Reply, Network}
use zdns.Resolver.External.{Lookups, resolver_iterative_lookup}
use zdns.AllNameServers.Reliable.{Returns, HasResult, IsReliable, external_lookup-Returns}
use zdns.IpLookup.{
  IpResult, IpReply, not_looked_up, addresses, combine, look_up, address_question, look_up_if,
  do_targeted_lookup,
}

-- A plain record of the type in the section has the address.
abbrev pub section_has : Text → Text → List AnyAnswer → Bool
section_has type v =
    any (λ x. elim (as_answer x) [
      | none ↦ false
      | some a ↦ text_eq a.type type && text_eq a.answer v
    ])

abbrev pub has_address : Text → Text → Reply → Bool
has_address type v reply = elim reply.result [
  | none ↦ false
  | some res ↦ section_has type v res.answers || section_has type v res.additionals
]

addresses_of-section :
    (type v : Text) (xs : List AnyAnswer) → is_seen (addresses_of type xs) v ≡ section_has type v xs
unfolding addresses_of is_seen
addresses_of-section type v [] = refl
addresses_of-section type v (x ∷ xs) = elim (Option-cases (as_answer x)) [
  | inl e ↦ rw (addresses_of, e) (addresses_of-section type v xs)
  | inr (a, e) ↦ elim (Bool-cases (text_eq a.type type)) [
    | inl b ↦ rw (addresses_of, e, b, addresses_of-section type v xs) refl
    | inr b ↦ rw (addresses_of, e, b) (addresses_of-section type v xs)
  ]
]

is_seen-append :
    (v : Text) (xs ys : List Text) → is_seen (xs ++ ys) v ≡ (is_seen xs v || is_seen ys v)
unfolding is_seen
is_seen-append v [] ys = refl
is_seen-append v (x ∷ xs) ys = ground (arith, is_seen-append v xs ys)

addresses_lem :
    (reply : Reply) (type : Text)
    → AreDistinct (addresses reply type)
      × ((v : Text) → is_seen (addresses reply type) v ≡ has_address type v reply)
unfolding addresses get_ip_addresses_from_query_result is_seen
addresses_lem reply type = elim (Option-cases reply.result) [
  | inl e ↦ rw (addresses, e) (tt, λ v. refl)
  | inr (res, e) ↦
      let ips = addresses_of type res.answers ++ addresses_of type res.additionals in
      let (distinct, same) = unique_lem ips in
      rw (addresses, e)
        (
          distinct,
          λ v.
              same v
              ∙ is_seen-append v (addresses_of type res.answers) (addresses_of type res.additionals)
              ∙ (rw
                  (
                    addresses_of-section type v res.answers,
                    addresses_of-section type v res.additionals,
                  )
                  refl),
        )
]

is_nil-seen : (a : List Text) (v : Text) → is_nil a ≡ true → is_seen a v ≡ false
unfolding is_seen
is_nil-seen [] v h = refl
is_nil-seen (x ∷ a) v h = cc

-- the addresses of the records of the replies, each once
pub record IsFound (reply4 reply6 : Reply) (res : IpResult) : Type 0 where
  distinct4 : AreDistinct res.ipv4_addresses
  distinct6 : AreDistinct res.ipv6_addresses
  ipv4 : (v : Text) → is_seen res.ipv4_addresses v ≡ has_address (codes "A") v reply4
  ipv6 : (v : Text) → is_seen res.ipv6_addresses v ≡ has_address (codes "AAAA") v reply6

-- a result with the addresses, or no result for want of addresses, with the status of a lookup that was
-- made and failed
abbrev pub IsCombined : Bool → Bool → Reply → Reply → IpReply → Type 0
IsCombined lookup_a lookup_aaaa reply4 reply6 got =
    ((res : IpResult) × (got.result ≡ some res)
      × (got.status ≡ Status.no_error)
      × (got.error ≡ none)
      × IsFound reply4 reply6 res)
    ⊎ ((got.result ≡ none)
        × ((v : Text) → has_address (codes "A") v reply4 ≡ false)
        × ((v : Text) → has_address (codes "AAAA") v reply6 ≡ false)
        × (safe_status got.status ≡ false)
        × (((lookup_a ≡ true) × (got.status ≡ reply4.status))
            ⊎ ((lookup_aaaa ≡ true) × (got.status ≡ reply6.status))))

combine-IsCombined :
    (lookup_a lookup_aaaa : Bool) (reply4 reply6 : Reply)
    → IsCombined lookup_a lookup_aaaa reply4 reply6 (combine lookup_a lookup_aaaa reply4 reply6)
unfolding combine
combine-IsCombined lookup_a lookup_aaaa reply4 reply6 =
    let ipv4 = addresses reply4 (codes "A") in
    let ipv6 = addresses reply6 (codes "AAAA") in
    let (distinct4, same4) = addresses_lem reply4 (codes "A") in
    let (distinct6, same6) = addresses_lem reply6 (codes "AAAA") in
    let found : IsFound reply4 reply6 (record { ipv4_addresses = ipv4; ipv6_addresses = ipv6 }) =
      record { distinct4 = distinct4; distinct6 = distinct6; ipv4 = same4; ipv6 = same6 } in
    elim (Bool-cases (is_nil ipv4 && is_nil ipv6)) [
      | inr b ↦ rw (combine, b) (inl (_, refl, refl, refl, found))
      | inl b ↦
          let none4 : (v : Text) → has_address (codes "A") v reply4 ≡ false =
            λ v. sym (same4 v) ∙ is_nil-seen ipv4 v (ground (arith, b)) in
          let none6 : (v : Text) → has_address (codes "AAAA") v reply6 ≡ false =
            λ v. sym (same6 v) ∙ is_nil-seen ipv6 v (ground (arith, b)) in
          elim (Bool-cases (lookup_a && not (safe_status reply4.status))) [
            | inl c ↦
                rw (combine, b, c)
                  (inr (refl, none4, none6, ground (arith, c), inl (ground (arith, c), refl)))
            | inr c ↦ elim (Bool-cases (lookup_aaaa && not (safe_status reply6.status))) [
              | inl d ↦
                  rw (combine, b, c, d)
                    (inr (refl, none4, none6, ground (arith, d), inr (ground (arith, d), refl)))
              | inr d ↦ rw (combine, b, c, d) (inl (_, refl, refl, refl, found))
            ]
          ]
    ]

module _ {W C M : Type 0} (net : Network W C M) (cfg : Config) (lookups : Lookups W C)
    {Usable : Resolver W → Type 0} {Asks : Question → Type 0}
    (reliable : IsReliable cfg Usable Asks lookups) (ns : NameServer) where
  pub look_up-Returns :
      (r : Resolver W) (q : Question) (is_iterative : Bool)
      → Usable r
      → Asks q
      → Returns Usable HasResult (look_up net cfg lookups r q (some ns) is_iterative)
  unfolding look_up resolver_iterative_lookup
  look_up-Returns r q is_iterative usable asks =
      let opened : r.is_closed ≡ false = reliable.opened r usable in
      elim (Bool-cases is_iterative) [
        | inr b ↦
            rw (look_up, b)
              (external_lookup-Returns net cfg lookups reliable r net.background q ns usable asks)
        | inl b ↦
            let (r', reply, e, usable', has) =
              reliable.asked r net.background q cfg.root_name_servers true usable asks in
            (r', reply, ground (arith, b, opened, e), usable', has)
      ]

  -- the reply of a lookup of the question, or none was wanted
  abbrev pub IsLookedUp : Bool → Bool → Question → Reply → Type 0
  IsLookedUp wanted is_iterative q reply =
      ((wanted ≡ false) × (reply ≡ not_looked_up))
      ⊎ ((wanted ≡ true)
          × (before : Resolver W) × (after : Resolver W) × (look_up net cfg lookups before q
                (some ns) is_iterative
              ≡ some (after, reply)))

  look_up_if-Returns :
      (wanted is_iterative : Bool) (r : Resolver W) (q : Question)
      → Usable r
      → Asks q
      → Returns Usable
          (IsLookedUp wanted is_iterative q)
          (look_up_if net cfg lookups wanted r q (some ns) is_iterative)
  unfolding look_up_if
  look_up_if-Returns wanted is_iterative r q usable asks = elim (Bool-cases wanted) [
    | inr b ↦ (r, not_looked_up, ground (arith, b), usable, inl (b, refl))
    | inl b ↦
        let (r', reply, e, usable', _) = look_up-Returns r q is_iterative usable asks in
        (r', reply, ground (arith, b, e), usable', inr (b, r, r', e))
  ]

  pub do_targeted_lookup-IsCombined :
      (r : Resolver W) (name : Text) (is_iterative lookup_a lookup_aaaa : Bool)
      → Usable r
      → (r' : Resolver W) × (got : IpReply) × (reply4 : Reply) × (reply6 : Reply)
        × (do_targeted_lookup net cfg lookups r name (some ns) is_iterative lookup_a lookup_aaaa
            ≡ some (r', got))
        × Usable r'
        × IsLookedUp lookup_a is_iterative (address_question net cfg lookups type_a name) reply4
        × IsLookedUp lookup_aaaa is_iterative
            (address_question net cfg lookups type_aaaa name)
            reply6
        × IsCombined lookup_a lookup_aaaa reply4 reply6 got
  unfolding do_targeted_lookup
  do_targeted_lookup-IsCombined r name is_iterative lookup_a lookup_aaaa usable =
      let (r4, reply4, e, usable4, up4) =
        look_up_if-Returns lookup_a is_iterative r (address_question net cfg lookups type_a name)
          usable (reliable.askable (address_question net cfg lookups type_a name) refl) in
      let (r6, reply6, f, usable6, up6) =
        look_up_if-Returns lookup_aaaa is_iterative r4
          (address_question net cfg lookups type_aaaa name) usable4
          (reliable.askable (address_question net cfg lookups type_aaaa name) refl) in
      (
        r6,
        combine lookup_a lookup_aaaa reply4 reply6,
        reply4,
        reply6,
        rw (e, f) refl,
        usable6,
        up4,
        up6,
        combine-IsCombined lookup_a lookup_aaaa reply4 reply6,
      )
