-- ===== src/AllNameServers/Found.antt =====
-- The name servers that `extractNameServersFromLayerResults` of src/zdns/lookup.go returns.
use zdns.Prelude.{
  ℕ, ◌≡◌, inl, inr, refl, ◌∙◌, true, ◌&&◌, ◌||◌, Option, List, [], ◌∷◌, map, arith, any,
  if◌then◌else◌, Bool-cases, Text, text_eq, trim_suffix,
}
use zdns.Names.{dot}
use zdns.Records.{Answer, type_a, type_aaaa}
use zdns.Records.NameServers.{NameServer, IpVersionMode}
use zdns.Lookup.Servers.Groups.{Reorders, is_named}
use zdns.AllNameServers.{ExtendedResult}
use zdns.AllNameServers.Extract.{
  UniqueRecords, no_records, unique_records, KeyedServers, add_uniques, add_answers, uses_ipv4,
  uses_ipv6, Orders, servers_with, extract_name_servers_from_layer_results,
}
use zdns.AllNameServers.Named.{
  names, layer_names, any-Reorders, unique_records-names, put_servers-named, set_ips-named,
  answers-names,
}
use zdns.AllNameServers.Keyed.{
  Apart, AreKeyed, AreApart, holds, add_uniques_sound, add_uniques_complete, add_answers_sound,
  add_answers_complete, All-Apart,
}

-- a range over each of the maps visits each entry once
pub record AreReorders (orders : Orders) : Type 0 where
  pub authorities : (m : List Answer) → Reorders m (orders.authorities m)
  pub answers : (m : List Answer) → Reorders m (orders.answers m)
  pub ipv4 : (m : List NameServer) → Reorders m (orders.ipv4 m)
  pub ipv6 : (m : List NameServer) → Reorders m (orders.ipv6 m)
  pub uniques : (m : KeyedServers) → Reorders m (orders.uniques m)

any-map : (k : Text) (m : KeyedServers) → any (is_named k) (map (λ e. e.1) m) ≡ holds k m
any-map k [] = refl
any-map k (e ∷ m) = ground (arith, any-map k m)

module _ (ip_string : List ℕ → Text) (parse_ip : Text → Option (List ℕ)) (mode : IpVersionMode)
    (orders : Orders) (reordered : AreReorders orders) where
  servers_with-named :
      (k : Text) (type : ℕ) (u : UniqueRecords)
      → any (is_named k) (servers_with ip_string parse_ip mode orders type u)
        ≡ any (names k) u.authorities
  servers_with-named k type u =
      set_ips-named k parse_ip type _ (orders.additionals u.additionals)
      ∙ put_servers-named k [] (orders.authorities u.authorities)
      ∙ any-Reorders (names k) u.authorities _ (reordered.authorities u.authorities)

  module _ (results : List ExtendedResult) where
    u : UniqueRecords
    u = unique_records no_records results

    v4 : List NameServer
    unfolding u
    v4 = orders.ipv4 (servers_with ip_string parse_ip mode orders type_a u)

    v6 : List NameServer
    unfolding u
    v6 = orders.ipv6 (servers_with ip_string parse_ip mode orders type_aaaa u)

    v4-named : (k : Text) → any (is_named k) v4 ≡ any (names k) u.authorities
    unfolding v4 u
    v4-named k = any-Reorders (is_named k) _ v4 (reordered.ipv4 _) ∙ servers_with-named k type_a u

    v6-named : (k : Text) → any (is_named k) v6 ≡ any (names k) u.authorities
    unfolding v6 u
    v6-named k =
        any-Reorders (is_named k) _ v6 (reordered.ipv6 _) ∙ servers_with-named k type_aaaa u

    all_names :
        (k : Text)
        → (any (names k) u.authorities || any (names k) u.answers) ≡ layer_names k results
    unfolding u
    all_names k = unique_records-names k no_records results

    found_answers : List Answer
    unfolding u
    found_answers = orders.answers u.answers

    answers-named :
        (k : Text)
        → any (λ a. text_eq (trim_suffix a.answer dot) k) found_answers ≡ any (names k) u.answers
    unfolding found_answers u
    answers-named k = answers-names k no_records results orders.answers refl (reordered.answers _)

    with_v4 : KeyedServers
    with_v4 = if uses_ipv4 mode then add_uniques ip_string [] v4 else []

    with_v6 : KeyedServers
    unfolding with_v4
    with_v6 = if uses_ipv6 mode then add_uniques ip_string with_v4 v6 else with_v4

    module _ (k : Text) where
      extracted :
          any
            (is_named k)
            (extract_name_servers_from_layer_results ip_string parse_ip mode orders results)
          ≡ holds k (add_answers with_v6 found_answers)
      unfolding extract_name_servers_from_layer_results with_v4 with_v6 v4 v6 found_answers u
      extracted =
          any-map k (orders.uniques (add_answers with_v6 found_answers))
          ∙ any-Reorders (λ e. is_named k e.1) _ _ (reordered.uniques _)

      with_v4_sound : holds k with_v4 ≡ true → any (names k) u.authorities ≡ true
      unfolding with_v4
      with_v4_sound h = elim (Bool-cases (uses_ipv4 mode)) [
        | inl b ↦ ground (arith, h, b, add_uniques_sound k ip_string [] v4, v4-named k)
        | inr b ↦ absurd (ground (arith, h, b))
      ]

      with_v6_sound : holds k with_v6 ≡ true → any (names k) u.authorities ≡ true
      unfolding with_v6
      with_v6_sound h = elim (Bool-cases (uses_ipv6 mode)) [
        | inl b ↦
            ground
              (arith, h, b, add_uniques_sound k ip_string with_v4 v6, v6-named k, with_v4_sound)
        | inr b ↦ with_v4_sound (ground (arith, h, b))
      ]

      module _ (apart : (d : Text) → layer_names d results ≡ true → Apart k d) where
        servers-AreApart :
            (servers : List NameServer)
            → ((d : Text) → any (is_named d) servers ≡ any (names d) u.authorities)
            → AreApart k servers
        servers-AreApart servers same =
            All-Apart (λ ns. ns.domain_name) k servers
              (λ d e. apart d (ground (arith, e, same d, all_names d)))

        with_v4_complete :
            AreKeyed k with_v4 × (holds k with_v4 ≡ (uses_ipv4 mode && any (names k) u.authorities))
        unfolding with_v4
        with_v4_complete = elim (Bool-cases (uses_ipv4 mode)) [
          | inl b ↦
              let (keyed, e) =
                add_uniques_complete k ip_string [] v4 tt (servers-AreApart v4 v4-named) in
              rw b (keyed, ground (arith, e, v4-named k))
          | inr b ↦ rw b (tt, refl)
        ]

        with_v6_complete : AreKeyed k with_v6 × (holds k with_v6 ≡ any (names k) u.authorities)
        unfolding with_v6 uses_ipv4 uses_ipv6
        with_v6_complete = elim (Bool-cases (uses_ipv6 mode)) [
          | inl b ↦
              let (keyed4, e4) = with_v4_complete in
              let (keyed, e) =
                add_uniques_complete k ip_string with_v4 v6 keyed4 (servers-AreApart v6 v6-named) in
              rw b (keyed, ground (arith, e, e4, v6-named k))
          | inr b ↦ let (keyed4, e4) = with_v4_complete in rw b (keyed4, ground (arith, e4, b))
        ]

      -- If the ranges over the maps visit each entry once, each name server that is extracted from the
      -- results of a layer is named by an NS record among the authorities or answers of a successful one.
      pub extract_name_servers_from_layer_results_sound :
          any
              (is_named k)
              (extract_name_servers_from_layer_results ip_string parse_ip mode orders results)
            ≡ true
          → layer_names k results ≡ true
      extract_name_servers_from_layer_results_sound h = ground (
        arith,
        h,
        extracted,
        add_answers_sound k with_v6 found_answers,
        answers-named k,
        with_v6_sound,
        all_names k,
      )

      -- If the ranges over the maps visit each entry once, each name that an NS record among the
      -- authorities or answers of a successful result names is that of a name server which is extracted,
      -- in every mode, if it is apart from each other name of such a record: neither starts with the other.
      pub extract_name_servers_from_layer_results_complete :
          ((d : Text) → layer_names d results ≡ true → Apart k d)
          → layer_names k results ≡ true
          → any
              (is_named k)
              (extract_name_servers_from_layer_results ip_string parse_ip mode orders results)
            ≡ true
      extract_name_servers_from_layer_results_complete apart h =
          let (keyed, e) = with_v6_complete apart in
          let (_, f) = add_answers_complete k with_v6 found_answers keyed (
            All-Apart (λ a. trim_suffix a.answer dot) k found_answers
              (λ d g. apart d (ground (arith, g, answers-named d, all_names d)))) in
          ground (arith, h, extracted, e, f, answers-named k, all_names k)
