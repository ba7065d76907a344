-- ===== src/Lookup/Servers/OnePerName.antt =====
-- The result of `filterNameServersForUniqueNames` of src/zdns/lookup.go.
use zdns.Prelude.{
  ◌≡◌, refl, sym, ap, ◌∙◌, inl, inr, Bool, true, false, not, ◌||◌, Option, some, List, [], ◌∷◌,
  arith, any, Bool-cases, if◌then◌else◌, Text, text_eq,
}
use zdns.Records.NameServers.{NameServer, IpVersionMode, IterationIpPreference}
use zdns.Lookup.Servers.{
  ServerMap, group_servers, choose_servers, filter_name_servers_for_unique_names,
}
use zdns.Lookup.Servers.Groups.{
  count, Reorders, is_named, has_key, same_key, group_servers-count, is_faulty,
  group_servers-faulty,
}
use zdns.Lookup.Servers.Choice.{choose_server-lacks}

any-or :
    (p q : NameServer → Bool) (l : List NameServer)
    → any p l ≡ false
    → any q l ≡ false
    → any (λ ns. p ns || q ns) l ≡ false
any-or p q [] hp hq = refl
any-or p q (ns ∷ l) hp hq = ground (arith, any-or p q l (ground arith) (ground arith))

-- what is kept of a map whose entries are not faulty
record IsChosen (p : NameServer → Bool) (m : ServerMap) (got : Option (List NameServer))
    : Type 0 where
  result : List NameServer
  done : got ≡ some result
  named : (k : Text) → count (is_named k) result ≡ count (has_key k) m
  lacking : any p result ≡ false

choose_servers-IsChosen :
    (p : NameServer → Bool) (mode : IpVersionMode) (pref : IterationIpPreference) (m : ServerMap)
    → count (is_faulty p) m ≡ 0
    → IsChosen p m (choose_servers mode pref m)
unfolding choose_servers
choose_servers-IsChosen p mode pref [] z = record {
  result = [];
  done = refl;
  named = λ k. refl;
  lacking = refl;
}
choose_servers-IsChosen p mode pref ((key, []) ∷ m) z = absurd (omega (arith, z))
choose_servers-IsChosen p mode pref ((key, ns ∷ l) ∷ m) z =
    let other = λ (x : NameServer). not (is_named key x) in
    let (got, e, h) =
      choose_server-lacks (λ x. other x || p x) mode pref ns l
        (any-or other p (ns ∷ l) (ground arith) (ground arith)) in
    let rest = choose_servers-IsChosen p mode pref m (omega (arith, z)) in
    let same : text_eq got.domain_name key ≡ true = ground arith in
    record {
      result = got ∷ rest.result;
      done = rw (e, rest.done) refl;
      named = λ k. ground (arith, same_key got.domain_name key k same, rest.named k);
      lacking = ground (arith, rest.lacking);
    }

module _ (mode : IpVersionMode) (pref : IterationIpPreference) (order : ServerMap → ServerMap)
    (servers : List NameServer)
    (reordered : Reorders (group_servers [] servers) (order (group_servers [] servers))) where
  filter-IsChosen :
      (p : NameServer → Bool)
      → any p servers ≡ false
      → IsChosen p
          (order (group_servers [] servers))
          (filter_name_servers_for_unique_names mode pref order servers)
  unfolding filter_name_servers_for_unique_names
  filter-IsChosen p h =
      choose_servers-IsChosen p mode pref (order (group_servers [] servers))
        (reordered (is_faulty p) ∙ group_servers-faulty p [] servers refl h)

  any_nothing : (l : List NameServer) → any (λ ns. false) l ≡ false
  any_nothing [] = refl
  any_nothing (ns ∷ l) = any_nothing l

  -- If the range over the map visits each entry once, the filter returns: for each domain name it
  -- keeps exactly one server if the list has one of that name and none otherwise, and what the
  -- servers that it keeps have of a property, some server of the list has.
  pub filter_name_servers_for_unique_names_lem :
      (result : List NameServer) × (filter_name_servers_for_unique_names mode pref order servers
        ≡ some result)
      × ((k : Text) → count (is_named k) result ≡ (if any (is_named k) servers then 1 else 0))
      × ((p : NameServer → Bool) → any p result ≡ true → any p servers ≡ true)
  filter_name_servers_for_unique_names_lem =
      let kept = filter-IsChosen (λ ns. false) (any_nothing servers) in
      (
        kept.result,
        kept.done,
        λ k. ground (arith, kept.named k, reordered (has_key k), group_servers-count k [] servers),
        λ p h. elim (Bool-cases (any p servers)) [
          | inl e ↦ e
          | inr e ↦
              let other = filter-IsChosen p e in
              let same : Option.some other.result ≡ some kept.result = sym other.done ∙ kept.done in
              absurd (
                let lack = other.lacking in
                let eq : other.result ≡ kept.result = cc in
                let f : any p kept.result ≡ false = sym (ap (any p) eq) ∙ lack in cc)
        ],
      )
