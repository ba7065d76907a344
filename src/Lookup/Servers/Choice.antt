-- ===== src/Lookup/Servers/Choice.antt =====
-- The choice among the servers of one name in `filterNameServersForUniqueNames`.
use zdns.Prelude.{
  ◌≡◌, refl, inl, inr, Bool, true, false, not, Option, none, some, List, [], ◌∷◌, arith, any,
  Option-cases,
}
use zdns.Records.NameServers.{NameServer, IpVersionMode, IterationIpPreference, to4}
use zdns.Lookup.Servers.{note_family, last_of_families, prefer, choose_server}

-- a server with a property is absent, or has it not
abbrev lacks : (NameServer → Bool) → Option NameServer → Bool
lacks p none = true
lacks p (some ns) = not (p ns)

module _ (p : NameServer → Bool) where
  note_family-lacks :
      (a b : Option NameServer) (ns : NameServer)
      → lacks p a ≡ true
      → lacks p b ≡ true
      → p ns ≡ false
      → (lacks p (note_family a b ns).0 ≡ true) × (lacks p (note_family a b ns).1 ≡ true)
  unfolding note_family
  note_family-lacks a b ns ha hb h = elim (Option-cases ns.ip) [
    | inl e ↦ (ground arith, ground arith)
    | inr (ip, e) ↦ elim (Option-cases (to4 ip)) [
      | inr (v, f) ↦ (ground arith, ground arith)
      | inl f ↦ (ground arith, ground arith)
    ]
  ]

  last_of_families-lacks :
      (a b : Option NameServer) (l : List NameServer)
      → lacks p a ≡ true
      → lacks p b ≡ true
      → any p l ≡ false
      → (lacks p (last_of_families a b l).0 ≡ true) × (lacks p (last_of_families a b l).1 ≡ true)
  unfolding last_of_families
  last_of_families-lacks a b [] ha hb h = (ha, hb)
  last_of_families-lacks a b (ns ∷ l) ha hb h =
      let (ha', hb') = note_family-lacks a b ns ha hb (ground arith) in
      last_of_families-lacks (note_family a b ns).0 (note_family a b ns).1 l ha' hb' (ground arith)

  prefer-lacks :
      (mode : IpVersionMode) (pref : IterationIpPreference) (a b : NameServer)
      → p a ≡ false
      → p b ≡ false
      → p (prefer mode pref a b) ≡ false
  unfolding prefer
  prefer-lacks IpVersionMode.ipv4_only pref a b ha hb = ha
  prefer-lacks IpVersionMode.ipv6_only pref a b ha hb = hb
  prefer-lacks IpVersionMode.ipv4_or_ipv6 IterationIpPreference.prefer_ipv4 a b ha hb = ha
  prefer-lacks IpVersionMode.ipv4_or_ipv6 IterationIpPreference.prefer_ipv6 a b ha hb = hb

  -- the server that is kept has no property that none of the servers has
  pub choose_server-lacks :
      (mode : IpVersionMode) (pref : IterationIpPreference) (ns : NameServer) (l : List NameServer)
      → any p (ns ∷ l) ≡ false
      → (got : NameServer) × (choose_server mode pref (ns ∷ l) ≡ some got) × (p got ≡ false)
  unfolding choose_server
  choose_server-lacks mode pref ns l h =
      let (ha, hb) = last_of_families-lacks none none (ns ∷ l) refl refl h in
      let found = last_of_families none none (ns ∷ l) in
      elim (Option-cases found.0) [
        | inl e ↦ elim (Option-cases found.1) [
          | inl f ↦ (ns, ground arith, ground arith)
          | inr (b, f) ↦ (b, ground arith, ground arith)
        ]
        | inr (a, e) ↦ elim (Option-cases found.1) [
          | inl f ↦ (a, ground arith, ground arith)
          | inr (b, f) ↦ (
            prefer mode pref a b,
            ground arith,
            prefer-lacks mode pref a b (ground arith) (ground arith),
          )
        ]
      ]
