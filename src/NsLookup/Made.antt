-- ===== src/NsLookup/Made.antt =====
-- The records of name servers that `DoNSLookup` of src/zdns/nslookup.go makes.
use mathlib.Core.Path.{subst}
use zdns.Prelude.{
  ◌≡◌, inl, inr, refl, sym, Bool, true, false, Option, none, some, List, [], ◌∷◌, ◌++◌, arith,
  Bool-cases, Option-cases, Text, codes, text_eq, trim_suffix,
}
use zdns.Names.{dot}
use zdns.Records.{Question, Answer, AnyAnswer, as_answer, TraceStep}
use zdns.Records.NameServers.{NameServer}
use zdns.Resolver.{Config, Resolver, Network}
use zdns.Resolver.External.{Lookups}
use zdns.AllNameServers.Reliable.{IsReliable}
use zdns.IpLookup.{IpReply, do_targeted_lookup}
use zdns.IpLookup.Outcome.{do_targeted_lookup-IsCombined}
use zdns.NsLookup.{
  NsRecord, AddressMap, addresses_at, glue_map, record_of, is_incomplete, make_record, make_records,
}
use zdns.NsLookup.Addresses.{
  glue_addresses, non_empty, glue_map-addresses, ComeFrom, found_or_none, choose_addresses-ComeFrom,
}

abbrev pub found4 : IpReply → List Text
found4 got = elim got.result [ none ↦ [] | some ips ↦ ips.ipv4_addresses ]

abbrev pub found6 : IpReply → List Text
found6 got = elim got.result [ none ↦ [] | some ips ↦ ips.ipv6_addresses ]

abbrev pub is_ns_answer : AnyAnswer → Bool
is_ns_answer x = elim (as_answer x) [ none ↦ false | some a ↦ text_eq a.type (codes "NS") ]

module _ {W C M : Type 0} (net : Network W C M) (cfg : Config) (lookups : Lookups W C)
    (ns : NameServer) (lookup_a lookup_aaaa : Bool) (additionals : List AnyAnswer) where
  -- a lookup of the addresses of a name at the name server, with what it found
  pub record IsFoundFor (name : Text) (found : IpReply → List Text) (ips : List Text) : Type 0 where
    before : Resolver W
    after : Resolver W
    got : IpReply
    looked_up :
        do_targeted_lookup net cfg lookups before name (some ns) false lookup_a lookup_aaaa
        ≡ some (after, got)
    same : ips ≡ found got

  -- the record of an NS answer
  pub record IsServer (a : Answer) (rec : NsRecord) : Type 0 where
    named : rec.name ≡ trim_suffix a.answer dot
    typed : rec.type ≡ a.type
    lives : rec.ttl ≡ a.ttl
    ipv4 :
        ComeFrom lookup_a
          (glue_addresses net.parse_ip (codes "A") rec.name additionals)
          rec.ipv4_addresses
          (IsFoundFor rec.name found4 rec.ipv4_addresses)
    ipv6 :
        ComeFrom lookup_aaaa
          (glue_addresses net.parse_ip (codes "AAAA") rec.name additionals)
          rec.ipv6_addresses
          (IsFoundFor rec.name found6 rec.ipv6_addresses)

  -- one record for each NS answer, in their order
  pub data AreServers : List AnyAnswer → List NsRecord → Type 0 where
    nothing : AreServers [] []
    other :
        {x : AnyAnswer} {xs : List AnyAnswer} {recs : List NsRecord}
        → is_ns_answer x ≡ false
        → AreServers xs recs
        → AreServers (x ∷ xs) recs
    server :
        {x : AnyAnswer} {xs : List AnyAnswer} {rec : NsRecord} {recs : List NsRecord} (a : Answer)
        → as_answer x ≡ some a
        → text_eq a.type (codes "NS") ≡ true
        → IsServer a rec
        → AreServers xs recs
        → AreServers (x ∷ xs) (rec ∷ recs)

  abbrev pub glue4s : AddressMap
  glue4s = glue_map net.parse_ip (codes "A") [] additionals

  abbrev pub glue6s : AddressMap
  glue6s = glue_map net.parse_ip (codes "AAAA") [] additionals

  glue_at :
      (type name : Text)
      → addresses_at (glue_map net.parse_ip type [] additionals) name
        ≡ non_empty (glue_addresses net.parse_ip type name additionals)
  unfolding addresses_at
  glue_at type name = glue_map-addresses net.parse_ip type name [] additionals

  -- a change of what is known of the addresses found
  ComeFrom-map :
      {P Q : Type 0} (lookup : Bool) (glue ips : List Text)
      → (P → Q)
      → ComeFrom lookup glue ips P
      → ComeFrom lookup glue ips Q
  ComeFrom-map lookup glue ips f (inl h) = inl h
  ComeFrom-map lookup glue ips f (inr (inl h)) = inr (inl h)
  ComeFrom-map lookup glue ips f (inr (inr (a, b, p))) = inr (inr (a, b, f p))

  -- If addresses are missing, a lookup found those that the record is made with.
  abbrev WasAsked : Text → Option (List Text) → Option (List Text) → Type 0
  WasAsked name ips4 ips6 =
      (is_incomplete net cfg lookups (some ns) lookup_a lookup_aaaa glue4s glue6s name ≡ true)
      → IsFoundFor name found4 (found_or_none ips4) × IsFoundFor name found6 (found_or_none ips6)

  record_of-IsServer :
      (a : Answer) (ips4 ips6 : Option (List Text))
      → WasAsked (trim_suffix a.answer dot) ips4 ips6
      → IsServer a
          (record_of net cfg lookups (some ns) lookup_a lookup_aaaa glue4s glue6s a ips4 ips6)
  record_of-IsServer a ips4 ips6 asked =
      let name = trim_suffix a.answer dot in
      record {
        named = refl;
        typed = refl;
        lives = refl;
        ipv4 =
            ComeFrom-map lookup_a _ _
              (λ h. subst (IsFoundFor name found4) (sym h.1) (asked (ground (arith, h.0))).0)
              (choose_addresses-ComeFrom lookup_a glue4s name _ ips4 (glue_at (codes "A") name));
        ipv6 =
            ComeFrom-map lookup_aaaa _ _
              (λ h. subst (IsFoundFor name found6) (sym h.1) (asked (ground (arith, h.0))).1)
              (choose_addresses-ComeFrom lookup_aaaa glue6s name _ ips6
                (glue_at (codes "AAAA") name));
      }

  make_record-IsServer :
      {Usable : Resolver W → Type 0} {Asks : Question → Type 0}
      (reliable : IsReliable cfg Usable Asks lookups) (r : Resolver W) (a : Answer)
      → Usable r
      → (r' : Resolver W) × (rec : NsRecord) × (more : List TraceStep) × (make_record net cfg
            lookups
            (some ns)
            lookup_a
            lookup_aaaa
            glue4s
            glue6s
            r
            a
          ≡ some (r', rec, more))
        × Usable r'
        × IsServer a rec
  unfolding make_record
  make_record-IsServer reliable r a usable =
      let name = trim_suffix a.answer dot in
      let make = record_of net cfg lookups (some ns) lookup_a lookup_aaaa glue4s glue6s a in
      elim (Bool-cases
        (is_incomplete net cfg lookups (some ns) lookup_a lookup_aaaa glue4s glue6s name)) [
          | inr b ↦ (
            r,
            make none none,
            [],
            rw (make_record, b) refl,
            usable,
            record_of-IsServer a none none (λ h. absurd (ground (arith, h, b))),
          )
          | inl b ↦
              let (r', got, _, _, e, usable', _, _, _) =
                do_targeted_lookup-IsCombined net cfg lookups reliable ns r name false lookup_a
                  lookup_aaaa usable in
              let found : (f : IpReply → List Text) → IsFoundFor name f (f got) =
                λ f. record { before = r; after = r'; got = got; looked_up = e; same = refl } in
              elim (Option-cases got.result) [
                | inl g ↦ (
                  r',
                  make none none,
                  got.trace,
                  ground (arith, b, e, g),
                  usable',
                  record_of-IsServer a none none (λ h. (
                    subst (IsFoundFor name found4) (rw (found4, g) refl) (found found4),
                    subst (IsFoundFor name found6) (rw (found6, g) refl) (found found6),
                  )),
                )
                | inr (ips, g) ↦ (
                  r',
                  make (some ips.ipv4_addresses) (some ips.ipv6_addresses),
                  got.trace,
                  ground (arith, b, e, g),
                  usable',
                  record_of-IsServer a (some ips.ipv4_addresses) (some ips.ipv6_addresses) (λ h. (
                    subst (IsFoundFor name found4) (rw (found4, g) refl) (found found4),
                    subst (IsFoundFor name found6) (rw (found6, g) refl) (found found6),
                  )),
                )
              ]
        ]

  pub make_records-AreServers :
      {Usable : Resolver W → Type 0} {Asks : Question → Type 0}
      (reliable : IsReliable cfg Usable Asks lookups) (r : Resolver W) (xs : List AnyAnswer)
      (trace : List TraceStep)
      → Usable r
      → (r' : Resolver W) × (recs : List NsRecord) × (trace' : List TraceStep) × (make_records net
            cfg lookups
            (some ns)
            lookup_a
            lookup_aaaa
            glue4s
            glue6s
            r
            xs
            trace
          ≡ some (r', recs, trace'))
        × AreServers xs recs
  unfolding make_records
  make_records-AreServers reliable r [] trace usable = (r, [], trace, refl, nothing)
  make_records-AreServers reliable r (x ∷ xs) trace usable = elim (Option-cases (as_answer x)) [
    | inl e ↦
        let (r', recs, trace', f, h) = make_records-AreServers reliable r xs trace usable in
        (r', recs, trace', rw (make_records, e, f) refl, other (rw (is_ns_answer, e) refl) h)
    | inr (a, e) ↦ elim (Bool-cases (text_eq a.type (codes "NS"))) [
      | inr b ↦
          let (r', recs, trace', f, h) = make_records-AreServers reliable r xs trace usable in
          (
            r',
            recs,
            trace',
            rw (make_records, e, b, f) refl,
            other (rw (is_ns_answer, e, b) refl) h,
          )
      | inl b ↦
          let (r1, rec, more, f, usable1, mine) = make_record-IsServer reliable r a usable in
          let (r2, recs, trace', g, h) =
            make_records-AreServers reliable r1 xs (trace ++ more) usable1 in
          (r2, rec ∷ recs, trace', rw (make_records, e, b, f, g) refl, server a e b mine h)
    ]
  ]
