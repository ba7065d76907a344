-- ===== src/NsLookup/Addresses.antt =====
-- The maps of the glue in `DoNSLookup` of src/zdns/nslookup.go.
use mathlib.Core.List.{append_assoc, append-nil}
use zdns.Prelude.{
  ℕ, ◌≡◌, ◌⊎◌, inl, inr, refl, sym, ap, ◌∙◌, Bool, true, false, ◌&&◌, Option, none, some, List, [],
  ◌∷◌, ◌++◌, arith, if◌then◌else◌, Bool-cases, Option-cases, Text, text_eq, trim_suffix,
}
use zdns.Prelude.StringLaws.{text_eq_iff}
use zdns.Names.{dot}
use zdns.Records.{AnyAnswer, as_answer}
use zdns.Cache.Build.{is_nil}
use zdns.NsLookup.{
  AddressMap, append_address, addresses_at, is_glue_of, glue_map, glue_of, choose_addresses,
  is_missing,
}

-- the addresses of a name in the glue of one type, in their order
abbrev pub glue_addresses : (Text → Option (List ℕ)) → Text → Text → List AnyAnswer → List Text
glue_addresses parse_ip type name [] = []
glue_addresses parse_ip type name (x ∷ xs) =
    let rest = glue_addresses parse_ip type name xs in
    elim (as_answer x) [
      | none ↦ rest
      | some a ↦
          if is_glue_of parse_ip type a && text_eq (trim_suffix a.name dot) name
          then a.answer ∷ rest
          else rest
    ]

abbrev pub non_empty : List Text → Option (List Text)
non_empty [] = none
non_empty (x ∷ xs) = some (x ∷ xs)

-- what a name has in a map, with more addresses behind
abbrev extend : Option (List Text) → List Text → Option (List Text)
extend none ips = non_empty ips
extend (some old) ips = some (old ++ ips)

extend-nil : (o : Option (List Text)) → extend o [] ≡ o
extend-nil none = refl
extend-nil (some old) = ap some (append-nil old)

addresses_at-append :
    (m : AddressMap) (key name ip : Text)
    → addresses_at (append_address m key ip) name
      ≡ (if text_eq key name then extend (addresses_at m name) (ip ∷ []) else addresses_at m name)
unfolding addresses_at append_address
addresses_at-append [] key name ip = ground arith
addresses_at-append (e ∷ m) key name ip = elim (Bool-cases (text_eq e.0 key)) [
  | inl b ↦
      let same : text_eq e.0 name ≡ text_eq key name =
        ap (λ t. text_eq t name) ((text_eq_iff e.0 key).0 b) in
      elim (Bool-cases (text_eq key name)) [
        | inl c ↦ rw (b, same, c) refl
        | inr c ↦ rw (b, same, c) refl
      ]
  | inr b ↦ elim (Bool-cases (text_eq e.0 name)) [
    | inr c ↦ rw (b, addresses_at, c, addresses_at-append m key name ip) refl
    | inl c ↦ elim (Bool-cases (text_eq key name)) [
      | inr d ↦ rw (b, addresses_at, c, d) refl
      | inl d ↦ absurd (
          let same : e.0 ≡ key = (text_eq_iff e.0 name).0 c ∙ sym ((text_eq_iff key name).0 d) in
          let f = (text_eq_iff e.0 key).1 same in cc)
    ]
  ]
]

extend-cons :
    (o : Option (List Text)) (ip : Text) (ips : List Text)
    → extend (extend o (ip ∷ [])) ips ≡ extend o (ip ∷ ips)
extend-cons none ip ips = refl
extend-cons (some old) ip ips = ap some (append_assoc old (ip ∷ []) ips)

pub glue_map-addresses :
    (parse_ip : Text → Option (List ℕ)) (type name : Text) (m : AddressMap) (xs : List AnyAnswer)
    → addresses_at (glue_map parse_ip type m xs) name
      ≡ extend (addresses_at m name) (glue_addresses parse_ip type name xs)
unfolding glue_map
glue_map-addresses parse_ip type name m [] = sym (extend-nil (addresses_at m name))
glue_map-addresses parse_ip type name m (x ∷ xs) = elim (Option-cases (as_answer x)) [
  | inl e ↦ rw (glue_map, glue_addresses, e) (glue_map-addresses parse_ip type name m xs)
  | inr (a, e) ↦ elim (Bool-cases (is_glue_of parse_ip type a)) [
    | inr g ↦ rw (glue_map, glue_addresses, e, g) (glue_map-addresses parse_ip type name m xs)
    | inl g ↦
        let key = trim_suffix a.name dot in
        elim (Bool-cases (text_eq key name)) [
          | inl b ↦
              rw
                (
                  glue_map,
                  glue_addresses,
                  e,
                  g,
                  b,
                  glue_map-addresses parse_ip type name (append_address m key a.answer) xs,
                  addresses_at-append m key name a.answer,
                  b,
                )
                (extend-cons (addresses_at m name) a.answer (glue_addresses parse_ip type name xs))
          | inr b ↦
              rw
                (
                  glue_map,
                  glue_addresses,
                  e,
                  g,
                  b,
                  glue_map-addresses parse_ip type name (append_address m key a.answer) xs,
                  addresses_at-append m key name a.answer,
                  b,
                )
                refl
        ]
  ]
]

-- where the addresses of one type come from: none are wanted, they are the glue, or there is no glue and
-- they are those found
abbrev pub ComeFrom : Bool → List Text → List Text → Type 0 → Type 0
ComeFrom lookup glue ips Found =
    ((lookup ≡ false) × (ips ≡ []))
    ⊎ ((lookup ≡ true) × (is_nil glue ≡ false) × (ips ≡ glue))
    ⊎ ((lookup ≡ true) × (glue ≡ []) × Found)

abbrev pub found_or_none : Option (List Text) → List Text
found_or_none none = []
found_or_none (some ips) = ips

pub choose_addresses-ComeFrom :
    (lookup : Bool) (m : AddressMap) (name : Text) (glue : List Text) (found : Option (List Text))
    → addresses_at m name ≡ non_empty glue
    → ComeFrom lookup glue (choose_addresses lookup (glue_of lookup m name) found) (
        (is_missing lookup (glue_of lookup m name) ≡ true)
        × (choose_addresses lookup (glue_of lookup m name) found ≡ found_or_none found))
unfolding glue_of choose_addresses
choose_addresses-ComeFrom false m name glue found e = inl (refl, refl)
choose_addresses-ComeFrom true m name (x ∷ glue) found e = rw e (inr (inl (refl, refl, refl)))
choose_addresses-ComeFrom true m name [] none e = rw e (inr (inr (refl, refl, (refl, refl))))
choose_addresses-ComeFrom true m name [] (some ips) e = rw e (inr (inr (refl, refl, (refl, refl))))
