-- ===== src/AllNameServers/Named.antt =====
-- The maps of `extractNameServersFromLayerResults` of src/zdns/lookup.go, and the names in them.
use zdns.Prelude.{
  ℕ, ◌≡◌, inl, inr, refl, ap, ◌∙◌, Bool, true, false, not, ◌&&◌, ◌||◌, Option, none, some, List, [],
  ◌∷◌, arith, any, ◌==◌, if◌then◌else◌, Bool-cases, Option-cases, Text, text_eq, trim_suffix,
}
use zdns.Prelude.StringLaws.{text_eq_iff}
use zdns.Names.{dot}
use zdns.Records.{Answer, AnyAnswer, as_answer, safe_status}
use zdns.Records.NameServers.{NameServer}
use zdns.Lookup.Servers.Groups.{Reorders, count, is_named, same_key as same_name}
use zdns.AllNameServers.{ExtendedResult}
use zdns.AllNameServers.Extract.{
  same_key, put_record, put_records, UniqueRecords, is_ns, put_result, unique_records, named_server,
  put_server, put_servers, set_ip, set_ips,
}

-- An NS record names a server.
abbrev pub names : Text → Answer → Bool
names k a = is_ns a && text_eq (trim_suffix a.answer dot) k

abbrev pub section_names : Text → List AnyAnswer → Bool
section_names k = any (λ x. elim (as_answer x) [ none ↦ false | some a ↦ names k a ])

-- A successful result of the layer has an NS record of the name among its authorities or answers.
abbrev pub layer_names : Text → List ExtendedResult → Bool
layer_names k = any (λ res.
    safe_status res.status
    && (section_names k res.res.authorities || section_names k res.res.answers))

module _ {A : Type 0} (p : A → Bool) where
  any-count : (xs : List A) → any p xs ≡ (if count p xs == 0 then false else true)
  any-count [] = refl
  any-count (x ∷ xs) = ground (arith, any-count xs)

  -- another order has the same in it
  pub any-Reorders : (xs ys : List A) → Reorders xs ys → any p ys ≡ any p xs
  any-Reorders xs ys h = ground (arith, any-count xs, any-count ys, h p)

module _ (k : Text) where
  names-same_key : (a b : Answer) → same_key b a ≡ true → names k b ≡ names k a
  names-same_key a b h =
      let e : b.answer ≡ a.answer = (text_eq_iff b.answer a.answer).0 (ground arith) in
      let f : text_eq (trim_suffix b.answer dot) k ≡ text_eq (trim_suffix a.answer dot) k =
        ap (λ t. text_eq (trim_suffix t dot) k) e in
      ground (arith, f)

  put_record-names :
      (m : List Answer) (a : Answer)
      → any (names k) (put_record m a) ≡ (names k a || any (names k) m)
  unfolding put_record
  put_record-names [] a = ground arith
  put_record-names (b ∷ m) a = elim (Bool-cases (same_key b a)) [
    | inl h ↦ rw h (ground (arith, names-same_key a b h))
    | inr h ↦ rw (h, put_record-names m a) (ground arith)
  ]

  put_wanted-names :
      (wanted : Answer → Bool) (m : List Answer) (a : Answer)
      → (names k a ≡ true → wanted a ≡ true)
      → any (names k) (if wanted a then put_record m a else m) ≡ (names k a || any (names k) m)
  put_wanted-names wanted m a h = elim (Bool-cases (wanted a)) [
    | inl w ↦ rw w (put_record-names m a)
    | inr w ↦ elim (Bool-cases (names k a)) [
      | inl n ↦ absurd (let f = h n in cc)
      | inr n ↦ rw (w, n) refl
    ]
  ]

  put_records-names :
      (wanted : Answer → Bool) (m : List Answer) (xs : List AnyAnswer)
      → ((a : Answer) → names k a ≡ true → wanted a ≡ true)
      → any (names k) (put_records wanted m xs) ≡ (any (names k) m || section_names k xs)
  unfolding put_records
  put_records-names wanted m [] h = ground arith
  put_records-names wanted m (x ∷ xs) h = elim (Option-cases (as_answer x)) [
    | inl e ↦ rw (put_records, e, put_records-names wanted m xs h) refl
    | inr (a, e) ↦
        rw
          (
            put_records,
            e,
            put_records-names wanted (if wanted a then put_record m a else m) xs h,
            put_wanted-names wanted m a (h a),
          )
          (ground arith)
  ]

  pub unique_records-names :
      (u : UniqueRecords) (results : List ExtendedResult)
      → (any (names k) (unique_records u results).authorities
          || any (names k) (unique_records u results).answers)
        ≡ ((any (names k) u.authorities || any (names k) u.answers) || layer_names k results)
  unfolding unique_records
  unique_records-names u [] = ground arith
  unique_records-names u (res ∷ results) = elim (Bool-cases (safe_status res.status)) [
    | inl s ↦
        rw
          (
            unique_records,
            s,
            unique_records-names (put_result u res) results,
            put_records-names (λ a. true) u.authorities res.res.authorities (λ a n. refl),
            put_records-names is_ns u.answers res.res.answers (λ a n. ground arith),
          )
          (ground arith)
    | inr s ↦ rw (unique_records, s, unique_records-names u results) refl
  ]

  put_server-named :
      (m : List NameServer) (ns : NameServer)
      → any (is_named k) (put_server m ns) ≡ (is_named k ns || any (is_named k) m)
  put_server-named [] ns = ground arith
  put_server-named (s ∷ m) ns = elim (Bool-cases (text_eq s.domain_name ns.domain_name)) [
    | inl h ↦ rw h (ground (arith, same_name s.domain_name ns.domain_name k h))
    | inr h ↦ rw (h, put_server-named m ns) (ground arith)
  ]

  pub put_servers-named :
      (m : List NameServer) (authorities : List Answer)
      → any (is_named k) (put_servers m authorities)
        ≡ (any (is_named k) m || any (names k) authorities)
  unfolding put_servers
  put_servers-named m [] = ground arith
  put_servers-named m (a ∷ authorities) = elim (Bool-cases (is_ns a)) [
    | inl h ↦
        let ns = named_server (trim_suffix a.answer dot) in
        rw (h, put_servers-named (put_server m ns) authorities, put_server-named m ns)
          (ground arith)
    | inr h ↦ rw (h, put_servers-named m authorities) (ground arith)
  ]

  set_ip-named :
      (m : List NameServer) (name : Text) (ip : Option (List ℕ))
      → any (is_named k) (set_ip m name ip) ≡ any (is_named k) m
  set_ip-named [] name ip = refl
  set_ip-named (s ∷ m) name ip = ground (arith, set_ip-named m name ip)

  pub set_ips-named :
      (parse_ip : Text → Option (List ℕ)) (type : ℕ) (m : List NameServer) (rs : List Answer)
      → any (is_named k) (set_ips parse_ip type m rs) ≡ any (is_named k) m
  unfolding set_ips
  set_ips-named parse_ip type m [] = refl
  set_ips-named parse_ip type m (a ∷ rs) = elim (Bool-cases (a.rr_type == type)) [
    | inl h ↦
        let m' = set_ip m (trim_suffix a.name dot) (parse_ip a.answer) in
        rw (h, set_ips-named parse_ip type m' rs) (set_ip-named m _ _)
    | inr h ↦ rw (h, set_ips-named parse_ip type m rs) refl
  ]

-- the map of the answers has records of type NS only
abbrev pub not_ns : Answer → Bool
not_ns a = not (is_ns a)

put_record-not_ns :
    (m : List Answer) (a : Answer)
    → is_ns a ≡ true
    → any not_ns m ≡ false
    → any not_ns (put_record m a) ≡ false
unfolding put_record
put_record-not_ns [] a n h = ground (arith, n)
put_record-not_ns (b ∷ m) a n h = elim (Bool-cases (same_key b a)) [
  | inl s ↦ rw s (ground (arith, n, h))
  | inr s ↦ rw s (ground (arith, put_record-not_ns m a n (ground (arith, h)), h))
]

put_records-not_ns :
    (m : List Answer) (xs : List AnyAnswer)
    → any not_ns m ≡ false
    → any not_ns (put_records is_ns m xs) ≡ false
unfolding put_records
put_records-not_ns m [] h = h
put_records-not_ns m (x ∷ xs) h = elim (Option-cases (as_answer x)) [
  | inl e ↦ rw (put_records, e) (put_records-not_ns m xs h)
  | inr (a, e) ↦ elim (Bool-cases (is_ns a)) [
    | inl n ↦
        rw (put_records, e, n) (put_records-not_ns (put_record m a) xs (put_record-not_ns m a n h))
    | inr n ↦ rw (put_records, e, n) (put_records-not_ns m xs h)
  ]
]

unique_records-not_ns :
    (u : UniqueRecords) (results : List ExtendedResult)
    → any not_ns u.answers ≡ false
    → any not_ns (unique_records u results).answers ≡ false
unfolding unique_records
unique_records-not_ns u [] h = h
unique_records-not_ns u (res ∷ results) h = elim (Bool-cases (safe_status res.status)) [
  | inl s ↦
      rw (unique_records, s)
        (unique_records-not_ns (put_result u res) results
          (put_records-not_ns u.answers res.res.answers h))
  | inr s ↦ rw (unique_records, s) (unique_records-not_ns u results h)
]

all_ns :
    (k : Text) (answers : List Answer)
    → any not_ns answers ≡ false
    → any (λ a. text_eq (trim_suffix a.answer dot) k) answers ≡ any (names k) answers
all_ns k [] h = refl
all_ns k (a ∷ answers) h = ground (arith, h, all_ns k answers)

-- what the answers of a layer name, in any order
pub answers-names :
    (k : Text) (u : UniqueRecords) (results : List ExtendedResult)
    (order : List Answer → List Answer)
    → any not_ns u.answers ≡ false
    → Reorders (unique_records u results).answers (order (unique_records u results).answers)
    → any (λ a. text_eq (trim_suffix a.answer dot) k) (order (unique_records u results).answers)
      ≡ any (names k) (unique_records u results).answers
answers-names k u results order h reordered =
    let ns = unique_records-not_ns u results h in
    all_ns k (order (unique_records u results).answers)
      (any-Reorders not_ns (unique_records u results).answers _ reordered ∙ ns)
    ∙ any-Reorders (names k) (unique_records u results).answers _ reordered
