-- ===== src/Lookup/Servers/Groups.antt =====
-- The map from names to name servers in `filterNameServersForUniqueNames`.
use zdns.Prelude.{
  ℕ, ◌+◌, ◌≡◌, refl, sym, ap, ◌∙◌, inl, inr, Bool, true, false, not, ◌&&◌, ◌||◌, List, [], ◌∷◌,
  ◌++◌, arith, any, Bool-cases, ◌==◌, if◌then◌else◌, Text, text_eq,
}
use zdns.Prelude.StringLaws.{text_eq_iff}
use zdns.Records.NameServers.{NameServer}
use zdns.Lookup.Servers.{ServerMap, append_server, group_servers}

abbrev pub count : {A : Type 0} → (A → Bool) → List A → ℕ
count p [] = 0
count p (x ∷ xs) = (if p x then 1 else 0) + count p xs

-- the same entries in another order: of each kind there are as many
abbrev pub Reorders : {A : Type 0} → List A → List A → Type 0
Reorders {A = A} xs ys = (p : A → Bool) → count p ys ≡ count p xs

abbrev pub is_named : Text → NameServer → Bool
is_named k ns = text_eq ns.domain_name k

abbrev pub has_key : Text → Text × List NameServer → Bool
has_key k e = text_eq e.0 k

pub same_key : (a b k : Text) → text_eq a b ≡ true → text_eq a k ≡ text_eq b k
same_key a b k h = ap (λ t. text_eq t k) ((text_eq_iff a b).0 h)

append_server-count :
    (k : Text) (m : ServerMap) (ns : NameServer)
    → count (has_key k) (append_server m ns)
      ≡ (if is_named k ns && count (has_key k) m == 0 then 1 else count (has_key k) m)
unfolding append_server
append_server-count k [] ns = ground arith
append_server-count k (e ∷ m) ns = elim (Bool-cases (text_eq e.0 ns.domain_name)) [
  | inl q ↦ ground (arith, same_key e.0 ns.domain_name k q)
  | inr q ↦ elim (Bool-cases (text_eq e.0 k)) [
    | inl r ↦ elim (Bool-cases (text_eq ns.domain_name k)) [
      | inl t ↦ absurd (
          let same : e.0 ≡ ns.domain_name =
            (text_eq_iff e.0 k).0 r ∙ sym ((text_eq_iff ns.domain_name k).0 t) in
          let f = (text_eq_iff e.0 ns.domain_name).1 same in cc)
      | inr t ↦ ground (arith, append_server-count k m ns)
    ]
    | inr r ↦ ground (arith, append_server-count k m ns)
  ]
]

pub group_servers-count :
    (k : Text) (m : ServerMap) (servers : List NameServer)
    → count (has_key k) (group_servers m servers) ≡ (
        if count (has_key k) m == 0
        then (if any (is_named k) servers then 1 else 0)
        else count (has_key k) m)
unfolding group_servers
group_servers-count k m [] = ground arith
group_servers-count k m (ns ∷ servers) =
    ground (arith, append_server-count k m ns, group_servers-count k (append_server m ns) servers)

abbrev pub is_empty : List NameServer → Bool
is_empty [] = true
is_empty (ns ∷ l) = false

any-append :
    (p : NameServer → Bool) (l : List NameServer) (ns : NameServer)
    → any p (l ++ ns ∷ []) ≡ (any p l || p ns)
any-append p [] ns = ground arith
any-append p (x ∷ l) ns = ground (arith, any-append p l ns)

is_empty-append : (l : List NameServer) (ns : NameServer) → is_empty (l ++ ns ∷ []) ≡ false
is_empty-append [] ns = refl
is_empty-append (x ∷ l) ns = refl

module _ (p : NameServer → Bool) where
  -- an entry without servers, with one of another name, or with one that has the property
  abbrev pub is_faulty : Text × List NameServer → Bool
  is_faulty e = is_empty e.1 || any (λ ns. not (is_named e.0 ns)) e.1 || any p e.1

  append_server-faulty :
      (m : ServerMap) (ns : NameServer)
      → count is_faulty m ≡ 0
      → p ns ≡ false
      → count is_faulty (append_server m ns) ≡ 0
  unfolding append_server
  append_server-faulty [] ns z h =
      ground (arith, (text_eq_iff ns.domain_name ns.domain_name).1 refl)
  append_server-faulty (e ∷ m) ns z h = elim (Bool-cases (text_eq e.0 ns.domain_name)) [
    | inl q ↦
        let back : text_eq ns.domain_name e.0 ≡ true =
          (text_eq_iff ns.domain_name e.0).1 (sym ((text_eq_iff e.0 ns.domain_name).0 q)) in
        ground (
          arith,
          is_empty-append e.1 ns,
          any-append p e.1 ns,
          any-append (λ x. not (is_named e.0 x)) e.1 ns,
        )
    | inr q ↦ ground (arith, append_server-faulty m ns (omega arith) h)
  ]

  pub group_servers-faulty :
      (m : ServerMap) (servers : List NameServer)
      → count is_faulty m ≡ 0
      → any p servers ≡ false
      → count is_faulty (group_servers m servers) ≡ 0
  unfolding group_servers
  group_servers-faulty m [] z h = z
  group_servers-faulty m (ns ∷ servers) z h =
      group_servers-faulty (append_server m ns) servers (append_server-faulty m ns z (ground arith))
        (ground arith)
