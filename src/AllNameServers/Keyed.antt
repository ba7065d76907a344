-- ===== src/AllNameServers/Keyed.antt =====
-- The keys of name servers in `extractNameServersFromLayerResults` of src/zdns/lookup.go.
use mathlib.Core.List.{append-nil}
use zdns.Prelude.{
  ℕ, ◌≡◌, ◌⊎◌, inl, inr, refl, sym, ap, ◌∙◌, Bool, true, false, ◌||◌, none, some, List, [], ◌∷◌,
  ◌++◌, arith, All, any, Bool-cases, Text, codes, text_eq, has_prefix, trim_suffix,
}
use zdns.Prelude.StringLaws.{text_eq_iff}
use zdns.Names.{dot}
use zdns.Records.{Answer}
use zdns.Records.NameServers.{NameServer}
use zdns.Lookup.Servers.Groups.{is_named}
use zdns.AllNameServers.Extract.{
  named_server, server_key, KeyedServers, add_unique, add_uniques, add_answers,
}

-- neither name starts with the other, or they are the same
abbrev pub Apart : Text → Text → Type 0
Apart k d = (d ≡ k) ⊎ ((has_prefix d k ≡ false) × (has_prefix k d ≡ false))

-- of two fronts of a text, one is a front of the other
fronts : (a b u v : Text) → a ++ u ≡ b ++ v → (has_prefix a b ≡ true) ⊎ (has_prefix b a ≡ true)
unfolding has_prefix
fronts [] b u v e = inr refl
fronts (c ∷ a) [] u v e = inl refl
fronts (c ∷ a) (d ∷ b) u v e =
    let tails : a ++ u ≡ b ++ v = cc in
    let heads : c ≡ d = cc in
    elim (fronts a b u v tails) [
      | inl h ↦ inl (ground (arith, heads, h))
      | inr h ↦ inr (ground (arith, heads, h))
    ]

-- each key starts with the name of its server, which is apart from `k`
abbrev pub AreKeyed : Text → KeyedServers → Type 0
AreKeyed k m = All (λ e. ((u : Text) × (e.0 ≡ e.1.domain_name ++ u)) × Apart k e.1.domain_name) m

abbrev pub AreApart : Text → List NameServer → Type 0
AreApart k servers = All (λ ns. Apart k ns.domain_name) servers

module _ (k : Text) where
  abbrev pub holds : KeyedServers → Bool
  holds m = any (λ e. is_named k e.1) m

  add_unique_sound :
      (m : KeyedServers) (key : Text) (ns : NameServer)
      → holds (add_unique m key ns) ≡ true
      → (is_named k ns || holds m) ≡ true
  unfolding add_unique
  add_unique_sound [] key ns h = ground (arith, h)
  add_unique_sound (e ∷ m) key ns h = elim (Bool-cases (text_eq e.0 key)) [
    | inl b ↦ ground (arith, h, b)
    | inr b ↦ ground (arith, h, b, add_unique_sound m key ns)
  ]

  -- of two servers with one key, the first has the name if the second has it
  same_key-named :
      (e : Text × NameServer) (ns : NameServer) (u v : Text)
      → e.0 ≡ e.1.domain_name ++ u
      → e.0 ≡ ns.domain_name ++ v
      → Apart k e.1.domain_name
      → is_named k ns ≡ true
      → is_named k e.1 ≡ true
  same_key-named e ns u v f g (inl same) n = (text_eq_iff e.1.domain_name k).1 same
  same_key-named e ns u v f g (inr (p, q)) n =
      let both : e.1.domain_name ++ u ≡ k ++ v =
        sym f ∙ g ∙ ap (λ t. t ++ v) ((text_eq_iff ns.domain_name k).0 n) in
      elim (fronts e.1.domain_name k u v both) [
        | inl x ↦ absurd (ground (arith, x, p))
        | inr x ↦ absurd (ground (arith, x, q))
      ]

  -- a server with the key of one of another name, which is apart, would have its name
  add_unique_complete :
      (m : KeyedServers) (key u : Text) (ns : NameServer)
      → key ≡ ns.domain_name ++ u
      → AreKeyed k m
      → Apart k ns.domain_name
      → AreKeyed k (add_unique m key ns)
        × (holds (add_unique m key ns) ≡ (is_named k ns || holds m))
  unfolding add_unique
  add_unique_complete [] key u ns made h a = ((((u, made), a), tt), ground arith)
  add_unique_complete (e ∷ m) key u ns made h a = elim (Bool-cases (text_eq e.0 key)) [
    | inl b ↦
        let ((w, f), apart) = h.0 in
        let named = same_key-named e ns w u f ((text_eq_iff e.0 key).0 b ∙ made) apart in
        rw b (h, ground (arith, named))
    | inr b ↦
        let (rest, eq) = add_unique_complete m key u ns made h.1 a in
        rw (b, eq) ((h.0, rest), ground arith)
  ]

  module _ (ip_string : List ℕ → Text) where
    pub add_uniques_sound :
        (m : KeyedServers) (servers : List NameServer)
        → holds (add_uniques ip_string m servers) ≡ true
        → (any (is_named k) servers || holds m) ≡ true
    unfolding add_uniques
    add_uniques_sound m [] h = h
    add_uniques_sound m (ns ∷ servers) h =
        let m' = add_unique m (server_key ip_string ns) ns in
        ground
          (arith, add_uniques_sound m' servers h, add_unique_sound m (server_key ip_string ns) ns)

    pub add_uniques_complete :
        (m : KeyedServers) (servers : List NameServer)
        → AreKeyed k m
        → AreApart k servers
        → AreKeyed k (add_uniques ip_string m servers)
          × (holds (add_uniques ip_string m servers) ≡ (any (is_named k) servers || holds m))
    unfolding add_uniques server_key
    add_uniques_complete m [] h a = (h, refl)
    add_uniques_complete m (ns ∷ servers) h a =
        let u : Text = elim ns.ip [ none ↦ codes "<nil>" | some ip ↦ ip_string ip ] in
        let (keyed, e) = add_unique_complete m (server_key ip_string ns) u ns refl h a.0 in
        let (keyed', f) =
          add_uniques_complete (add_unique m (server_key ip_string ns) ns) servers keyed a.1 in
        (keyed', f ∙ ground (arith, e))

  pub add_answers_sound :
      (m : KeyedServers) (answers : List Answer)
      → holds (add_answers m answers) ≡ true
      → (any (λ a. text_eq (trim_suffix a.answer dot) k) answers || holds m) ≡ true
  unfolding add_answers
  add_answers_sound m [] h = h
  add_answers_sound m (a ∷ answers) h =
      let name = trim_suffix a.answer dot in
      ground (
        arith,
        add_answers_sound (add_unique m name (named_server name)) answers h,
        add_unique_sound m name (named_server name),
      )

  pub add_answers_complete :
      (m : KeyedServers) (answers : List Answer)
      → AreKeyed k m
      → All (λ a. Apart k (trim_suffix a.answer dot)) answers
      → AreKeyed k (add_answers m answers)
        × (holds (add_answers m answers)
            ≡ (any (λ a. text_eq (trim_suffix a.answer dot) k) answers || holds m))
  unfolding add_answers
  add_answers_complete m [] h a = (h, refl)
  add_answers_complete m (r ∷ answers) h a =
      let name = trim_suffix r.answer dot in
      let (keyed, e) =
        add_unique_complete m name [] (named_server name) (sym (append-nil name)) h a.0 in
      let (keyed', f) =
        add_answers_complete (add_unique m name (named_server name)) answers keyed a.1 in
      (keyed', f ∙ ground (arith, e))

-- A set of names that are apart is apart in each of its elements.
module _ {A : Type 0} (name : A → Text) where
  pub All-Apart :
      (k : Text) (xs : List A)
      → ((d : Text) → any (λ x. text_eq (name x) d) xs ≡ true → Apart k d)
      → All (λ x. Apart k (name x)) xs
  All-Apart k [] h = tt
  All-Apart k (x ∷ xs) h = (
    h (name x) (ground (arith, (text_eq_iff (name x) (name x)).1 refl)),
    All-Apart k xs (λ d e. h d (ground (arith, e))),
  )
