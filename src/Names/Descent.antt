-- ===== src/Names/Descent.antt =====
-- `nextAuthority` of src/zdns/util.go on any name: how the layers grow.
use zdns.Prelude.{
  ℕ, zero, suc, ◌+◌, ◌-◌, ◌≤◌, ◌<◌, ◌≡◌, ◌⊎◌, inl, inr, refl, sym, ap, ◌∙◌, true, false, some, [],
  ◌∷◌, arith, Text, text_eq, has_suffix, has_prefix, last_index, Bool-cases, Option-cases, take,
  drop, length, leb, take-append-drop,
}
use zdns.Prelude.StringLaws.{
  text_eq_iff, has_suffix-append, append_of-has_suffix, last_index-append,
}
use zdns.Names.{dot, in_addr_arpa, after, next_in_layer, next_authority}

length-take : (n : ℕ) (s : Text) → n ≤ length s → length (take n s) ≡ n
length-take zero s h = refl
length-take (suc n) [] h = absurd (omega (arith, h))
length-take (suc n) (c ∷ s) h = ap suc (length-take n s (omega (arith, h)))

length-drop : (n : ℕ) (s : Text) → length (drop n s) ≡ length s - n
length-drop zero s = omega arith
length-drop (suc n) [] = omega arith
length-drop (suc n) (c ∷ s) = omega (arith, length-drop n s)

last_index-lt : (s : Text) (i : ℕ) → last_index s dot ≡ some i → i < length s
unfolding last_index has_prefix
last_index-lt [] i e = cc
last_index-lt (c ∷ s) i e = elim (Option-cases (last_index s dot)) [
  | inl n ↦ ground (arith, n, e)
  | inr (j, f) ↦ ground (arith, f, e, last_index-lt s j f)
]

pub length-suffix : (s t : Text) → has_suffix s t ≡ true → length t ≤ length s
unfolding has_suffix
length-suffix s t h = ground (arith, h)

has_suffix-drop : (n : ℕ) (s : Text) → has_suffix s (drop n s) ≡ true
has_suffix-drop n s =
    ap (λ x. has_suffix x (drop n s)) (sym (take-append-drop n s))
    ∙ has_suffix-append (take n s) (drop n s)

-- what the next authority is: the name, or a longer layer of it
abbrev pub Grows : Text → ℕ → Text → Type 0
Grows name n new = (new ≡ name) ⊎ ((has_suffix name new ≡ true) × (n < length new))

after-Grows :
    (name t : Text) (n : ℕ)
    → n + length t < length name
    → Grows name n (after (last_index t dot) name)
unfolding after
after-Grows name t n h = elim (Option-cases (last_index t dot)) [
  | inl e ↦ rw e (inl refl)
  | inr (i, e) ↦ rw e (
      inr (
        has_suffix-drop (i + 1) name,
        (let len : length (after (some i) name) ≡ length name - (i + 1) =
              length-drop (i + 1) name in
            omega (arith, len, last_index-lt t i e, h)),
      ))
]

-- in a name that ends in the layer, behind the index at which the layer starts
at_layer :
    (name layer : Text)
    → has_suffix name layer ≡ true
    → last_index name layer ≡ some (length name - length layer)
at_layer name layer h =
    let front = take (length name - length layer) name in
    let e = append_of-has_suffix name layer h in
    let n : length front ≡ length name - length layer =
      length-take (length name - length layer) name (omega arith) in
    ap (λ s. last_index s layer) e ∙ last_index-append front layer ∙ ap some n

next_in_layer-Grows :
    (name : Text) (n at : ℕ) → at + n ≤ length name → Grows name n (next_in_layer name (some at))
unfolding next_in_layer
next_in_layer-Grows name n zero h = inl refl
next_in_layer-Grows name n (suc idx) h = elim (Bool-cases (leb (length name) (idx + 1))) [
  | inl b ↦ rw b (inl refl)
  | inr b ↦
      rw b (
        after-Grows name (take idx name) n (omega (arith, length-take idx name (omega (arith, h)))))
]

-- From a layer other than the root, in which the name is, the next authority is the name or a longer
-- layer of it.
pub next_authority-Grows :
    (name layer : Text)
    → has_suffix name layer ≡ true
    → text_eq layer dot ≡ false
    → (new : Text) × (next_authority name layer ≡ some new) × Grows name (length layer) new
unfolding next_authority
next_authority-Grows name layer h ne =
    let inner = next_in_layer name (some (length name - length layer)) in
    elim (Option-cases (last_index name dot)) [
      | inl e ↦ (name, ground (arith, e, ne), inl refl)
      | inr (idx, e) ↦ elim (Bool-cases (leb (length name) (idx + 1))) [
        | inl b ↦ (name, ground (arith, e, ne, b), inl refl)
        | inr b ↦ (
          inner,
          ground (arith, e, ne, b, h, at_layer name layer h),
          next_in_layer-Grows name (length layer) (length name - length layer)
              (omega (arith, length-suffix name layer h)),
        )
      ]
    ]

-- from the root it is the name or a layer of it that is not empty
pub next_authority_root :
    (name : Text) → (new : Text) × (next_authority name dot ≡ some new) × Grows name 0 new
unfolding next_authority
next_authority_root name = elim (Bool-cases (has_suffix name in_addr_arpa)) [
  | inl a ↦ (in_addr_arpa, ground (arith, a, (text_eq_iff dot dot).1 refl), inr (a, omega arith))
  | inr a ↦ elim (Bool-cases (text_eq name dot)) [
    | inl d ↦ (
      name,
      ground (arith, a, d, (text_eq_iff dot dot).1 refl, (text_eq_iff name dot).0 d),
      inl refl,
    )
    | inr d ↦ elim (Option-cases (last_index name dot)) [
      | inl e ↦ (name, ground (arith, a, d, e), inl refl)
      | inr (idx, e) ↦ elim (Bool-cases (leb (length name) (idx + 1))) [
        | inl b ↦ (name, ground (arith, a, d, e, b), inl refl)
        | inr b ↦ (
          drop (idx + 1) name,
          ground (arith, a, d, e, b, (text_eq_iff dot dot).1 refl),
          inr (has_suffix-drop (idx + 1) name, ground (arith, b, length-drop (idx + 1) name)),
        )
      ]
    ]
  ]
]

has_suffix_self : (s : Text) → has_suffix s s ≡ true
has_suffix_self s = has_suffix-append [] s

-- and from the name itself it is the name
pub next_authority_self : (name : Text) → next_authority name name ≡ some name
unfolding next_authority next_in_layer
next_authority_self name = elim (Bool-cases (text_eq name dot)) [
  | inl d ↦ elim (Bool-cases (has_suffix name in_addr_arpa)) [
    | inl a ↦ absurd (
        let e = (text_eq_iff name dot).0 d in
        let f : has_suffix dot in_addr_arpa ≡ true =
          ap (λ s. has_suffix s in_addr_arpa) (sym e) ∙ a in
        ground (arith, f, length-suffix dot in_addr_arpa f))
    | inr a ↦ ground (arith, a, d, (text_eq_iff name dot).0 d)
  ]
  | inr d ↦ elim (Option-cases (last_index name dot)) [
    | inl e ↦ ground (arith, d, e)
    | inr (idx, e) ↦ ground (arith, d, e, has_suffix_self name, last_index-append [] name)
  ]
]
