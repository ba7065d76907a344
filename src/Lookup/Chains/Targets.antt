-- ===== src/Lookup/Chains/Targets.antt =====
-- The names that a lookup follows by the maps of src/zdns/lookup.go: none ends in a dot, if no target of
-- a CNAME or DNAME does once its final dot is removed.
use zdns.Prelude.{
  ℕ, zero, suc, ◌-◌, ◌≡◌, inl, inr, refl, sym, ◌∙◌, Bool, true, false, ◌||◌, Option, none, some,
  List, [], ◌∷◌, ◌++◌, arith, All, Bool-cases, Option-cases, ◌==◌, length, drop, leb, Text, text_eq,
  has_suffix, has_prefix, to_lower, to_lower_byte, trim_suffix, contains, replace_first,
}
use mathlib.Core.Path.{subst}
use zdns.Names.{dot, IsDottable}
use zdns.Records.{Answer, AnyAnswer, as_answer, type_cname, type_dname}
use zdns.Lookup.Glue.{verify_address}
use zdns.Cache.Build.{is_nil}
use zdns.Lookup.Chains.{
  AnswerMap, AnswerSets, answers_at, append_at, filed_name, target_name, apply_dname,
  populate_answer, populate_results,
}

-- whether the last byte is a dot
ends_in_dot : Text → Bool
ends_in_dot [] = false
ends_in_dot (c ∷ []) = c == b'.'
ends_in_dot (c ∷ d ∷ s) = ends_in_dot (d ∷ s)

has_suffix-dot : (s : Text) → has_suffix s dot ≡ ends_in_dot s
unfolding has_suffix ends_in_dot text_eq
has_suffix-dot [] = refl
has_suffix-dot (c ∷ []) = ground arith
has_suffix-dot (c ∷ d ∷ s) =
    let one : suc (length s) - 1 ≡ length s = omega arith in
    let two : suc (suc (length s)) - 1 ≡ suc (length s) = omega arith in
    let long : leb 1 (suc (length s)) ≡ true = ground arith in
    let longer : leb 1 (suc (suc (length s))) ≡ true = ground arith in
    let step : has_suffix (c ∷ d ∷ s) dot ≡ has_suffix (d ∷ s) dot =
      rw (longer, long, two, one) refl in
    step ∙ has_suffix-dot (d ∷ s)

ends_in_dot-to_lower : (s : Text) → ends_in_dot (to_lower s) ≡ ends_in_dot s
unfolding ends_in_dot to_lower to_lower_byte
ends_in_dot-to_lower [] = refl
ends_in_dot-to_lower (c ∷ []) = ground arith
ends_in_dot-to_lower (c ∷ d ∷ s) = ends_in_dot-to_lower (d ∷ s)

ends_in_dot-append :
    (s t : Text) → ends_in_dot s ≡ false → ends_in_dot t ≡ false → ends_in_dot (s ++ t) ≡ false
unfolding ends_in_dot
ends_in_dot-append [] t h k = k
ends_in_dot-append (c ∷ []) [] h k = h
ends_in_dot-append (c ∷ []) (d ∷ t) h k = k
ends_in_dot-append (c ∷ d ∷ s) t h k = ends_in_dot-append (d ∷ s) t h k

ends_in_dot-drop : (n : ℕ) (s : Text) → ends_in_dot s ≡ false → ends_in_dot (drop n s) ≡ false
unfolding ends_in_dot
ends_in_dot-drop zero s h = h
ends_in_dot-drop (suc n) [] h = refl
ends_in_dot-drop (suc n) (c ∷ []) h = ends_in_dot-drop n [] refl
ends_in_dot-drop (suc n) (c ∷ d ∷ s) h = ends_in_dot-drop n (d ∷ s) h

ends_in_dot-tail :
    (c : ℕ) (t : Text) → is_nil t ≡ false → ends_in_dot t ≡ false → ends_in_dot (c ∷ t) ≡ false
unfolding ends_in_dot
ends_in_dot-tail c [] n h = absurd cc
ends_in_dot-tail c (d ∷ t) n h = h

append-is_nil : (t u : Text) → is_nil t ≡ false → is_nil (t ++ u) ≡ false
append-is_nil [] u n = absurd cc
append-is_nil (c ∷ t) u n = refl

replace_first-is_nil :
    (c : ℕ) (s old new : Text) → is_nil new ≡ false → is_nil (replace_first (c ∷ s) old new) ≡ false
unfolding replace_first
replace_first-is_nil c s old new n = elim (Bool-cases (has_prefix (c ∷ s) old)) [
  | inl e ↦ rw e (append-is_nil new (drop (length old) (c ∷ s)) n)
  | inr e ↦ rw e refl
]

replace_first-ends :
    (s old new : Text)
    → ends_in_dot s ≡ false
    → ends_in_dot new ≡ false
    → is_nil new ≡ false
    → ends_in_dot (replace_first s old new) ≡ false
unfolding replace_first ends_in_dot
replace_first-ends [] old new h k n = elim (Bool-cases (has_prefix [] old)) [
  | inl e ↦ rw e k
  | inr e ↦ rw e refl
]
replace_first-ends (c ∷ []) old new h k n = elim (Bool-cases (has_prefix (c ∷ []) old)) [
  | inl e ↦ rw e (
      ends_in_dot-append new (drop (length old) (c ∷ [])) k
        (ends_in_dot-drop (length old) (c ∷ []) h))
  | inr e ↦ elim (Bool-cases (has_prefix [] old)) [
    | inl f ↦ rw (e, f) (ends_in_dot-tail c new n k)
    | inr f ↦ rw (e, f) h
  ]
]
replace_first-ends (c ∷ d ∷ s) old new h k n = elim (Bool-cases (has_prefix (c ∷ d ∷ s) old)) [
  | inl e ↦ rw e (
      ends_in_dot-append new (drop (length old) (c ∷ d ∷ s)) k
        (ends_in_dot-drop (length old) (c ∷ d ∷ s) h))
  | inr e ↦ rw e (
      ends_in_dot-tail c (replace_first (d ∷ s) old new) (replace_first-is_nil d s old new n)
        (replace_first-ends (d ∷ s) old new h k n))
]

-- a name that is not the root and does not end in a dot
abbrev pub IsPlain : Text → Type 0
IsPlain name = has_suffix name dot ≡ false

pub IsPlain-IsDottable : (name : Text) → IsPlain name → IsDottable name
IsPlain-IsDottable name h = ground (arith, h)

-- the target of an alias, without its final dot, is such a name and not the root
abbrev AimsWell : Answer → Type 0
AimsWell a = (is_nil (trim_suffix a.answer dot) ≡ false) × IsPlain (trim_suffix a.answer dot)

abbrev pub AreAimed : Text × List Answer → Type 0
AreAimed e = All AimsWell e.1

target_name-IsPlain : (a : Answer) → AimsWell a → IsPlain (target_name a)
unfolding target_name
target_name-IsPlain a (_, h) =
    let t = trim_suffix a.answer dot in
    has_suffix-dot (to_lower t) ∙ ends_in_dot-to_lower t ∙ sym (has_suffix-dot t) ∙ h

answers_at-aimed : (m : AnswerMap) (name : Text) → All AreAimed m → All AimsWell (answers_at m name)
unfolding answers_at
answers_at-aimed [] name h = tt
answers_at-aimed (e ∷ m) name (h, hs) = elim (Bool-cases (text_eq e.0 name)) [
  | inl x ↦ rw (answers_at, x) h
  | inr x ↦ rw (answers_at, x) (answers_at-aimed m name hs)
]

All-snoc :
    (xs : List Answer) (a : Answer) → All AimsWell xs → AimsWell a → All AimsWell (xs ++ a ∷ [])
All-snoc [] a h w = (w, tt)
All-snoc (x ∷ xs) a (h, hs) w = (h, All-snoc xs a hs w)

append_at-aimed :
    (m : AnswerMap) (name : Text) (a : Answer)
    → All AreAimed m
    → AimsWell a
    → All AreAimed (append_at m name a)
unfolding append_at
append_at-aimed [] name a h w = ((w, tt), tt)
append_at-aimed (e ∷ m) name a (h, hs) w = elim (Bool-cases (text_eq e.0 name)) [
  | inl x ↦ rw (append_at, x) (All-snoc e.1 a h w, hs)
  | inr x ↦ rw (append_at, x) (h, append_at-aimed m name a hs w)
]

-- the first answer of a CNAME
pub cname-IsPlain :
    (m : AnswerMap) (name : Text) (a : Answer) (l : List Answer)
    → All AreAimed m
    → answers_at m name ≡ a ∷ l
    → IsPlain (target_name a)
cname-IsPlain m name a l h e =
    target_name-IsPlain a (subst (All AimsWell) e (answers_at-aimed m name h)).0

pub apply_dname-IsPlain :
    (m : AnswerMap) (name next : Text)
    → All AreAimed m
    → IsPlain name
    → apply_dname m name ≡ some next
    → IsPlain next
unfolding apply_dname
apply_dname-IsPlain [] name next h p e = absurd cc
apply_dname-IsPlain ((key, []) ∷ m) name next (h, hs) p e = elim (Bool-cases (contains name key)) [
  | inl x ↦ let same : name ≡ next = ground (arith, e, x) in subst IsPlain same p
  | inr x ↦ apply_dname-IsPlain m name next hs p (ground (arith, e, x))
]
apply_dname-IsPlain ((key, a ∷ l) ∷ m) name next ((aimed, _), hs) p e =
    let t = trim_suffix a.answer dot in
    elim (Bool-cases (contains name key)) [
      | inl x ↦
          let same : replace_first name key t ≡ next = ground (arith, e, x) in
          subst IsPlain same (
            has_suffix-dot (replace_first name key t)
            ∙ replace_first-ends name key t (sym (has_suffix-dot name) ∙ p)
                (sym (has_suffix-dot t) ∙ aimed.1) aimed.0)
      | inr x ↦ apply_dname-IsPlain m name next hs p (ground (arith, e, x))
    ]

module _ (parse_ip : Text → Option (List ℕ)) (string_to_type : Text → ℕ) where
  -- a CNAME or DNAME aims well
  abbrev pub LeadsWell : AnyAnswer → Type 0
  LeadsWell x = elim (as_answer x) [
    | none ↦ Unit
    | some a ↦
        (string_to_type a.type == type_cname || string_to_type a.type == type_dname) ≡ true
        → AimsWell a
  ]

  abbrev pub AreSetsAimed : AnswerSets → Type 0
  AreSetsAimed s = All AreAimed s.cnames × All AreAimed s.dnames

  populate_answer-aimed :
      (dns_type : ℕ) (s : AnswerSets) (a : Answer)
      → ((string_to_type a.type == type_cname || string_to_type a.type == type_dname) ≡ true
          → AimsWell a)
      → AreSetsAimed s
      → AreSetsAimed (populate_answer parse_ip string_to_type dns_type s a)
  unfolding populate_answer
  populate_answer-aimed dns_type s a w (cnames, dnames) =
      let type = string_to_type a.type in
      elim (Bool-cases (verify_address parse_ip a.type a.answer)) [
        | inr v ↦ rw (populate_answer, v) (cnames, dnames)
        | inl v ↦ elim (Bool-cases (dns_type == type)) [
          | inl x ↦ rw (populate_answer, v, x) (cnames, dnames)
          | inr x ↦ elim (Bool-cases (type == type_cname)) [
            | inl y ↦
                rw (populate_answer, v, x, y)
                  (append_at-aimed s.cnames (filed_name a) a cnames (w (ground (arith, y))), dnames)
            | inr y ↦ elim (Bool-cases (type == type_dname)) [
              | inl z ↦
                  rw (populate_answer, v, x, y, z)
                    (
                      cnames,
                      append_at-aimed s.dnames (filed_name a) a dnames (w (ground (arith, z))),
                    )
              | inr z ↦ rw (populate_answer, v, x, y, z) (cnames, dnames)
            ]
          ]
        ]
      ]

  pub populate_results-aimed :
      (xs : List AnyAnswer) (dns_type : ℕ) (s : AnswerSets)
      → All LeadsWell xs
      → AreSetsAimed s
      → AreSetsAimed (populate_results parse_ip string_to_type xs dns_type s)
  unfolding populate_results
  populate_results-aimed [] dns_type s h aimed = aimed
  populate_results-aimed (x ∷ xs) dns_type s (h, hs) aimed = elim (Option-cases (as_answer x)) [
    | inl e ↦ rw (populate_results, e) (populate_results-aimed xs dns_type s hs aimed)
    | inr (a, e) ↦
        rw (populate_results, e)
          (populate_results-aimed xs dns_type (populate_answer parse_ip string_to_type dns_type s a)
            hs
            (populate_answer-aimed dns_type s a
              (subst
                (λ o. elim o [
                  | none ↦ Unit
                  | some b ↦
                      (string_to_type b.type == type_cname || string_to_type b.type == type_dname)
                        ≡ true
                      → AimsWell b
                ])
                e h)
              aimed))
  ]
