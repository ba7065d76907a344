-- ===== src/Cache/Authorities.antt =====
-- The name that the authorities of a referral have.
use zdns.Prelude.{
  ◌<◌, ◌≡◌, ◌≢◌, ◌⊎◌, refl, sym, ap, ◌∙◌, none, some, List, [], ◌∷◌, arith, All, length, inl, inr,
  Bool-cases, Text, text_eq, to_lower,
}
use zdns.Prelude.StringLaws.{text_eq_iff}
use zdns.Records.{AnyAnswer, typed, opaque, as_answer}
use zdns.Cache.Build.{authority_name}

-- the names, in lower case, of the records that are plain answers
abbrev pub plain_names : List AnyAnswer → List Text
plain_names [] = []
plain_names (x ∷ xs) = elim (as_answer x) [
  | none ↦ plain_names xs
  | some a ↦ to_lower a.name ∷ plain_names xs
]

-- every plain answer has this name, or none
abbrev pub AreNamed : Text → List AnyAnswer → Type 0
AreNamed n xs = All (λ m. (m ≡ []) ⊎ (m ≡ n)) (plain_names xs)

pub authority_name-AreNamed :
    (name : Text) (xs : List AnyAnswer) (n : Text)
    → authority_name name xs ≡ some n
    → ((name ≡ []) ⊎ (name ≡ n)) × AreNamed n xs
unfolding authority_name as_answer
authority_name-AreNamed name [] n e = (inr cc, tt)
authority_name-AreNamed name (typed k a r ∷ xs) n e = authority_name-AreNamed name xs n e
authority_name-AreNamed name (opaque r ∷ xs) n e = authority_name-AreNamed name xs n e
authority_name-AreNamed [] (AnyAnswer.answer a ∷ xs) n e =
    (inl refl, authority_name-AreNamed (to_lower a.name) xs n e)
authority_name-AreNamed (c ∷ name) (AnyAnswer.answer a ∷ xs) n e =
    elim (Bool-cases (text_eq (c ∷ name) (to_lower a.name))) [
      | inl q ↦
          let (p, h) = authority_name-AreNamed (c ∷ name) xs n (ground arith) in
          let same : c ∷ name ≡ to_lower a.name = (text_eq_iff (c ∷ name) (to_lower a.name)).0 q in
          (p, (elim p [ inl z ↦ absurd cc | inr z ↦ inr (sym same ∙ z) ], h))
      | inr q ↦ absurd (ground arith)
    ]

authority_name_same :
    (n : Text) (xs : List AnyAnswer)
    → n ≢ []
    → All (λ m. m ≡ n) (plain_names xs)
    → authority_name n xs ≡ some n
unfolding authority_name as_answer
authority_name_same n [] ne h = refl
authority_name_same n (typed k a r ∷ xs) ne h = authority_name_same n xs ne h
authority_name_same n (opaque r ∷ xs) ne h = authority_name_same n xs ne h
authority_name_same [] (AnyAnswer.answer a ∷ xs) ne h = absurd (ne refl)
authority_name_same (c ∷ n) (AnyAnswer.answer a ∷ xs) ne h = ground (
  arith,
  authority_name_same (c ∷ n) xs ne h.1,
  (text_eq_iff (c ∷ n) (to_lower a.name)).1 (sym h.0),
)

-- If all the plain answers have one name, that is the name of the authorities.
pub authority_name-plain_names :
    (n : Text) (xs : List AnyAnswer)
    → n ≢ []
    → 0 < length (plain_names xs)
    → All (λ m. m ≡ n) (plain_names xs)
    → authority_name [] xs ≡ some n
unfolding authority_name as_answer
authority_name-plain_names n [] ne pos h = elim pos [ ]
authority_name-plain_names n (typed k a r ∷ xs) ne pos h = authority_name-plain_names n xs ne pos h
authority_name-plain_names n (opaque r ∷ xs) ne pos h = authority_name-plain_names n xs ne pos h
authority_name-plain_names n (AnyAnswer.answer a ∷ xs) ne pos h =
    ap (λ m. authority_name m xs) h.0 ∙ authority_name_same n xs ne h.1
