-- ===== src/Cache/Poison.antt =====
-- The test for poison: which records may not be cached for a layer.
use mathlib.Core.Path.{subst}
use zdns.Prelude.{
  ◌≡◌, ◌↔◌, ◌⊎◌, inl, inr, refl, false, not, ◌&&◌, some, List, [], ◌∷◌, arith, All, Option-cases,
  Bool-cases, Text, codes, text_eq, to_lower,
}
use zdns.Prelude.StringLaws.{text_eq_iff}
use zdns.Names.{dot, name_is_beneath}
use zdns.Names.Beneath.{IsBeneath, canonical, name_is_beneath_iff}
use zdns.Records.{Answer, AnyAnswer, base_ans}
use zdns.Cache.Build.{is_poison, has_poison}

-- the name of the record lies in the layer
abbrev pub IsInLayer : Text → Answer → Type 0
IsInLayer layer a = (to_lower layer ≡ dot) ⊎ IsBeneath (canonical a.name) (to_lower layer)

-- what is cached of a value with a base answer is in the layer, or an NSEC3 record
abbrev pub IsClean : Text → AnyAnswer → Type 0
IsClean layer x = (a : Answer) → base_ans x ≡ some a → IsInLayer layer a ⊎ (a.type ≡ codes "NSEC3")

clean_answer :
    (layer : Text) (a : Answer)
    → (not (name_is_beneath a.name layer).0 && not (text_eq a.type (codes "NSEC3"))) ≡ false
    → IsInLayer layer a ⊎ (a.type ≡ codes "NSEC3")
clean_answer layer a h = elim (Bool-cases (name_is_beneath a.name layer).0) [
  | inl q ↦ inl ((name_is_beneath_iff a.name layer).0.0 q)
  | inr q ↦ inr ((text_eq_iff a.type (codes "NSEC3")).0 (ground arith))
]

is_poison_iff : (layer : Text) (x : AnyAnswer) → (is_poison layer x ≡ false) ↔ IsClean layer x
unfolding is_poison
is_poison_iff layer x = elim (Option-cases (base_ans x)) [
  | inl e ↦ (λ _ a p. cc, λ _. ground arith)
  | inr (a, e) ↦ (
    λ h b p.
        let q : a ≡ b = ground (arith, e, p) in
        subst (λ (t : Answer). IsInLayer layer t ⊎ (t.type ≡ codes "NSEC3")) q
          (clean_answer layer a (ground arith)),
    λ h. elim (h a e) [
      | inl l ↦ ground (arith, (name_is_beneath_iff a.name layer).0.1 l)
      | inr t ↦ ground (arith, (text_eq_iff a.type (codes "NSEC3")).1 t)
    ],
  )
]

-- A list passes the test exactly when every record in it is clean.
pub has_poison_iff :
    (layer : Text) (xs : List AnyAnswer) → (has_poison layer xs ≡ false) ↔ All (IsClean layer) xs
unfolding has_poison
has_poison_iff layer [] = (λ _. tt, λ _. refl)
has_poison_iff layer (x ∷ xs) = (
  λ h. ((is_poison_iff layer x).0 (ground arith), (has_poison_iff layer xs).0 (ground arith)),
  λ h. ground (arith, (is_poison_iff layer x).1 h.0, (has_poison_iff layer xs).1 h.1),
)
