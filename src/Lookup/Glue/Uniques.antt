-- ===== src/Lookup/Glue/Uniques.antt =====
-- `Unique`: what it keeps.
use zdns.Prelude.{
  ◌≡◌, inl, inr, refl, ap, true, false, not, ◌&&◌, List, [], ◌∷◌, arith, Bool-cases, Text, text_eq,
}
use zdns.Prelude.StringLaws.{text_eq_iff}
use zdns.Lookup.Glue.{is_seen, unique_from, unique}

-- no text occurs twice
abbrev pub AreDistinct : List Text → Type 0
AreDistinct [] = Unit
AreDistinct (v ∷ a) = (is_seen a v ≡ false) × AreDistinct a

is_seen-cong :
    (seen : List Text) (v w : Text) → text_eq v w ≡ true → is_seen seen v ≡ is_seen seen w
is_seen-cong seen v w e = ap (is_seen seen) ((text_eq_iff v w).0 e)

is_seen-unique_from :
    (seen a : List Text) (v : Text)
    → is_seen (unique_from seen a) v ≡ (is_seen a v && not (is_seen seen v))
unfolding unique_from is_seen
is_seen-unique_from seen [] v = refl
is_seen-unique_from seen (w ∷ a) v = elim (Bool-cases (text_eq w v)) [
  | inl e ↦ ground (
    arith,
    is_seen-cong seen w v e,
    is_seen-unique_from seen a v,
    is_seen-unique_from (w ∷ seen) a v,
  )
  | inr e ↦ ground (arith, is_seen-unique_from seen a v, is_seen-unique_from (w ∷ seen) a v)
]

text_eq_self : (v : Text) → text_eq v v ≡ true
text_eq_self v = (text_eq_iff v v).1 refl

unique_from-AreDistinct : (seen a : List Text) → AreDistinct (unique_from seen a)
unfolding unique_from is_seen
unique_from-AreDistinct seen [] = tt
unique_from-AreDistinct seen (w ∷ a) = elim (Bool-cases (is_seen seen w)) [
  | inl e ↦ ground (arith, unique_from-AreDistinct seen a)
  | inr e ↦ ground (
    arith,
    unique_from-AreDistinct (w ∷ seen) a,
    is_seen-unique_from (w ∷ seen) a w,
    text_eq_self w,
  )
]

-- `Unique` keeps each text of the slice, and keeps it once.
pub unique_lem :
    (a : List Text) → AreDistinct (unique a) × ((v : Text) → is_seen (unique a) v ≡ is_seen a v)
unfolding unique is_seen
unique_lem a = (unique_from-AreDistinct [] a, λ v. ground (arith, is_seen-unique_from [] a v))
