-- ===== src/Names/Beneath.antt =====
-- `nameIsBeneath` of src/zdns/util.go, on labels.
use zdns.Prelude.{
  ◌≡◌, ◌↔◌, ◌⊎◌, inl, inr, sym, ap, ◌∙◌, true, List, [], ◌∷◌, ◌++◌, ◌||◌, arith, Text, text_eq,
  to_lower, has_suffix, trim_suffix, if◌then◌else◌, Bool-cases,
}
use zdns.Prelude.StringLaws.{text_eq_iff, has_suffix-append, append_of-has_suffix}
use zdns.Names.{dot, name_is_beneath}
use zdns.Names.Labels.{labels, join, labels-ne-nil, labels-append, join-labels, join-append}

-- the labels of the layer are the last labels of the name
abbrev pub IsBeneath : Text → Text → Type 0
IsBeneath name layer = (pre : List Text) × (labels name ≡ pre ++ labels layer)

-- the name as it is compared
abbrev pub canonical : Text → Text
canonical name = trim_suffix (to_lower name) dot

IsBeneath-text :
    (name layer : Text)
    → IsBeneath name layer
    → (name ≡ layer) ⊎ ((p : Text) × (name ≡ p ++ b'.' ∷ layer))
IsBeneath-text name layer ([], e) = inl (sym (join-labels name) ∙ ap join e ∙ join-labels layer)
IsBeneath-text name layer (l ∷ pre, e) = inr (
  join (l ∷ pre),
  sym (join-labels name)
      ∙ ap join e
      ∙ join-append (l ∷ pre) (labels layer) (λ q. cc) (labels-ne-nil layer)
      ∙ ap (λ t. join (l ∷ pre) ++ b'.' ∷ t) (join-labels layer),
)

text-IsBeneath : (name layer p : Text) → name ≡ p ++ b'.' ∷ layer → IsBeneath name layer
text-IsBeneath name layer p e = (labels p, ap labels e ∙ labels-append p layer)

-- the test on the two texts
IsBeneath-iff :
    (name layer : Text)
    → ((has_suffix name (dot ++ layer) || text_eq name layer) ≡ true) ↔ IsBeneath name layer
IsBeneath-iff name layer = (there, back)
  where
    there : (has_suffix name (dot ++ layer) || text_eq name layer) ≡ true → IsBeneath name layer
    there h = elim (Bool-cases (has_suffix name (dot ++ layer))) [
      | inl e ↦ text-IsBeneath name layer _ (append_of-has_suffix name (dot ++ layer) e)
      | inr e ↦ ([], ap labels ((text_eq_iff name layer).0 (ground arith)))
    ]

    back : IsBeneath name layer → (has_suffix name (dot ++ layer) || text_eq name layer) ≡ true
    back b = elim (IsBeneath-text name layer b) [
      | inl e ↦ ground (arith, (text_eq_iff name layer).1 e)
      | inr (p, e) ↦ ground (arith, has_suffix-append p (dot ++ layer), e)
    ]

-- Every name is beneath the root; beneath any other layer is a name exactly when its labels, in
-- lower case and without a trailing dot, end with the labels of the layer in lower case. The name
-- that is returned is then that one, and otherwise empty.
pub name_is_beneath_iff :
    (name layer : Text)
    → (((name_is_beneath name layer).0 ≡ true)
        ↔ ((to_lower layer ≡ dot) ⊎ IsBeneath (canonical name) (to_lower layer)))
      × ((name_is_beneath name layer).1
          ≡ (if (name_is_beneath name layer).0 then canonical name else []))
unfolding name_is_beneath
name_is_beneath_iff name layer = ((there, back), ground arith)
  where
    root : (text_eq (to_lower layer) dot ≡ true) ↔ (to_lower layer ≡ dot)
    root = text_eq_iff (to_lower layer) dot

    test :
        ((has_suffix (canonical name) (dot ++ to_lower layer)
            || text_eq (canonical name) (to_lower layer))
          ≡ true)
        ↔ IsBeneath (canonical name) (to_lower layer)
    test = IsBeneath-iff (canonical name) (to_lower layer)

    there :
        (name_is_beneath name layer).0 ≡ true
        → (to_lower layer ≡ dot) ⊎ IsBeneath (canonical name) (to_lower layer)
    there e = elim (Bool-cases (text_eq (to_lower layer) dot)) [
      | inl q ↦ inl (root.0 q)
      | inr q ↦ inr (test.0 (ground arith))
    ]

    back :
        (to_lower layer ≡ dot) ⊎ IsBeneath (canonical name) (to_lower layer)
        → (name_is_beneath name layer).0 ≡ true
    back d = elim d [ inl q ↦ ground (arith, root.1 q) | inr q ↦ ground (arith, test.1 q) ]
