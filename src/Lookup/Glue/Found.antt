-- ===== src/Lookup/Glue/Found.antt =====
-- Which glue `checkGlue` finds.
use zdns.Prelude.{
  ◌≡◌, ◌⊎◌, inl, inr, refl, ap, ◌∙◌, true, none, some, List, [], ◌∷◌, ◌++◌, arith, All, Bool-cases,
  Text, codes, text_eq, to_lower, trim_suffix, equal_fold,
}
use zdns.Prelude.StringLaws.{text_eq_iff}
use zdns.Names.{dot}
use zdns.Records.{
  Status, Answer, AnyAnswer, typed, opaque, as_answer, SingleQueryResult, empty_result,
}
use zdns.Records.NameServers.{IpVersionMode, IterationIpPreference}
use zdns.Lookup.Glue.{is_glue, find_glue, check_glue_helper, first_type, is_dual, check_glue}

-- the record names the server, whatever the case and a trailing dot, and has the type
pub record IsGlue (server ans_type : Text) (a : Answer) : Type 0 where
  pub type_eq : a.type ≡ ans_type
  pub names : to_lower (trim_suffix a.name dot) ≡ to_lower server

is_glue-IsGlue :
    (server ans_type : Text) (a : Answer)
    → is_glue server ans_type a ≡ true
    → IsGlue server ans_type a
unfolding is_glue equal_fold
is_glue-IsGlue server ans_type a h = record {
  type_eq = (text_eq_iff a.type ans_type).0 (ground arith);
  names = (text_eq_iff (to_lower (trim_suffix a.name dot)) (to_lower server)).0 (ground arith);
}

IsGlue-is_glue :
    (server ans_type : Text) (a : Answer)
    → IsGlue server ans_type a
    → is_glue server ans_type a ≡ true
unfolding is_glue equal_fold
IsGlue-is_glue server ans_type a h = ground (
  arith,
  (text_eq_iff a.type ans_type).1 h.type_eq,
  (text_eq_iff (to_lower (trim_suffix a.name dot)) (to_lower server)).1 h.names,
)

-- no plain record of the list is glue
abbrev pub HasNoGlue : Text → Text → List AnyAnswer → Type 0
HasNoGlue server ans_type xs =
    All (λ x. (a : Answer) → as_answer x ≡ some a → ¬ IsGlue server ans_type a) xs

-- the first plain record of the list that is glue
pub record IsFirstGlue (server ans_type : Text) (xs : List AnyAnswer) (a : Answer) : Type 0 where
  pub before : List AnyAnswer
  pub after : List AnyAnswer
  pub place : xs ≡ before ++ AnyAnswer.answer a ∷ after
  pub none_before : HasNoGlue server ans_type before
  pub glue : IsGlue server ans_type a

IsFirstGlue-cons :
    (server ans_type : Text) (x : AnyAnswer) (xs : List AnyAnswer) (a : Answer)
    → ((b : Answer) → as_answer x ≡ some b → ¬ IsGlue server ans_type b)
    → IsFirstGlue server ans_type xs a
    → IsFirstGlue server ans_type (x ∷ xs) a
IsFirstGlue-cons server ans_type x xs a not_x h = record {
  before = x ∷ h.before;
  after = h.after;
  place = ap (λ l. x ∷ l) h.place;
  none_before = (not_x, h.none_before);
  glue = h.glue;
}

abbrev FindsGlue : Text → Text → List AnyAnswer → Type 0
FindsGlue server ans_type xs =
    ((find_glue server ans_type xs ≡ none) × HasNoGlue server ans_type xs)
    ⊎ ((a : Answer) × (find_glue server ans_type xs ≡ some a) × IsFirstGlue server ans_type xs a)

FindsGlue-skip :
    (server ans_type : Text) (x : AnyAnswer) (xs : List AnyAnswer)
    → find_glue server ans_type (x ∷ xs) ≡ find_glue server ans_type xs
    → ((b : Answer) → as_answer x ≡ some b → ¬ IsGlue server ans_type b)
    → FindsGlue server ans_type xs
    → FindsGlue server ans_type (x ∷ xs)
FindsGlue-skip server ans_type x xs e not_x (inl (f, h)) = inl (e ∙ f, (not_x, h))
FindsGlue-skip server ans_type x xs e not_x (inr (a, f, h)) =
    inr (a, e ∙ f, IsFirstGlue-cons server ans_type x xs a not_x h)

find_glue_lem : (server ans_type : Text) (xs : List AnyAnswer) → FindsGlue server ans_type xs
unfolding find_glue as_answer
find_glue_lem server ans_type [] = inl (refl, tt)
find_glue_lem server ans_type (typed k b r ∷ xs) =
    FindsGlue-skip server ans_type (typed k b r) xs refl (λ a e. cc)
      (find_glue_lem server ans_type xs)
find_glue_lem server ans_type (opaque r ∷ xs) =
    FindsGlue-skip server ans_type (opaque r) xs refl (λ a e. cc) (find_glue_lem server ans_type xs)
find_glue_lem server ans_type (AnyAnswer.answer b ∷ xs) =
    elim (Bool-cases (is_glue server ans_type b)) [
      | inl q ↦ inr (
        b,
        ground arith,
        record {
          before = [];
          after = xs;
          place = refl;
          none_before = tt;
          glue = is_glue-IsGlue server ans_type b q;
        },
      )
      | inr q ↦
          FindsGlue-skip server ans_type (AnyAnswer.answer b) xs (ground arith)
            (λ a e g. let same : b ≡ a = cc in let f = IsGlue-is_glue server ans_type a g in cc)
            (find_glue_lem server ans_type xs)
    ]

abbrev pub glue_result : Answer → SingleQueryResult
glue_result a = record empty_result { answers = AnyAnswer.answer a ∷ [] }

-- the type that is looked for second, if both are wanted
abbrev pub other_type : IterationIpPreference → Text
other_type IterationIpPreference.prefer_ipv4 = codes "AAAA"
other_type IterationIpPreference.prefer_ipv6 = codes "A"

check_glue_second :
    (server : Text) (res : SingleQueryResult) (mode : IpVersionMode)
    (preference : IterationIpPreference)
    → is_dual mode ≡ true
    → find_glue server (first_type mode preference) res.additionals ≡ none
    → check_glue server res mode preference ≡ check_glue_helper server (other_type preference) res
unfolding check_glue check_glue_helper is_dual first_type text_eq
check_glue_second server res IpVersionMode.ipv4_only preference d e = absurd cc
check_glue_second server res IpVersionMode.ipv6_only preference d e = absurd cc
check_glue_second server res IpVersionMode.ipv4_or_ipv6 IterationIpPreference.prefer_ipv4 d e =
    ground (arith, e)
check_glue_second server res IpVersionMode.ipv4_or_ipv6 IterationIpPreference.prefer_ipv6 d e =
    ground (arith, e)

-- With one IP version, `checkGlue` returns the first additional record that is glue of its type; with
-- both, the first of the preferred type or else the first of the other. If there is none it fails.
pub check_glue_lem :
    (server : Text) (res : SingleQueryResult) (mode : IpVersionMode)
    (preference : IterationIpPreference)
    → ((a : Answer) × (check_glue server res mode preference
          ≡ (some (glue_result a), Status.no_error))
        × IsFirstGlue server (first_type mode preference) res.additionals a)
      ⊎ ((a : Answer) × (check_glue server res mode preference
            ≡ (some (glue_result a), Status.no_error))
          × (is_dual mode ≡ true)
          × HasNoGlue server (first_type mode preference) res.additionals
          × IsFirstGlue server (other_type preference) res.additionals a)
      ⊎ ((check_glue server res mode preference ≡ (none, Status.error))
          × HasNoGlue server (first_type mode preference) res.additionals
          × (is_dual mode ≡ true → HasNoGlue server (other_type preference) res.additionals))
unfolding check_glue check_glue_helper
check_glue_lem server res mode preference =
    elim (find_glue_lem server (first_type mode preference) res.additionals) [
      | inr (a, e, h) ↦ inl (a, ground arith, h)
      | inl (e, h) ↦ elim (Bool-cases (is_dual mode)) [
        | inr d ↦ inr (inr (ground arith, h, λ f. absurd cc))
        | inl d ↦ elim (find_glue_lem server (other_type preference) res.additionals) [
          | inr (a, f, g) ↦
              inr
                (inl (a, check_glue_second server res mode preference d e ∙ ground arith, d, h, g))
          | inl (f, g) ↦
              inr (inr (check_glue_second server res mode preference d e ∙ ground arith, h, λ _. g))
        ]
      ]
    ]
