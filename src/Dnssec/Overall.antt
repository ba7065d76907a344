-- ===== src/Dnssec/Overall.antt =====
-- What the overall status of a response says of the status of each set of records.
use zdns.Prelude.{
  ◌≡◌, ◌≢◌, ◌⊎◌, inl, inr, refl, sym, ap, ◌∙◌, true, false, none, some, List, [], ◌∷◌, ◌++◌, Text,
  arith, All, Option-cases, Bool-cases,
}
use zdns.Records.{DnssecStatus, DnssecPerSetResult, DnssecResult}
use zdns.Dnssec.{
  is_dnssec_type, first_bogus, Scan, scan_answers, scan_indeterminate, scan_others, populate_status,
}

abbrev pub IsNotBogus : DnssecPerSetResult → Type 0
IsNotBogus x = x.status ≢ DnssecStatus.bogus

abbrev pub IsSigned : DnssecPerSetResult → Type 0
IsSigned x = is_dnssec_type x.rrset.type ≡ true → x.status ≢ DnssecStatus.insecure

status-cases :
    (s : DnssecStatus)
    → (s ≡ DnssecStatus.secure)
      ⊎ (s ≡ DnssecStatus.insecure)
      ⊎ (s ≡ DnssecStatus.bogus)
      ⊎ (s ≡ DnssecStatus.indeterminate)
status-cases DnssecStatus.secure = inl refl
status-cases DnssecStatus.insecure = inr (inl refl)
status-cases DnssecStatus.bogus = inr (inr (inl refl))
status-cases DnssecStatus.indeterminate = inr (inr (inr refl))

first_bogus-cons :
    (x : DnssecPerSetResult) (xs : List DnssecPerSetResult)
    → IsNotBogus x
    → first_bogus (x ∷ xs) ≡ first_bogus xs
unfolding first_bogus
first_bogus-cons x xs h = elim (status-cases x.status) [
  | inl e ↦ ground arith
  | inr (inl e) ↦ ground arith
  | inr (inr (inl e)) ↦ absurd (h e)
  | inr (inr (inr e)) ↦ ground arith
]

first_bogus-head :
    (x : DnssecPerSetResult) (xs : List DnssecPerSetResult)
    → x.status ≡ DnssecStatus.bogus
    → first_bogus (x ∷ xs) ≡ some x.error
unfolding first_bogus
first_bogus-head x xs e = ground arith

first_bogus-IsNotBogus : (xs : List DnssecPerSetResult) → All IsNotBogus xs → first_bogus xs ≡ none
unfolding first_bogus
first_bogus-IsNotBogus [] h = refl
first_bogus-IsNotBogus (x ∷ xs) h = first_bogus-cons x xs h.0 ∙ first_bogus-IsNotBogus xs h.1

IsNotBogus-first_bogus : (xs : List DnssecPerSetResult) → first_bogus xs ≡ none → All IsNotBogus xs
IsNotBogus-first_bogus [] h = tt
IsNotBogus-first_bogus (x ∷ xs) h =
    let ne : IsNotBogus x = λ e. let f = first_bogus-head x xs e in cc in
    (ne, IsNotBogus-first_bogus xs (sym (first_bogus-cons x xs ne) ∙ h))

-- the answers, from a status that is not secure
scan_answers_unsure :
    (reason : Text) (xs : List DnssecPerSetResult)
    → (((scan_answers DnssecStatus.indeterminate reason xs).returned ≡ true)
        × ((scan_answers DnssecStatus.indeterminate reason xs).status ≡ DnssecStatus.bogus))
      ⊎ (((scan_answers DnssecStatus.indeterminate reason xs).returned ≡ false)
          × ((scan_answers DnssecStatus.indeterminate reason xs).status
              ≡ DnssecStatus.indeterminate))
unfolding scan_answers
scan_answers_unsure reason [] = inr (refl, refl)
scan_answers_unsure reason (x ∷ xs) = elim (status-cases x.status) [
  | inl e ↦ ground (arith, scan_answers_unsure reason xs)
  | inr (inl e) ↦ ground arith
  | inr (inr (inl e)) ↦ ground (arith, scan_answers_unsure reason xs)
  | inr (inr (inr e)) ↦ ground (arith, scan_answers_unsure x.error xs)
]

-- neither insecure nor indeterminate
abbrev pub IsSure : DnssecPerSetResult → Type 0
IsSure x = (x.status ≢ DnssecStatus.insecure) × (x.status ≢ DnssecStatus.indeterminate)

abbrev pub IsUnsafe : DnssecStatus → Type 0
IsUnsafe s = (s ≡ DnssecStatus.bogus) ⊎ (s ≡ DnssecStatus.indeterminate)

scan_answers_lem :
    (reason : Text) (xs : List DnssecPerSetResult)
    → (((scan_answers DnssecStatus.secure reason xs).returned ≡ false)
        × ((scan_answers DnssecStatus.secure reason xs).status ≡ DnssecStatus.secure)
        × All IsSure xs)
      ⊎ (((scan_answers DnssecStatus.secure reason xs).returned ≡ true)
          × ((scan_answers DnssecStatus.secure reason xs).status ≡ DnssecStatus.bogus)
          × ¬ All IsSure xs)
      ⊎ (((scan_answers DnssecStatus.secure reason xs).returned ≡ false)
          × ((scan_answers DnssecStatus.secure reason xs).status ≡ DnssecStatus.indeterminate)
          × ¬ All IsSure xs)
unfolding scan_answers
scan_answers_lem reason [] = inl (refl, refl, tt)
scan_answers_lem reason (x ∷ xs) = elim (status-cases x.status) [
  | inl e ↦ elim (scan_answers_lem reason xs) [
    | inl (r, s, h) ↦ inl (ground arith, ground arith, ((λ f. cc, λ f. cc), h))
    | inr (inl (r, s, n)) ↦ inr (inl (ground arith, ground arith, λ h. n h.1))
    | inr (inr (r, s, n)) ↦ inr (inr (ground arith, ground arith, λ h. n h.1))
  ]
  | inr (inr (inl e)) ↦ elim (scan_answers_lem reason xs) [
    | inl (r, s, h) ↦ inl (ground arith, ground arith, ((λ f. cc, λ f. cc), h))
    | inr (inl (r, s, n)) ↦ inr (inl (ground arith, ground arith, λ h. n h.1))
    | inr (inr (r, s, n)) ↦ inr (inr (ground arith, ground arith, λ h. n h.1))
  ]
  | inr (inl e) ↦ inr (inl (ground arith, ground arith, λ h. h.0.0 e))
  | inr (inr (inr e)) ↦ elim (scan_answers_unsure x.error xs) [
    | inl (r, s) ↦ inr (inl (ground arith, ground arith, λ h. h.0.1 e))
    | inr (r, s) ↦ inr (inr (ground arith, ground arith, λ h. h.0.1 e))
  ]
]

-- a set that the loop over the other sections passes over while the status is secure
scan_others-cons :
    (reason : Text) (x : DnssecPerSetResult) (xs : List DnssecPerSetResult)
    → IsSigned x
    → scan_others DnssecStatus.secure reason (x ∷ xs) ≡ scan_others DnssecStatus.secure reason xs
unfolding scan_others scan_indeterminate
scan_others-cons reason x xs h = elim (Bool-cases (is_dnssec_type x.rrset.type)) [
  | inr q ↦ ground arith
  | inl q ↦ elim (status-cases x.status) [
    | inl e ↦ ground arith
    | inr (inl e) ↦ absurd (h q e)
    | inr (inr (inl e)) ↦ ground arith
    | inr (inr (inr e)) ↦ ground arith
  ]
]

IsSigned-cases :
    (x : DnssecPerSetResult)
    → IsSigned x ⊎ ((is_dnssec_type x.rrset.type ≡ true) × (x.status ≡ DnssecStatus.insecure))
IsSigned-cases x = elim (Bool-cases (is_dnssec_type x.rrset.type)) [
  | inr q ↦ inl (λ f. absurd cc)
  | inl q ↦ elim (status-cases x.status) [
    | inl e ↦ inl (λ _ f. cc)
    | inr (inl e) ↦ inr (q, e)
    | inr (inr (inl e)) ↦ inl (λ _ f. cc)
    | inr (inr (inr e)) ↦ inl (λ _ f. cc)
  ]
]

scan_others_lem :
    (reason : Text) (xs : List DnssecPerSetResult)
    → (((scan_others DnssecStatus.secure reason xs).status ≡ DnssecStatus.secure) × All IsSigned xs)
      ⊎ (((scan_others DnssecStatus.secure reason xs).status ≡ DnssecStatus.bogus)
          × ¬ All IsSigned xs)
unfolding scan_others
scan_others_lem reason [] = inl (refl, tt)
scan_others_lem reason (x ∷ xs) = elim (IsSigned-cases x) [
  | inr (q, e) ↦ inr (ground arith, λ h. h.0 q e)
  | inl s ↦
      let same = ap (λ (c : Scan). c.status) (scan_others-cons reason x xs s) in
      elim (scan_others_lem reason xs) [
        | inl (e, h) ↦ inl (same ∙ e, (s, h))
        | inr (e, n) ↦ inr (same ∙ e, λ h. n h.1)
      ]
]

scan_others_unsure :
    (reason : Text) (xs : List DnssecPerSetResult)
    → IsUnsafe (scan_others DnssecStatus.indeterminate reason xs).status
unfolding scan_others scan_indeterminate
scan_others_unsure reason [] = inr refl
scan_others_unsure reason (x ∷ xs) = elim (Bool-cases (is_dnssec_type x.rrset.type)) [
  | inr q ↦ ground (arith, scan_others_unsure reason xs)
  | inl q ↦ elim (status-cases x.status) [
    | inl e ↦ ground (arith, scan_others_unsure reason xs)
    | inr (inl e) ↦ inl (ground arith)
    | inr (inr (inl e)) ↦ ground (arith, scan_others_unsure reason xs)
    | inr (inr (inr e)) ↦ inr (ground arith)
  ]
]

-- no set is bogus, those of the answers are sure, and those of DNSSEC types elsewhere are signed
pub record IsSecure (r : DnssecResult) : Type 0 where
  pub not_bogus : All IsNotBogus (r.answers ++ r.additionals ++ r.authorities)
  pub sure : All IsSure r.answers
  pub signed : All IsSigned (r.additionals ++ r.authorities)

-- The overall status is secure exactly if no set is bogus, no set of the answers is insecure or
-- indeterminate, and no set of a DNSSEC type in the other sections is insecure. Otherwise it is bogus
-- or indeterminate, never insecure.
pub populate_status_lem :
    (r : DnssecResult)
    → (((populate_status r).status ≡ DnssecStatus.secure) × IsSecure r)
      ⊎ (IsUnsafe (populate_status r).status × ¬ IsSecure r)
unfolding populate_status
populate_status_lem r =
    elim (Option-cases (first_bogus (r.answers ++ r.additionals ++ r.authorities))) [
      | inr (error, e) ↦ inr (
        inl (ground arith),
        λ h.
            let f =
              first_bogus-IsNotBogus (r.answers ++ r.additionals ++ r.authorities) h.not_bogus in
            cc,
      )
      | inl e ↦ elim (scan_answers_lem r.reason r.answers) [
        | inr (inl (t, s, n)) ↦ inr (inl (ground arith), λ h. n h.sure)
        | inr (inr (t, s, n)) ↦ inr (
          ground (
            arith,
            scan_others_unsure (scan_answers DnssecStatus.secure r.reason r.answers).reason
                (r.additionals ++ r.authorities),
          ),
          λ h. n h.sure,
        )
        | inl (t, s, h) ↦
            elim (scan_others_lem (scan_answers DnssecStatus.secure r.reason r.answers).reason
              (r.additionals ++ r.authorities)) [
                | inl (u, signed) ↦ inl (
                  ground arith,
                  record {
                    not_bogus =
                        IsNotBogus-first_bogus (r.answers ++ r.additionals ++ r.authorities) e;
                    sure = h;
                    signed = signed;
                  },
                )
                | inr (u, n) ↦ inr (inl (ground arith), λ q. n q.signed)
              ]
      ]
    ]

-- A bogus set, in any section, makes the whole bogus, with the error of the first such set.
pub populate_status_bogus :
    (r : DnssecResult) (xs ys : List DnssecPerSetResult) (x : DnssecPerSetResult)
    → r.answers ++ r.additionals ++ r.authorities ≡ xs ++ x ∷ ys
    → All IsNotBogus xs
    → x.status ≡ DnssecStatus.bogus
    → populate_status r ≡ record r { status = DnssecStatus.bogus; reason = x.error }
unfolding populate_status
populate_status_bogus r xs ys x e h b = ground (arith, e, first_bogus-append xs ys x h b)
  where
    first_bogus-append :
        (xs ys : List DnssecPerSetResult) (x : DnssecPerSetResult)
        → All IsNotBogus xs
        → x.status ≡ DnssecStatus.bogus
        → first_bogus (xs ++ x ∷ ys) ≡ some x.error
    first_bogus-append [] ys x h b = first_bogus-head x ys b
    first_bogus-append (z ∷ xs) ys x h b =
        first_bogus-cons z (xs ++ x ∷ ys) h.0 ∙ first_bogus-append xs ys x h.1 b
