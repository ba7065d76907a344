-- ===== src/Validator/Judged.antt =====
-- `validateSection` of src/zdns/dnssec.go: the results for the RR sets of a section.
use zdns.Prelude.{
  ℕ, ◌≡◌, ◌⊎◌, inl, inr, refl, Option, none, some, List, [], ◌∷◌, arith, Among, All, Option-cases,
}
use zdns.Records.{Question, DnssecStatus, DnssecPerSetResult, TraceStep}
use zdns.Dnssec.Overall.{IsSure, IsNotBogus}
use zdns.Resolver.{Resolver}
use zdns.Validator.{
  Dnskey, Rrsig, Rr, Validating, LookUp, Fetched-cases, TagMap, SetMap, DnsLibrary,
}
use zdns.Validator.Sections.{
  set_at, split_rrsets_and_sigs, validate_rrsig, validate_set, validate_sets, validate_section,
}
use zdns.Validator.Signed.{IsVerified, validate_rrsig-IsVerified}

module _ {W : Type 0} (lib : DnsLibrary) (look_up : LookUp W) where
  -- A set without signatures is insecure. A set with signatures is bogus, or it is secure and one of
  -- them verifies it.
  abbrev pub IsJudged : Question → List Rr → Option (List Rrsig) → DnssecPerSetResult → Type 0
  IsJudged key rr_set none x = (x.rrset ≡ key) × (x.status ≡ DnssecStatus.insecure)
  IsJudged key rr_set (some sigs) x =
      (x.rrset ≡ key)
      × ((x.status ≡ DnssecStatus.bogus)
          ⊎ ((x.status ≡ DnssecStatus.secure)
              × (sig : Rrsig) × (x.signature ≡ some (lib.parse_rrsig sig))
              × IsVerified lib look_up key.type rr_set sigs sig))

  -- one result for each set, in order
  abbrev pub AreJudged : SetMap Rrsig → SetMap Rr → List DnssecPerSetResult → Type 0
  AreJudged sigs [] [] = Unit
  AreJudged sigs [] (x ∷ xs) = ⊥
  AreJudged sigs (e ∷ m) [] = ⊥
  AreJudged sigs (e ∷ m) (x ∷ xs) = IsJudged e.0 e.1 (set_at sigs e.0) x × AreJudged sigs m xs

  -- every set has a signature that verifies it
  abbrev pub AreSigned : SetMap Rrsig → SetMap Rr → Type 0
  AreSigned sigs [] = Unit
  AreSigned sigs (e ∷ m) =
      ((of_set : List Rrsig) × (sig : Rrsig) × (set_at sigs e.0 ≡ some of_set)
        × IsVerified lib look_up e.0.type e.1 of_set sig)
      × AreSigned sigs m

  IsJudged-signed :
      (key : Question) (rr_set : List Rr) (o : Option (List Rrsig)) (x : DnssecPerSetResult)
      → IsJudged key rr_set o x
      → IsSure x
      → IsNotBogus x
      → (of_set : List Rrsig) × (sig : Rrsig) × (o ≡ some of_set)
        × IsVerified lib look_up key.type rr_set of_set sig
  IsJudged-signed key rr_set none x (k, s) sure safe = absurd (sure.0 s)
  IsJudged-signed key rr_set (some sigs) x (k, inl b) sure safe = absurd (safe b)
  IsJudged-signed key rr_set (some sigs) x (k, inr (s, sig, parsed, v)) sure safe =
      (sigs, sig, refl, v)

  pub AreJudged-AreSigned :
      (sigs : SetMap Rrsig) (m : SetMap Rr) (xs : List DnssecPerSetResult)
      → AreJudged sigs m xs
      → All IsSure xs
      → All IsNotBogus xs
      → AreSigned sigs m
  AreJudged-AreSigned sigs [] [] j sure safe = tt
  AreJudged-AreSigned sigs [] (x ∷ xs) j sure safe = absurd j
  AreJudged-AreSigned sigs (e ∷ m) [] j sure safe = absurd j
  AreJudged-AreSigned sigs (e ∷ m) (x ∷ xs) (j, js) sure safe = (
    IsJudged-signed e.0 e.1 (set_at sigs e.0) x j sure.0 safe.0,
    AreJudged-AreSigned sigs m xs js sure.1 safe.1,
  )

  module _ (now : Validating W → Validating W × ℕ)
      (key_order_keeps : (m : TagMap Dnskey) (e : ℕ × Dnskey)
        → Among e (lib.key_order m)
        → Among e m) where
    validate_set-IsJudged :
        (key : Question) (rr_set : List Rr) (o : Option (List Rrsig))
        (r r' : Resolver (Validating W)) (t t' : List TraceStep) (x : DnssecPerSetResult)
        → validate_set lib look_up now key rr_set o r t ≡ some (r', x, t')
        → IsJudged key rr_set o x
    unfolding validate_set
    validate_set-IsJudged key rr_set none r r' t t' x e = (ground arith, ground arith)
    validate_set-IsJudged key rr_set (some sigs) r r' t t' x e =
        elim (Option-cases (validate_rrsig lib look_up now key.type rr_set sigs r t)) [
          | inl f ↦ absurd (ground arith)
          | inr ((r1, used, t1), f) ↦ elim (Fetched-cases used) [
            | inl (err, g) ↦ (ground arith, inl (ground arith))
            | inr (sig, g) ↦ (
              ground arith,
              inr (
                ground arith,
                sig,
                ground arith,
                validate_rrsig-IsVerified lib look_up now key_order_keeps key.type rr_set sigs r r1
                    t t1 sig (ground arith),
              ),
            )
          ]
        ]

    validate_sets-AreJudged :
        (sigs : SetMap Rrsig) (r r' : Resolver (Validating W)) (t t' : List TraceStep)
        (m : SetMap Rr) (xs : List DnssecPerSetResult)
        → validate_sets lib look_up now sigs r t m ≡ some (r', xs, t')
        → AreJudged sigs m xs
    unfolding validate_sets
    validate_sets-AreJudged sigs r r' t t' [] [] e = tt
    validate_sets-AreJudged sigs r r' t t' [] (x ∷ xs) e = absurd (ground arith)
    validate_sets-AreJudged sigs r r' t t' (d ∷ m) xs e =
        elim (Option-cases (validate_set lib look_up now d.0 d.1 (set_at sigs d.0) r t)) [
          | inl f ↦ absurd (ground arith)
          | inr ((r1, y, t1), f) ↦
              elim (Option-cases (validate_sets lib look_up now sigs r1 t1 m)) [
                | inl g ↦ absurd (ground arith)
                | inr ((r2, ys, t2), g) ↦
                    let same : y ∷ ys ≡ xs = ground arith in
                    rw (← same) (
                      validate_set-IsJudged d.0 d.1 (set_at sigs d.0) r r1 t t1 y f,
                      validate_sets-AreJudged sigs r1 r2 t1 t2 m ys g,
                    )
              ]
        ]

    -- A section has one result for each of its RR sets, in the order of the range. A set without a
    -- signature is insecure, and any other is either bogus, or secure with one of its signatures, which
    -- verifies it: no set is indeterminate.
    pub validate_section-AreJudged :
        (section : List Rr) (r r' : Resolver (Validating W)) (t t' : List TraceStep)
        (xs : List DnssecPerSetResult)
        → validate_section lib look_up now section r t ≡ some (r', xs, t')
        → AreJudged
            (split_rrsets_and_sigs section).rr_sigs
            (lib.set_order (split_rrsets_and_sigs section).rr_sets)
            xs
    unfolding validate_section
    validate_section-AreJudged section r r' t t' xs e =
        validate_sets-AreJudged (split_rrsets_and_sigs section).rr_sigs r r' t t'
          (lib.set_order (split_rrsets_and_sigs section).rr_sets) xs e
