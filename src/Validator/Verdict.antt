-- ===== src/Validator/Verdict.antt =====
-- `validate` of src/zdns/dnssec.go: the verdict on a message, and the status of the validator.
use zdns.Prelude.{
  ℕ, ◌≡◌, ◌≢◌, ◌↔◌, inl, inr, refl, sym, ◌∙◌, true, false, some, List, [], ◌∷◌, ◌++◌, map, arith,
  Among, All, Bool-cases, Option-cases, Text,
}
use zdns.Records.{DnssecStatus, DnssecPerSetResult, DnssecResult, TraceStep}
use zdns.Records.NameServers.{NameServer}
use zdns.Cache.Build.{is_nil}
use zdns.Resolver.{Resolver}
use zdns.Validator.{
  Dnskey, Ds, Msg, Validating, with_validator, LookUp, Fetched, failed, found, TagMap, DnsLibrary,
}
use zdns.Validator.Keys.{Delegation, nsec_proof, records, is_secure, fetch_ds_records}
use zdns.Dnssec.{populate_status}
use zdns.Dnssec.Overall.{IsNotBogus, populate_status_lem}
use zdns.Validator.Sections.{has_rrsig, split_rrsets_and_sigs, validate_section}
use zdns.Validator.Judged.{AreSigned, AreJudged-AreSigned, validate_section-AreJudged}
use zdns.Validator.Message.{
  verdict, reset_dnssec_validator, validate_sections, validate_signed, validate_delegated, conclude,
  validate,
}

pub is_secure_iff : (s : DnssecStatus) → (is_secure s ≡ true) ↔ (s ≡ DnssecStatus.secure)
unfolding is_secure
is_secure_iff DnssecStatus.secure = (λ e. refl, λ e. refl)
is_secure_iff DnssecStatus.insecure = (λ e. absurd (ground arith), λ e. absurd (ground arith))
is_secure_iff DnssecStatus.bogus = (λ e. absurd (ground arith), λ e. absurd (ground arith))
is_secure_iff DnssecStatus.indeterminate = (λ e. absurd (ground arith), λ e. absurd (ground arith))

module _ {W : Type 0} (layer : Text) (r : Resolver (Validating W)) (res : DnssecResult) where
  conclude-status :
      (conclude layer r res).1.status ≡ (conclude layer r res).0.world.validator.status
  unfolding conclude
  conclude-status = elim (Bool-cases (is_secure r.world.validator.status)) [
    | inr s ↦ ground arith
    | inl s ↦ elim (Bool-cases (is_nil res.reason)) [ inl n ↦ ground arith | inr n ↦ ground arith ]
  ]

  conclude_secure :
      (conclude layer r res).1.status ≡ DnssecStatus.secure → res.status ≡ DnssecStatus.secure
  unfolding conclude
  conclude_secure h = elim (Bool-cases (is_secure r.world.validator.status)) [
    | inr s ↦ absurd (let t = (is_secure_iff r.world.validator.status).1 (ground arith) in cc)
    | inl s ↦ elim (Bool-cases (is_nil res.reason)) [ inl n ↦ ground arith | inr n ↦ ground arith ]
  ]

module _ {W : Type 0} (lib : DnsLibrary) (look_up : LookUp W)
    (now : Validating W → Validating W × ℕ) where
  -- A message is judged with the status of the validator after it. Once the status is not secure it
  -- stays, with its reason: no later message is looked at.
  pub validate-status :
      (r r' : Resolver (Validating W)) (layer : Text) (msg : Msg) (ns : NameServer)
      (t t' : List TraceStep) (res : DnssecResult)
      → validate lib look_up now r layer msg ns t ≡ some (r', res, t')
      → (res.status ≡ r'.world.validator.status)
        × (r.world.validator.status ≢ DnssecStatus.secure
            → (r' ≡ r)
              × (res ≡ verdict r.world.validator.status r.world.validator.reason)
              × (t' ≡ t))
  unfolding validate
  validate-status r r' layer msg ns t t' res e =
      elim (Bool-cases (is_secure r.world.validator.status)) [
        | inr s ↦ (ground arith, λ ne. (ground arith, ground arith, ground arith))
        | inl s ↦
            let old = (is_secure_iff r.world.validator.status).0 s in
            elim (Option-cases (fetch_ds_records lib look_up r (lib.canonical_name layer) t)) [
              | inl f ↦ absurd (ground arith)
              | inr ((r1, fetched, t1), f) ↦
                  elim (Option-cases (validate_delegated lib look_up now r1 msg ns t1 fetched)) [
                    | inl g ↦ absurd (ground arith)
                    | inr ((r2, res2, t2), g) ↦
                        (ground (arith, conclude-status layer r2 res2), λ ne. absurd (ne old))
                  ]
            ]
      ]

  validate_sections-answers :
      (r r' : Resolver (Validating W)) (msg : Msg) (t t' : List TraceStep) (res : DnssecResult)
      → r.world.validator.msg ≡ some msg
      → validate_sections lib look_up now r t ≡ some (r', res, t')
      → (r1 : Resolver (Validating W)) × (t1 : List TraceStep) × (validate_section lib look_up now
            msg.answer r t
          ≡ some (r1, res.answers, t1))
  unfolding validate_sections
  validate_sections-answers r r' msg t t' res m e =
      elim (Option-cases (validate_section lib look_up now msg.answer r t)) [
        | inl f ↦ absurd (ground arith)
        | inr ((r1, answers, t1), f) ↦ (
          r1,
          t1,
          elim (Option-cases r1.world.validator.msg) [
            | inl no_msg ↦ absurd (ground arith)
            | inr (msg1, m1) ↦ elim (Bool-cases msg1.authoritative) [
              | inl a ↦ ground arith
              | inr a ↦ elim (Option-cases (validate_section lib look_up now msg1.extra r1 t1)) [
                | inl g ↦ absurd (ground arith)
                | inr ((r2, additionals, t2), g) ↦ elim (Option-cases r2.world.validator.msg) [
                  | inl no_msg ↦ absurd (ground arith)
                  | inr (msg2, m2) ↦
                      elim (Option-cases (validate_section lib look_up now msg2.ns r2 t2)) [
                        | inl h ↦ absurd (ground arith)
                        | inr ((r3, authorities, t3), h) ↦ ground arith
                      ]
                ]
              ]
            ]
          ],
        )
      ]

  IsNotBogus-front :
      (xs ys : List DnssecPerSetResult) → All IsNotBogus (xs ++ ys) → All IsNotBogus xs
  IsNotBogus-front [] ys h = tt
  IsNotBogus-front (x ∷ xs) ys h = (h.0, IsNotBogus-front xs ys h.1)

  module _
      (key_order_keeps : (m : TagMap Dnskey) (e : ℕ × Dnskey)
        → Among e (lib.key_order m)
        → Among e m) where
    -- every RR set of the answers of a message has a signature that verifies it
    abbrev pub HasSignedAnswers : Msg → Type 0
    HasSignedAnswers msg =
        AreSigned lib look_up (split_rrsets_and_sigs msg.answer).rr_sigs
          (lib.set_order (split_rrsets_and_sigs msg.answer).rr_sets)

    validate_signed-secure :
        (r r' : Resolver (Validating W)) (msg : Msg) (ns : NameServer) (t t' : List TraceStep)
        (res : DnssecResult)
        → validate_signed lib look_up now r msg ns t ≡ some (r', res, t')
        → res.status ≡ DnssecStatus.secure
        → HasSignedAnswers msg
    unfolding validate_signed reset_dnssec_validator
    validate_signed-secure r r' msg ns t t' res e h =
        let r0 = with_validator r (reset_dnssec_validator r.world.validator msg ns) in
        elim (Option-cases (validate_sections lib look_up now r0 t)) [
          | inl f ↦ absurd (ground arith)
          | inr ((r1, res1, t1), f) ↦
              let v = r1.world.validator in
              let res2 : DnssecResult = record res1 {
                dses = map lib.parse_ds (lib.ds_order v.ds);
                dnskeys = map lib.parse_dnskey (lib.dnskey_order v.dnskeys);
              } in
              let same : (populate_status res2).status ≡ res.status = ground arith in
              elim (populate_status_lem res2) [
                | inr (inl bogus, n) ↦ absurd (let b = sym bogus ∙ same ∙ h in cc)
                | inr (inr unsure, n) ↦ absurd (let b = sym unsure ∙ same ∙ h in cc)
                | inl (s, good) ↦
                    let (ra, ta, judged) = validate_sections-answers r0 r1 msg t t1 res1 refl f in
                    AreJudged-AreSigned lib look_up (split_rrsets_and_sigs msg.answer).rr_sigs
                      (lib.set_order (split_rrsets_and_sigs msg.answer).rr_sets) res1.answers
                      (validate_section-AreJudged lib look_up now key_order_keeps msg.answer r0 ra t
                        ta res1.answers judged)
                      good.sure
                      (IsNotBogus-front res1.answers res1.additionals (
                        IsNotBogus-front (res1.answers ++ res1.additionals) res1.authorities
                          good.not_bogus))
              ]
        ]

    -- what a secure verdict on a message says, `fetched` being what is known of the DS records
    pub record IsTrusted (msg : Msg) (fetched : Fetched Delegation) : Type 0 where
      pub ds_records : TagMap Ds
      pub delegated : fetched ≡ found (records ds_records)
      pub not_empty : is_nil ds_records ≡ false
      pub has_signature : has_rrsig msg ≡ true
      pub signed : HasSignedAnswers msg

    validate_delegated-secure :
        (r r' : Resolver (Validating W)) (msg : Msg) (ns : NameServer) (t t' : List TraceStep)
        (fetched : Fetched Delegation) (res : DnssecResult)
        → validate_delegated lib look_up now r msg ns t fetched ≡ some (r', res, t')
        → res.status ≡ DnssecStatus.secure
        → IsTrusted msg fetched
    unfolding validate_delegated
    validate_delegated-secure r r' msg ns t t' (failed x) res e h = absurd (ground arith)
    validate_delegated-secure r r' msg ns t t' (found nsec_proof) res e h = absurd (ground arith)
    validate_delegated-secure r r' msg ns t t' (found (records m)) res e h =
        elim (Bool-cases (is_nil m)) [
          | inl n ↦ absurd (ground arith)
          | inr n ↦ elim (Bool-cases (has_rrsig msg)) [
            | inr s ↦ absurd (ground arith)
            | inl s ↦ record {
              ds_records = m;
              delegated = refl;
              not_empty = n;
              has_signature = s;
              signed = validate_signed-secure r r' msg ns t t' res (ground arith) h;
            }
          ]
        ]

    -- A secure verdict on a message says that no message before it was judged otherwise, that the
    -- zone of the layer has DS records, as they were fetched, and that each RR set of its answers has
    -- a signature that is in time and verifies it, with a key of a DNSKEY set that the DS records of
    -- the signer vouch for, or a key that the zone of the signer was asked for.
    pub validate-secure :
        (r r' : Resolver (Validating W)) (layer : Text) (msg : Msg) (ns : NameServer)
        (t t' : List TraceStep) (res : DnssecResult)
        → validate lib look_up now r layer msg ns t ≡ some (r', res, t')
        → res.status ≡ DnssecStatus.secure
        → (r.world.validator.status ≡ DnssecStatus.secure)
          × (r1 : Resolver (Validating W)) × (t1 : List TraceStep) × (fetched : Fetched Delegation)
          × (fetch_ds_records lib look_up r (lib.canonical_name layer) t ≡ some (r1, fetched, t1))
          × IsTrusted msg fetched
    unfolding validate
    validate-secure r r' layer msg ns t t' res e h =
        elim (Bool-cases (is_secure r.world.validator.status)) [
          | inr s ↦ absurd (let x = (is_secure_iff r.world.validator.status).1 (ground arith) in cc)
          | inl s ↦
              elim (Option-cases (fetch_ds_records lib look_up r (lib.canonical_name layer) t)) [
                | inl f ↦ absurd (ground arith)
                | inr ((r1, fetched, t1), f) ↦
                    elim (Option-cases (validate_delegated lib look_up now r1 msg ns t1 fetched)) [
                      | inl g ↦ absurd (ground arith)
                      | inr ((r2, res2, t2), g) ↦ (
                        (is_secure_iff r.world.validator.status).0 s,
                        r1,
                        t1,
                        fetched,
                        f,
                        validate_delegated-secure r1 r2 msg ns t1 t2 fetched res2 g
                            (conclude_secure layer r2 res2 (ground arith)),
                      )
                    ]
              ]
        ]
