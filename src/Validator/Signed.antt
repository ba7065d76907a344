-- ===== src/Validator/Signed.antt =====
-- `validateRRSIG` of src/zdns/dnssec.go: what a signature that it returns has passed.
use zdns.Prelude.{
  ℕ, ◌≡◌, inl, inr, refl, true, false, none, some, List, [], ◌∷◌, arith, Among, Bool-cases,
  Option-cases, ◌==◌, Text,
}
use zdns.Records.{TraceStep, type_dnskey}
use zdns.Resolver.{Resolver}
use zdns.Validator.{
  Dnskey, Rrsig, Rr, Validating, LookUp, Fetched-cases, found, TagMap, at_tag, DnsLibrary,
}
use zdns.Validator.Keys.{get_dnskeys}
use zdns.Validator.Sections.{check_rrsig, keys_for, validate_rrsigs, validate_rrsig}
use zdns.Validator.Anchors.{IsAnchored, find_seps_from_answer-IsAnchored}

module _ {W : Type 0} (lib : DnsLibrary) (look_up : LookUp W) where
  -- keys that a lookup at a zone has found
  pub record AreFetched (signer : Text) (keys : TagMap Dnskey) : Type 0 where
    pub before : Resolver (Validating W)
    pub after : Resolver (Validating W)
    pub trace : List TraceStep
    pub trace' : List TraceStep
    pub seps : TagMap Dnskey
    pub fetched :
        get_dnskeys lib look_up before signer trace ≡ some (after, found (seps, keys), trace')

  -- where the key for a signature comes from: the set itself, or the zone of the signer
  pub data Source (rr_set_type : ℕ) (rr_set : List Rr) (sig : Rrsig) (key : Dnskey) : Type 0 where
    own :
        (rr_set_type == type_dnskey) ≡ true
        → IsAnchored lib look_up rr_set sig.signer_name sig.key_tag key
        → Source rr_set_type rr_set sig key
    zone :
        (keys : TagMap Dnskey)
        → (rr_set_type == type_dnskey) ≡ false
        → AreFetched sig.signer_name keys
        → at_tag keys sig.key_tag ≡ some key
        → Source rr_set_type rr_set sig key

  -- a signature of a list that verifies an RR set with a key of a known source, at some time
  pub record IsVerified (rr_set_type : ℕ) (rr_set : List Rr) (sigs : List Rrsig) (sig : Rrsig)
      : Type 0 where
    pub among : Among sig sigs
    pub key : Dnskey
    pub time : ℕ
    pub in_time : lib.is_valid_at sig time ≡ true
    pub verifies : lib.verify sig key rr_set ≡ none
    pub source : Source rr_set_type rr_set sig key

  module _ (now : Validating W → Validating W × ℕ)
      (key_order_keeps : (m : TagMap Dnskey) (e : ℕ × Dnskey)
        → Among e (lib.key_order m)
        → Among e m) where
    keys_for-Source :
        (rr_set_type : ℕ) (rr_set : List Rr) (sig : Rrsig) (r r' : Resolver (Validating W))
        (t t' : List TraceStep) (keys : TagMap Dnskey) (key : Dnskey)
        → keys_for lib look_up now rr_set_type rr_set sig r t ≡ some (r', found keys, t')
        → at_tag keys sig.key_tag ≡ some key
        → Source rr_set_type rr_set sig key
    unfolding keys_for
    keys_for-Source rr_set_type rr_set sig r r' t t' keys key e h =
        elim (Bool-cases (rr_set_type == type_dnskey)) [
          | inl d ↦
              own d
                (find_seps_from_answer-IsAnchored lib look_up key_order_keeps r r' rr_set
                  sig.signer_name t t' keys sig.key_tag key (ground arith) h).0
          | inr d ↦ elim (Option-cases (get_dnskeys lib look_up r sig.signer_name t)) [
            | inl f ↦ absurd (ground arith)
            | inr ((r1, fetched, t1), f) ↦ elim (Fetched-cases fetched) [
              | inl (x, g) ↦ absurd (ground arith)
              | inr ((seps, ks), g) ↦
                  zone keys d
                    (record {
                      before = r;
                      after = r1;
                      trace = t;
                      trace' = t1;
                      seps = seps;
                      fetched = ground arith;
                    })
                    h
            ]
          ]
        ]

    check_rrsig_lem :
        (sig : Rrsig) (rr_set : List Rr) (keys : TagMap Dnskey) (time : ℕ) (key : Dnskey)
        → check_rrsig lib sig rr_set keys time ≡ found key
        → (lib.is_valid_at sig time ≡ true)
          × (at_tag keys sig.key_tag ≡ some key)
          × (lib.verify sig key rr_set ≡ none)
    unfolding check_rrsig
    check_rrsig_lem sig rr_set keys time key e = elim (Bool-cases (lib.is_valid_at sig time)) [
      | inr v ↦ absurd (ground arith)
      | inl v ↦ elim (Option-cases (at_tag keys sig.key_tag)) [
        | inl a ↦ absurd (ground arith)
        | inr (k, a) ↦ elim (Option-cases (lib.verify sig k rr_set)) [
          | inr (x, w) ↦ absurd (ground arith)
          | inl w ↦ let same : k ≡ key = ground arith in (v, rw same at a, rw same at w)
        ]
      ]
    ]

    later-IsVerified :
        {rr_set_type : ℕ} {rr_set : List Rr} {sigs : List Rrsig} {sig : Rrsig} (first : Rrsig)
        → IsVerified rr_set_type rr_set sigs sig
        → IsVerified rr_set_type rr_set (first ∷ sigs) sig
    later-IsVerified first v = record {
      among = inr v.among;
      key = v.key;
      time = v.time;
      in_time = v.in_time;
      verifies = v.verifies;
      source = v.source;
    }

    validate_rrsigs-IsVerified :
        (rr_set_type : ℕ) (rr_set : List Rr) (r r' : Resolver (Validating W))
        (t t' : List TraceStep) (last_err : Text) (sigs : List Rrsig) (sig : Rrsig)
        → validate_rrsigs lib look_up now rr_set_type rr_set r t last_err sigs
          ≡ some (r', found sig, t')
        → IsVerified rr_set_type rr_set sigs sig
    unfolding validate_rrsigs
    validate_rrsigs-IsVerified rr_set_type rr_set r r' t t' last_err [] sig e = absurd cc
    validate_rrsigs-IsVerified rr_set_type rr_set r r' t t' last_err (x ∷ sigs) sig e =
        elim (Option-cases (keys_for lib look_up now rr_set_type rr_set x r t)) [
          | inl f ↦ absurd (ground arith)
          | inr ((r1, fetched, t1), f) ↦ elim (Fetched-cases fetched) [
            | inl (err, g) ↦ elim (Bool-cases (rr_set_type == type_dnskey)) [
              | inl d ↦ absurd (ground arith)
              | inr d ↦ later-IsVerified x (
                  validate_rrsigs-IsVerified rr_set_type rr_set r1 r' t1 t' err sigs sig
                    (ground arith))
            ]
            | inr (keys, g) ↦
                let clock = now r1.world in
                elim (Fetched-cases (check_rrsig lib x rr_set keys clock.1)) [
                  | inl (err, c) ↦ later-IsVerified x (
                      validate_rrsigs-IsVerified rr_set_type rr_set (record r1 { world = clock.0 })
                        r' t1 t' err sigs sig (ground arith))
                  | inr (key, c) ↦
                      let (v, a, w) = check_rrsig_lem x rr_set keys clock.1 key c in
                      let same : x ≡ sig = ground arith in
                      rw (← same) (record {
                        among = inl refl;
                        key = key;
                        time = clock.1;
                        in_time = v;
                        verifies = w;
                        source =
                            keys_for-Source rr_set_type rr_set x r r1 t t1 keys key (ground arith)
                              a;
                      })
                ]
          ]
        ]

    -- A signature that is returned for an RR set is one of those given, in time, and verifies the set
    -- with a key that has its tag. For a DNSKEY set the key belongs to the set, is a zone or key
    -- signing key, and the DS records of the signer, as they were fetched, hold its digest; for any
    -- other set it is among the keys that the zone of the signer was asked for.
    pub validate_rrsig-IsVerified :
        (rr_set_type : ℕ) (rr_set : List Rr) (sigs : List Rrsig) (r r' : Resolver (Validating W))
        (t t' : List TraceStep) (sig : Rrsig)
        → validate_rrsig lib look_up now rr_set_type rr_set sigs r t ≡ some (r', found sig, t')
        → IsVerified rr_set_type rr_set sigs sig
    unfolding validate_rrsig
    validate_rrsig-IsVerified rr_set_type rr_set sigs r r' t t' sig e =
        validate_rrsigs-IsVerified rr_set_type rr_set r r' t t' _ sigs sig e
