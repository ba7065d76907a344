-- ===== src/Validator/Faults.antt =====
-- The paths of src/zdns/dnssec.go on which the validator panics, reads another message, or loses the
-- trace.
use zdns.Prelude.{
  ℕ, ◌≡◌, inl, inr, refl, Bool, true, false, none, some, List, [], ◌∷◌, arith, Option-cases, Text,
  text_eq,
}
use zdns.Names.{dot, remove_trailing_dot_if_not_root}
use zdns.Records.{Status, DnssecStatus, TraceStep, type_dnskey, type_ds, class_inet, Question}
use zdns.Records.NameServers.{NameServer}
use zdns.Resolver.{Config, Resolver, Reply, Network}
use zdns.Resolver.Following.{lookup}
use zdns.Validator.{
  Dnskey, Rrsig, Rr, Msg, Validating, LookUp, Fetched-cases, found, TagMap, DnsLibrary,
}
use zdns.Validator.Keys.{
  is_secure, fetch_ds_records, collect_keys, find_seps, find_seps_from_answer,
}
use zdns.Validator.Verdict.{is_secure_iff}
use zdns.Validator.Sections.{validate_rrsig, validate_rrsigs, keys_for, check_rrsig}
use zdns.Validator.Message.{validate}

fetch_ds_records_nil :
    {W : Type 0} (lib : DnsLibrary) (look_up : LookUp W) (r : Resolver (Validating W))
    (signer : Text) (t : List TraceStep)
    → text_eq signer dot ≡ false
    → ((q : Question)
        → (r' : Resolver (Validating W)) × (reply : Reply) × (look_up r q t ≡ some (r', reply))
          × (reply.result ≡ none))
    → fetch_ds_records lib look_up r signer t ≡ none
unfolding fetch_ds_records
fetch_ds_records_nil lib look_up r signer t z nil =
    let (r', reply, e, n) = nil (record {
      type = type_ds;
      class = class_inet;
      name = remove_trailing_dot_if_not_root signer;
    }) in
    ground arith

module _ {W C : Type 0} (lib : DnsLibrary) (net : Network (Validating W) C Msg) (cfg : Config)
    (ctx : C) (is_iterative : Bool) (now : Validating W → Validating W × ℕ) where
  lookup_expired :
      (r : Resolver (Validating W)) (q : Question) (t : List TraceStep)
      → (net.has_expired r.world ctx).1 ≡ true
      → (r' : Resolver (Validating W)) × (reply : Reply) × (lookup net cfg r ctx q
            cfg.root_name_servers is_iterative t
          ≡ some (r', reply))
        × (reply.result ≡ none)
  unfolding lookup
  lookup_expired r q t x = (
    record r { world = (net.has_expired r.world ctx).0 },
    record { result = none; is_cached = false; status = Status.timeout; trace = t; error = none },
    rw x refl,
    refl,
  )

  -- If the validator has judged nothing otherwise than secure and the context of the lookup has
  -- expired, the validation of a message of any zone but the root panics: `lookup` returns a nil
  -- result, and `fetchDSRecords` appends to its authorities before it looks at the status.
  pub validate_expired :
      (r : Resolver (Validating W)) (layer : Text) (msg : Msg) (ns : NameServer)
      (t : List TraceStep)
      → r.world.validator.status ≡ DnssecStatus.secure
      → text_eq (lib.canonical_name layer) dot ≡ false
      → (net.has_expired r.world ctx).1 ≡ true
      → validate lib
          (λ s q trace. lookup net cfg s ctx q cfg.root_name_servers is_iterative trace)
          now
          r
          layer
          msg
          ns
          t
        ≡ none
  unfolding validate
  validate_expired r layer msg ns t s z x =
      let safe : is_secure r.world.validator.status ≡ true = (is_secure_iff _).1 s in
      let none_fetched =
        fetch_ds_records_nil lib
          (λ s q trace. lookup net cfg s ctx q cfg.root_name_servers is_iterative trace) r
          (lib.canonical_name layer) t z (λ q. lookup_expired r q t x) in
      rw (safe, none_fetched) refl

module _ {W : Type 0} (lib : DnsLibrary) (look_up : LookUp W)
    (now : Validating W → Validating W × ℕ) where
  keys_for_trace :
      (rr_set : List Rr) (sig : Rrsig) (r r' : Resolver (Validating W)) (t t' : List TraceStep)
      (keys : TagMap Dnskey)
      → keys_for lib look_up now type_dnskey rr_set sig r t ≡ some (r', found keys, t')
      → t' ≡ []
  unfolding keys_for find_seps_from_answer
  keys_for_trace rr_set sig r r' t t' keys e = elim (Fetched-cases (collect_keys lib [] rr_set)) [
    | inl (x, f) ↦ absurd (ground arith)
    | inr (ks, f) ↦ elim (Option-cases (find_seps lib look_up r sig.signer_name ks t)) [
      | inl g ↦ absurd (ground arith)
      | inr ((r1, fetched, t1), g) ↦ elim (Fetched-cases fetched) [
        | inl (x, y) ↦ absurd (ground arith)
        | inr (seps, y) ↦ ground arith
      ]
    ]
  ]

  validate_rrsigs_trace :
      (rr_set : List Rr) (sigs : List Rrsig) (r r' : Resolver (Validating W))
      (t t' : List TraceStep) (last_err : Text) (sig : Rrsig)
      → validate_rrsigs lib look_up now type_dnskey rr_set r t last_err sigs
        ≡ some (r', found sig, t')
      → t' ≡ []
  unfolding validate_rrsigs
  validate_rrsigs_trace rr_set [] r r' t t' last_err sig e = absurd cc
  validate_rrsigs_trace rr_set (x ∷ sigs) r r' t t' last_err sig e =
      elim (Option-cases (keys_for lib look_up now type_dnskey rr_set x r t)) [
        | inl f ↦ absurd (ground arith)
        | inr ((r1, fetched, t1), f) ↦ elim (Fetched-cases fetched) [
          | inl (err, g) ↦ absurd (ground arith)
          | inr (keys, g) ↦
              let clock = now r1.world in
              elim (Fetched-cases (check_rrsig lib x rr_set keys clock.1)) [
                | inl (err, c) ↦
                    validate_rrsigs_trace rr_set sigs (record r1 { world = clock.0 }) r' t1 t' err
                      sig (ground arith)
                | inr (key, c) ↦
                    let empty = keys_for_trace rr_set x r r1 t t1 keys (ground arith) in
                    ground arith
              ]
        ]
      ]

  -- With a signature of a DNSKEY set that verifies, the trace that was handed in is lost.
  pub validate_rrsig_trace :
      (rr_set : List Rr) (sigs : List Rrsig) (r r' : Resolver (Validating W))
      (t t' : List TraceStep) (sig : Rrsig)
      → validate_rrsig lib look_up now type_dnskey rr_set sigs r t ≡ some (r', found sig, t')
      → t' ≡ []
  unfolding validate_rrsig
  validate_rrsig_trace rr_set sigs r r' t t' sig e =
      validate_rrsigs_trace rr_set sigs r r' t t' _ sig e
