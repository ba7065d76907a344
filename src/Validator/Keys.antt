-- ===== src/Validator/Keys.antt =====
-- `fetchDSRecords`, `findSEPs`, `findSEPsFromAnswer` and `getDNSKEYs` of src/zdns/dnssec.go: the keys
-- that a zone may sign with. `none` is a panic.
use zdns.Prelude.{
  ℕ, ◌≡◌, ◌⊎◌, inl, inr, refl, ◌%◌, Bool, true, false, not, ◌&&◌, ◌||◌, Option, none, some, List,
  [], ◌∷◌, ◌++◌, any, ◌==◌, ◌>>=◌, if◌then◌else◌, Text, codes, text_eq, to_upper, ℕ_discrete,
}
use zdns.Names.{dot, remove_trailing_dot_if_not_root}
use zdns.Records.{
  Question, Answer, AnyAnswer, typed, Kind, DnssecStatus, DnssecPerSetResult, SingleQueryResult,
  empty_result, TraceStep, safe_status, status_text, type_ds, type_dnskey, class_inet,
}
use zdns.Records.NameServers.{decimal}
use zdns.Cache.Build.{is_nil}
use zdns.Resolver.{Resolver, Reply}
use zdns.Validator.{
  Dnskey, Ds, Rr, Validating, validator_of, with_validator, LookUp, Fetched, failed, found, TagMap,
  at_tag, put_tag, key_eq, DnsLibrary,
}

abbrev pub zone_signing_key_flag : ℕ
zone_signing_key_flag = 256

abbrev pub key_signing_key_flag : ℕ
key_signing_key_flag = 257

unfoldable pub is_key_flag : ℕ → Bool
is_key_flag flags = flags == key_signing_key_flag || flags == zone_signing_key_flag

unfoldable pub is_secure : DnssecStatus → Bool
is_secure DnssecStatus.secure = true
is_secure _ = false

unfoldable pub get_result_for_rrset : Question → List DnssecPerSetResult → Option DnssecPerSetResult
unfolding key_eq
get_result_for_rrset q [] = none
get_result_for_rrset q (x ∷ xs) = if key_eq x.rrset q then some x else get_result_for_rrset q xs

-- the type assertions on the values of a section
unfoldable pub dnskey_answer : AnyAnswer → Option (Answer × Text)
dnskey_answer (typed Kind.dnskey a rest) = some (a, rest)
dnskey_answer _ = none

unfoldable pub ds_answer : AnyAnswer → Option (Answer × Text)
ds_answer (typed Kind.ds a rest) = some (a, rest)
ds_answer _ = none

unfoldable pub nsec_answer : AnyAnswer → Option (Answer × Text)
nsec_answer (typed Kind.nsec a rest) = some (a, rest)
nsec_answer _ = none

unfoldable pub nsec3_answer : AnyAnswer → Option (Answer × Text)
nsec3_answer (typed Kind.nsec3 a rest) = some (a, rest)
nsec3_answer _ = none

-- what the DS records of a zone say: that there are none, or which
pub data Delegation : Type 0 where
  nsec_proof : Delegation
  records : TagMap Ds → Delegation

pub Delegation-cases : (d : Delegation) → (d ≡ nsec_proof) ⊎ ((m : TagMap Ds) × (d ≡ records m))
Delegation-cases nsec_proof = inl refl
Delegation-cases (records m) = inr (m, refl)

-- `m[ds] = struct{}{}` for the maps that are sets of records
Ds-discrete : Discrete Ds
Ds-discrete = hlevel ℕ_discrete

unfoldable pub add_ds : Ds → List Ds → List Ds
unfolding Ds-discrete
add_ds d [] = d ∷ []
add_ds d (e ∷ l) =
    let rest = add_ds d l in elim (Ds-discrete e d) [ yes h ↦ e ∷ l | no n ↦ e ∷ rest ]

module _ (lib : DnsLibrary) where
  -- The error for a reply that cannot be used, `kind` being the type that was asked for.
  unfoldable pub read_failure :
      Text → Question → List DnssecPerSetResult → Reply → SingleQueryResult → Option Text
  unfolding get_result_for_rrset is_secure safe_status status_text
  read_failure kind q sets reply res =
      if not (safe_status reply.status)
      then some (kind ++ (codes " fetch failed, query status: " ++ status_text reply.status))
      else elim reply.error [
        | some e ↦ some (kind ++ (codes " fetch failed, err: " ++ lib.show_error e))
        | none ↦ elim res.dnssec_result [
          | none ↦ none
          | some d ↦ if is_secure d.status then none else elim (get_result_for_rrset q sets) [
            | none ↦ some d.reason
            | some p ↦
                if is_nil p.error
                then some d.reason
                else some (kind ++ (codes " fetch failed: " ++ p.error))
          ]
        ]
      ]

  -- a record that proves that the domain has no DS records
  unfoldable pub proves_no_ds : Text → AnyAnswer → Bool
  unfolding nsec3_answer nsec_answer
  proves_no_ds signer x = elim (nsec3_answer x) [
    | some (a, rest) ↦
        let n = lib.nsec3_of a rest in
        (n.flags % 2 == 1 && lib.covers n signer)
        || (lib.matches n signer && not (any (λ t. t == type_ds) n.type_bit_map))
    | none ↦ elim (nsec_answer x) [
      | some (a, rest) ↦
          let n = lib.nsec_of a rest in
          text_eq (lib.canonical_name n.name) signer && not (any (λ t. t == type_ds) n.type_bit_map)
      | none ↦ false
    ]
  ]

  unfoldable pub collect_ds : TagMap Ds → List AnyAnswer → TagMap Ds
  unfolding ds_answer put_tag
  collect_ds m [] = m
  collect_ds m (x ∷ xs) = elim (ds_answer x) [
    | none ↦ collect_ds m xs
    | some (a, rest) ↦ let ds = lib.ds_of a rest in collect_ds (put_tag m ds.key_tag ds) xs
  ]

  -- the DS record of a key, if the zone has it with the same digest
  unfoldable pub matching_ds : TagMap Ds → Dnskey → Option Ds
  unfolding at_tag to_upper
  matching_ds ds_records key = do
    authentic ← at_tag ds_records (lib.key_tag key)
    actual ← lib.to_ds key authentic.digest_type
    if text_eq (to_upper actual.digest) (to_upper authentic.digest) then some actual else none

  -- the loop over the keys, with the set of DS records that were used
  unfoldable pub collect_seps :
      TagMap Ds → List Ds → TagMap Dnskey → TagMap Dnskey → List Ds × TagMap Dnskey
  unfolding matching_ds add_ds put_tag
  collect_seps ds_records used seps [] = (used, seps)
  collect_seps ds_records used seps (e ∷ keys) = elim (matching_ds ds_records e.1) [
    | none ↦ collect_seps ds_records used seps keys
    | some actual ↦
        collect_seps ds_records (add_ds actual used) (put_tag seps (lib.key_tag e.1) e.1) keys
  ]

  -- the keys of a DNSKEY RR set; the first other record, or key with another flag, is an error
  unfoldable pub collect_keys : TagMap Dnskey → List Rr → Fetched (TagMap Dnskey)
  unfolding is_key_flag put_tag decimal
  collect_keys m [] = found m
  collect_keys m (Rr.dnskey k ∷ rrs) =
      let rest = collect_keys (put_tag m (lib.key_tag k) k) rrs in
      if is_key_flag k.flags
      then rest
      else failed (codes "unexpected DNSKEY flag: " ++ decimal 5 k.flags)
  collect_keys m (rr ∷ rrs) = failed (codes "invalid RR type in DNSKEY RRset: " ++ lib.show_rr rr)

  unfoldable pub collect_answer_keys : TagMap Dnskey → List AnyAnswer → TagMap Dnskey
  unfolding dnskey_answer is_key_flag put_tag
  collect_answer_keys m [] = m
  collect_answer_keys m (x ∷ xs) = elim (dnskey_answer x) [
    | none ↦ collect_answer_keys m xs
    | some (a, rest) ↦
        let k = lib.dnskey_of a rest in
        collect_answer_keys (if is_key_flag k.flags then put_tag m (lib.key_tag k) k else m) xs
  ]

module _ {W : Type 0} (lib : DnsLibrary) (look_up : LookUp W) where
  -- The answers are put behind the authorities of the result, which panics if it is nil.
  unfoldable pub fetch_ds_records :
      Resolver (Validating W)
      → Text
      → List TraceStep
      → Option (Resolver (Validating W) × Fetched Delegation × List TraceStep)
  unfolding read_failure proves_no_ds collect_ds remove_trailing_dot_if_not_root
  fetch_ds_records r signer trace =
      let q : Question = record {
        type = type_ds;
        class = class_inet;
        name = remove_trailing_dot_if_not_root signer;
      } in
      if text_eq signer dot then some (r, found (records lib.root_ds), trace) else (do
        (r', reply) ← look_up r q trace
        res ← reply.result
        (let authorities = res.authorities ++ res.answers in
            let sets : List DnssecPerSetResult = elim res.dnssec_result [
              | none ↦ []
              | some d ↦ d.authorities
            ] in
            elim (read_failure lib (codes "DS") q sets reply res) [
              | some e ↦ some (r', failed e, reply.trace)
              | none ↦
                  if any (proves_no_ds lib signer) authorities
                  then some (r', found nsec_proof, reply.trace)
                  else some (r', found (records (collect_ds lib [] authorities)), reply.trace)
            ]))

  unfoldable pub find_seps :
      Resolver (Validating W)
      → Text
      → TagMap Dnskey
      → List TraceStep
      → Option (Resolver (Validating W) × Fetched (TagMap Dnskey) × List TraceStep)
  unfolding fetch_ds_records collect_seps
  find_seps r signer keys trace = do
    (r', fetched, trace') ← fetch_ds_records r signer trace
    elim fetched [
      | failed e ↦ some (r', failed e, trace')
      | found nsec_proof ↦
          some (r', failed (codes "NSEC indicates no DS records should exist"), trace')
      | found (records ds_records) ↦
          let (used, seps) =
            collect_seps lib ds_records (validator_of r').ds [] (lib.key_order keys) in
          let r'' = with_validator r' (record r'.world.validator { ds = used }) in
          if is_nil seps
          then some (r'', failed (codes "no SEP matching DS found"), trace')
          else some (r'', found seps, trace')
    ]

  -- With success the trace that is returned is nil.
  unfoldable pub find_seps_from_answer :
      Resolver (Validating W)
      → List Rr
      → Text
      → List TraceStep
      → Option (Resolver (Validating W) × Fetched (TagMap Dnskey) × List TraceStep)
  unfolding collect_keys find_seps
  find_seps_from_answer r rr_set signer trace = elim (collect_keys lib [] rr_set) [
    | failed e ↦ some (r, failed e, trace)
    | found keys ↦
        if is_nil keys then some (r, failed (codes "could not find any DNSKEYs"), trace) else (do
          (r', fetched, trace') ← find_seps r signer keys trace
          elim fetched [
            | failed e ↦ some (r', failed e, trace')
            | found seps ↦ some (r', found seps, [])
          ])
  ]

  -- the SEP keys and all keys
  unfoldable pub get_dnskeys :
      Resolver (Validating W)
      → Text
      → List TraceStep
      → Option (Resolver (Validating W) × Fetched (TagMap Dnskey × TagMap Dnskey) × List TraceStep)
  unfolding read_failure collect_answer_keys find_seps remove_trailing_dot_if_not_root
  get_dnskeys r signer trace =
      let q : Question = record {
        type = type_dnskey;
        class = class_inet;
        name = remove_trailing_dot_if_not_root signer;
      } in
      do
        (r', reply) ← look_up r q trace
        (let known : SingleQueryResult = elim reply.result [
          | none ↦ empty_result
          | some res ↦ res
        ] in
            let sets : List DnssecPerSetResult = elim known.dnssec_result [
              | none ↦ []
              | some d ↦ d.answers
            ] in
            elim (read_failure lib (codes "DNSKEY") q sets reply known) [
              | some e ↦ some (r', failed e, reply.trace)
              | none ↦ do
                res ← reply.result
                (let keys = collect_answer_keys lib [] res.answers in
                    if is_nil keys
                    then some (r', failed (codes "missing at least one DNSKEY answer"), reply.trace)
                    else (do
                      (r'', fetched, trace') ← find_seps r' signer keys reply.trace
                      elim fetched [
                        | failed e ↦ some (r'', failed e, trace')
                        | found seps ↦ some (r'', found (seps, keys), trace')
                      ]))
            ])
