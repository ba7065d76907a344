-- ===== src/Validator/Sections.antt =====
-- `hasRRSIG`, `splitRRsetsAndSigs`, `validateRRSIG` and `validateSection` of src/zdns/dnssec.go: the
-- signatures of the RR sets of a section. `none` is a panic.
use zdns.Prelude.{
  ℕ, Bool, true, false, ◌||◌, Option, none, some, List, [], ◌∷◌, ◌++◌, any, ◌==◌, ◌>>=◌,
  if◌then◌else◌, Text, codes, ℕ_discrete,
}
use zdns.Records.{Question, AnyAnswer, DnssecStatus, DnssecPerSetResult, TraceStep, type_dnskey}
use zdns.Records.NameServers.{decimal}
use zdns.Resolver.{Resolver}
use zdns.Validator.{
  Dnskey, Rrsig, Rr, RrHeader, Msg, Validating, validator_of, with_validator, LookUp, Fetched,
  failed, found, TagMap, at_tag, SetMap, key_eq, DnsLibrary,
}
use zdns.Validator.Keys.{find_seps_from_answer, get_dnskeys}

unfoldable pub is_rrsig : Rr → Bool
is_rrsig (Rr.rrsig s) = true
is_rrsig _ = false

unfoldable pub has_rrsig : Msg → Bool
unfolding is_rrsig
has_rrsig msg = any is_rrsig msg.answer || any is_rrsig msg.ns || any is_rrsig msg.extra

module _ {A : Type 0} where
  -- `m[key] = append(m[key], a)`
  unfoldable pub append_set : SetMap A → Question → A → SetMap A
  unfolding key_eq
  append_set [] key a = (key, a ∷ []) ∷ []
  append_set (e ∷ m) key a =
      let rest = append_set m key a in if key_eq e.0 key then (e.0, e.1 ++ a ∷ []) ∷ m else e ∷ rest

  unfoldable pub set_at : SetMap A → Question → Option (List A)
  unfolding key_eq
  set_at [] key = none
  set_at (e ∷ m) key = if key_eq e.0 key then some e.1 else set_at m key

pub record SetsAndSigs : Type 0 where
  pub rr_sets : SetMap Rr
  pub rr_sigs : SetMap Rrsig

abbrev pub key_with : RrHeader → ℕ → Question
key_with h type = record { type = type; class = h.class; name = h.name }

-- A signature belongs to the set of the type that it covers.
unfoldable pub split_one : SetsAndSigs → Rr → SetsAndSigs
unfolding append_set
split_one s (Rr.rrsig sig) = record s {
  rr_sigs = append_set s.rr_sigs (key_with sig.header sig.type_covered) sig;
}
split_one s (Rr.dnskey k) = record s {
  rr_sets = append_set s.rr_sets (key_with k.header k.header.rr_type) (Rr.dnskey k);
}
split_one s (Rr.other h t) = record s {
  rr_sets = append_set s.rr_sets (key_with h h.rr_type) (Rr.other h t);
}

unfoldable pub split_from : SetsAndSigs → List Rr → SetsAndSigs
unfolding split_one
split_from s [] = s
split_from s (rr ∷ rrs) = split_from (split_one s rr) rrs

unfoldable pub split_rrsets_and_sigs : List Rr → SetsAndSigs
unfolding split_from
split_rrsets_and_sigs = split_from (record { rr_sets = []; rr_sigs = [] })

-- `m[key] = struct{}{}` of the set of keys that were used
Dnskey-discrete : Discrete Dnskey
Dnskey-discrete = hlevel ℕ_discrete

unfoldable pub add_dnskey : Dnskey → List Dnskey → List Dnskey
unfolding Dnskey-discrete
add_dnskey k [] = k ∷ []
add_dnskey k (e ∷ l) =
    let rest = add_dnskey k l in elim (Dnskey-discrete e k) [ yes h ↦ e ∷ l | no n ↦ e ∷ rest ]

abbrev pub per_set : Question → DnssecStatus → Option AnyAnswer → Text → DnssecPerSetResult
per_set key status signature error = record {
  rrset = key;
  status = status;
  signature = signature;
  error = error;
}

module _ (lib : DnsLibrary) where
  -- The key for a signature, or why it does not verify.
  unfoldable pub check_rrsig : Rrsig → List Rr → TagMap Dnskey → ℕ → Fetched Dnskey
  unfolding at_tag decimal
  check_rrsig sig rr_set keys time =
      let tag = decimal 5 sig.key_tag in
      if lib.is_valid_at sig time
      then elim (at_tag keys sig.key_tag) [
        | none ↦ failed (codes "no matching DNSKEY found for RRSIG with key tag " ++ tag)
        | some key ↦ elim (lib.verify sig key rr_set) [
          | none ↦ found key
          | some e ↦
              failed (codes "RRSIG with keytag=" ++ (tag ++ (codes " failed to verify: " ++ e)))
        ]
      ]
      else failed (codes "RRSIG with keytag=" ++ (tag ++ codes " has expired or is not yet valid"))

module _ {W : Type 0} (lib : DnsLibrary) (look_up : LookUp W)
    (now : Validating W → Validating W × ℕ) where
  -- The keys for a signature, the trace, and whether the loop goes on after an error: the keys of a
  -- DNSKEY set are in the set itself, and the trace of other keys counts only if they are found.
  unfoldable pub keys_for :
      ℕ
      → List Rr
      → Rrsig
      → Resolver (Validating W)
      → List TraceStep
      → Option (Resolver (Validating W) × Fetched (TagMap Dnskey) × List TraceStep)
  unfolding find_seps_from_answer get_dnskeys
  keys_for rr_set_type rr_set sig r trace =
      if rr_set_type == type_dnskey
      then find_seps_from_answer lib look_up r rr_set sig.signer_name trace
      else (do
        (r', fetched, trace') ← get_dnskeys lib look_up r sig.signer_name trace
        elim fetched [
          | failed e ↦ some (r', failed e, trace)
          | found (seps, keys) ↦ some (r', found keys, trace')
        ])

  -- the loop over the signatures of a set, with the error of the last one
  unfoldable pub validate_rrsigs :
      ℕ
      → List Rr
      → Resolver (Validating W)
      → List TraceStep
      → Text
      → List Rrsig
      → Option (Resolver (Validating W) × Fetched Rrsig × List TraceStep)
  unfolding keys_for check_rrsig add_dnskey
  validate_rrsigs rr_set_type rr_set r trace last_err [] = some (r, failed last_err, trace)
  validate_rrsigs rr_set_type rr_set r trace last_err (sig ∷ sigs) = do
    (r', fetched, trace') ← keys_for rr_set_type rr_set sig r trace
    elim fetched [
      | failed e ↦
          let rest = validate_rrsigs rr_set_type rr_set r' trace' e sigs in
          if rr_set_type == type_dnskey then some (r', failed e, trace') else rest
      | found keys ↦
          let (w, time) = now r'.world in
          let r'' : Resolver (Validating W) = record r' { world = w } in
          elim (check_rrsig lib sig rr_set keys time) [
            | failed e ↦ validate_rrsigs rr_set_type rr_set r'' trace' e sigs
            | found key ↦
                let used = add_dnskey key (validator_of r'').dnskeys in
                some (
                  with_validator r'' (record r''.world.validator { dnskeys = used }),
                  found sig,
                  trace',
                )
          ]
    ]

  unfoldable pub validate_rrsig :
      ℕ
      → List Rr
      → List Rrsig
      → Resolver (Validating W)
      → List TraceStep
      → Option (Resolver (Validating W) × Fetched Rrsig × List TraceStep)
  unfolding validate_rrsigs
  validate_rrsig rr_set_type rr_set sigs r trace =
      validate_rrsigs rr_set_type rr_set r trace (codes "no RRSIG to verify") sigs

  -- the result for one set
  unfoldable pub validate_set :
      Question
      → List Rr
      → Option (List Rrsig)
      → Resolver (Validating W)
      → List TraceStep
      → Option (Resolver (Validating W) × DnssecPerSetResult × List TraceStep)
  unfolding validate_rrsig
  validate_set key rr_set none r trace = some (r, per_set key DnssecStatus.insecure none [], trace)
  validate_set key rr_set (some sigs) r trace = do
    (r', used, trace') ← validate_rrsig key.type rr_set sigs r trace
    elim used [
      | found sig ↦
          some (r', per_set key DnssecStatus.secure (some (lib.parse_rrsig sig)) [], trace')
      | failed e ↦ some (r', per_set key DnssecStatus.bogus none e, trace')
    ]

  unfoldable pub validate_sets :
      SetMap Rrsig
      → Resolver (Validating W)
      → List TraceStep
      → SetMap Rr
      → Option (Resolver (Validating W) × List DnssecPerSetResult × List TraceStep)
  unfolding validate_set set_at
  validate_sets sigs r trace [] = some (r, [], trace)
  validate_sets sigs r trace (e ∷ m) = do
    (r', result, trace') ← validate_set e.0 e.1 (set_at sigs e.0) r trace
    (r'', results, trace'') ← validate_sets sigs r' trace' m
    some (r'', result ∷ results, trace'')

  unfoldable pub validate_section :
      List Rr
      → Resolver (Validating W)
      → List TraceStep
      → Option (Resolver (Validating W) × List DnssecPerSetResult × List TraceStep)
  unfolding validate_sets split_rrsets_and_sigs
  validate_section section r trace =
      let s = split_rrsets_and_sigs section in
      validate_sets s.rr_sigs r trace (lib.set_order s.rr_sets)
