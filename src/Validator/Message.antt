-- ===== src/Validator/Message.antt =====
-- `validate` of src/zdns/dnssec.go: the verdict on a message. `none` is a panic.
use zdns.Prelude.{
  ℕ, not, Option, none, some, List, [], ◌++◌, map, ◌>>=◌, if◌then◌else◌, Text, codes,
}
use zdns.Records.{DnssecStatus, DnssecResult, TraceStep}
use zdns.Records.NameServers.{NameServer}
use zdns.Cache.Build.{is_nil, make_dnssec_result}
use zdns.Dnssec.{populate_status}
use zdns.Resolver.{Resolver}
use zdns.Validator.{
  Msg, ValidatorState, Validating, validator_of, with_validator, LookUp, Fetched, failed, found,
  DnsLibrary,
}
use zdns.Validator.Keys.{Delegation, nsec_proof, records, is_secure, fetch_ds_records}
use zdns.Validator.Sections.{has_rrsig, validate_section}

unfoldable pub make_dnssec_validator : ValidatorState
make_dnssec_validator = record {
  status = DnssecStatus.secure;
  reason = [];
  msg = none;
  name_server = none;
  ds = [];
  dnskeys = [];
}

unfoldable pub reset_dnssec_validator : ValidatorState → Msg → NameServer → ValidatorState
reset_dnssec_validator v msg name_server = record v {
  msg = some msg;
  name_server = some name_server;
  ds = [];
  dnskeys = [];
}

abbrev pub verdict : DnssecStatus → Text → DnssecResult
verdict status reason = record make_dnssec_result { status = status; reason = reason }

-- The status of the validator is that of the first message that was not secure.
unfoldable pub conclude :
    {W : Type 0}
    → Text
    → Resolver (Validating W)
    → DnssecResult
    → Resolver (Validating W) × DnssecResult
unfolding is_secure
conclude layer r result =
    let v = validator_of r in
    let reason = codes "zone " ++ (layer ++ (codes ": " ++ result.reason)) in
    if not (is_secure v.status)
    then (r, verdict v.status v.reason)
    else if is_nil result.reason
    then (with_validator r (record r.world.validator { status = result.status }), result)
    else (
      with_validator r (record r.world.validator { status = result.status; reason = reason }),
      record result { reason = reason },
    )

module _ {W : Type 0} (lib : DnsLibrary) (look_up : LookUp W)
    (now : Validating W → Validating W × ℕ) where
  -- The sections of the message that the validator has when each is read. A lookup may have put
  -- another one in its place.
  unfoldable pub validate_sections :
      Resolver (Validating W)
      → List TraceStep
      → Option (Resolver (Validating W) × DnssecResult × List TraceStep)
  unfolding validate_section make_dnssec_result
  validate_sections r trace = do
    msg ← (validator_of r).msg
    (r1, answers, trace1) ← validate_section lib look_up now msg.answer r trace
    msg1 ← (validator_of r1).msg
    (if msg1.authoritative
        then some (r1, record make_dnssec_result { answers = answers }, trace1)
        else (do
          (r2, additionals, trace2) ← validate_section lib look_up now msg1.extra r1 trace1
          msg2 ← (validator_of r2).msg
          (r3, authorities, trace3) ← validate_section lib look_up now msg2.ns r2 trace2
          some (
            r3,
            record make_dnssec_result {
              answers = answers;
              additionals = additionals;
              authorities = authorities;
            },
            trace3,
          )))

  -- a message with a signature, in a zone with DS records
  unfoldable pub validate_signed :
      Resolver (Validating W)
      → Msg
      → NameServer
      → List TraceStep
      → Option (Resolver (Validating W) × DnssecResult × List TraceStep)
  unfolding validate_sections reset_dnssec_validator populate_status
  validate_signed r msg name_server trace = do
    (r', result, trace') ←
        validate_sections
          (with_validator r (reset_dnssec_validator r.world.validator msg name_server)) trace
    (let v = validator_of r' in
        let result' : DnssecResult = record result {
          dses = map lib.parse_ds (lib.ds_order v.ds);
          dnskeys = map lib.parse_dnskey (lib.dnskey_order v.dnskeys);
        } in
        some (r', populate_status result', trace'))

  unfoldable pub validate_delegated :
      Resolver (Validating W)
      → Msg
      → NameServer
      → List TraceStep
      → Fetched Delegation
      → Option (Resolver (Validating W) × DnssecResult × List TraceStep)
  unfolding validate_signed has_rrsig
  validate_delegated r msg name_server trace (failed e) =
      some (r, verdict DnssecStatus.indeterminate e, trace)
  validate_delegated r msg name_server trace (found nsec_proof) =
      some (r, verdict DnssecStatus.insecure [], trace)
  validate_delegated r msg name_server trace (found (records ds_records)) =
      if is_nil ds_records
      then some (
        r,
        verdict DnssecStatus.indeterminate
            (codes "No delegation and no NSEC attesting to the non-existence"),
        trace,
      )
      else if not (has_rrsig msg)
      then some (
        r,
        verdict DnssecStatus.bogus (codes "DS exists but no RRSIG records found in message"),
        trace,
      )
      else validate_signed r msg name_server trace

  unfoldable pub validate :
      Resolver (Validating W)
      → Text
      → Msg
      → NameServer
      → List TraceStep
      → Option (Resolver (Validating W) × DnssecResult × List TraceStep)
  unfolding fetch_ds_records validate_delegated conclude is_secure
  validate r layer msg name_server trace =
      let v = validator_of r in
      if not (is_secure v.status) then some (r, verdict v.status v.reason, trace) else (do
        (r1, fetched, trace1) ← fetch_ds_records lib look_up r (lib.canonical_name layer) trace
        (r2, result, trace2) ← validate_delegated r1 msg name_server trace1 fetched
        (let (r3, final) = conclude layer r2 result in some (r3, final, trace2)))
