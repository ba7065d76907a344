-- ===== src/Dnssec.antt =====
-- src/zdns/dnssec_types.go: the overall status of a validated response.
pub mod Overall
use zdns.Prelude.{
  ℕ, Bool, true, false, ◌&&◌, ◌||◌, Option, none, some, List, [], ◌∷◌, ◌++◌, ◌==◌, if◌then◌else◌,
  Text, codes,
}
use zdns.Records.{
  Question, DnssecStatus, DnssecPerSetResult, DnssecResult, type_dnskey, type_rrsig, type_ds,
  type_nsec, type_nsec3, type_nsec3param,
}

unfoldable pub is_dnssec_type : ℕ → Bool
is_dnssec_type t =
    t == type_dnskey
    || t == type_rrsig
    || t == type_ds
    || t == type_nsec
    || t == type_nsec3
    || t == type_nsec3param

-- the error of the first bogus set of a section
unfoldable pub first_bogus : List DnssecPerSetResult → Option Text
first_bogus [] = none
first_bogus (x ∷ xs) = elim x.status [
  | DnssecStatus.bogus ↦ some x.error
  | DnssecStatus.secure ↦ first_bogus xs
  | DnssecStatus.insecure ↦ first_bogus xs
  | DnssecStatus.indeterminate ↦ first_bogus xs
]

-- What a loop leaves: the status and the reason so far, and whether the method has returned.
pub record Scan : Type 0 where
  pub returned : Bool
  pub status : DnssecStatus
  pub reason : Text

-- the loop over the answers
unfoldable pub scan_answers : DnssecStatus → Text → List DnssecPerSetResult → Scan
scan_answers status reason [] = record { returned = false; status = status; reason = reason }
scan_answers status reason (x ∷ xs) = elim x.status [
  | DnssecStatus.insecure ↦ record {
    returned = true;
    status = DnssecStatus.bogus;
    reason = codes "answer section is not signed when expected to be";
  }
  | DnssecStatus.indeterminate ↦ scan_answers DnssecStatus.indeterminate x.error xs
  | DnssecStatus.secure ↦ scan_answers status reason xs
  | DnssecStatus.bogus ↦ scan_answers status reason xs
]

-- the body for an indeterminate set: it returns unless the status is still secure
unfoldable pub scan_indeterminate : DnssecStatus → Text → Text → Scan → Scan
scan_indeterminate DnssecStatus.secure reason error rest = rest
scan_indeterminate _ reason error rest = record {
  returned = true;
  status = DnssecStatus.indeterminate;
  reason = error;
}

-- the loop over the sets of the other sections, one section behind the other
unfoldable pub scan_others : DnssecStatus → Text → List DnssecPerSetResult → Scan
unfolding is_dnssec_type scan_indeterminate
scan_others status reason [] = record { returned = false; status = status; reason = reason }
scan_others status reason (x ∷ xs) =
    let rest = scan_others status reason xs in
    if is_dnssec_type x.rrset.type
    then elim x.status [
      | DnssecStatus.insecure ↦ record {
        returned = true;
        status = DnssecStatus.bogus;
        reason = codes "DNSSEC-related RRset is not signed when expected to be";
      }
      | DnssecStatus.indeterminate ↦ scan_indeterminate status reason x.error rest
      | DnssecStatus.secure ↦ rest
      | DnssecStatus.bogus ↦ rest
    ]
    else rest

unfoldable pub populate_status : DnssecResult → DnssecResult
unfolding first_bogus scan_answers scan_others
populate_status r = elim (first_bogus (r.answers ++ r.additionals ++ r.authorities)) [
  | some error ↦ record r { status = DnssecStatus.bogus; reason = error }
  | none ↦
      let first = scan_answers DnssecStatus.secure r.reason r.answers in
      if first.returned
      then record r { status = first.status; reason = first.reason }
      else let second = scan_others first.status first.reason (r.additionals ++ r.authorities) in
        record r { status = second.status; reason = second.reason }
]
