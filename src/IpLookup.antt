-- ===== src/IpLookup.antt =====
-- `DoTargetedLookup` of src/zdns/alookup.go: the addresses of a name. `none` is a panic.
pub mod Outcome
use zdns.Prelude.{
  ℕ, Bool, true, false, not, ◌&&◌, Option, none, some, List, [], ◌++◌, ◌>>=◌, if◌then◌else◌, Text,
  codes, to_lower,
}
use zdns.Records.{
  Question, Status, SingleQueryResult, empty_result, TraceStep, safe_status, type_a, type_aaaa,
  class_inet,
}
use zdns.Records.NameServers.{NameServer}
use zdns.Lookup.Glue.{get_ip_addresses_from_query_result, unique}
use zdns.Cache.Build.{is_nil}
use zdns.Resolver.{Config, Resolver, LookupError, Reply, Network}
use zdns.Resolver.External.{Lookups, external_lookup, resolver_iterative_lookup}

pub record IpResult : Type 0 where
  pub ipv4_addresses : List Text
  pub ipv6_addresses : List Text

pub record IpReply : Type 0 where
  pub result : Option IpResult
  pub trace : List TraceStep
  pub status : Status
  pub error : Option LookupError

-- the variables of a lookup that is not made: an empty result and the empty status
abbrev pub not_looked_up : Reply
not_looked_up = record {
  result = some empty_result;
  is_cached = false;
  status = Status.other [];
  trace = [];
  error = none;
}

-- the addresses of a result, without duplicates; a nil result has none
unfoldable pub addresses : Reply → Text → List Text
unfolding get_ip_addresses_from_query_result unique
addresses reply type = elim (get_ip_addresses_from_query_result reply.result type) [
  | none ↦ []
  | some ips ↦ unique ips
]

-- what is returned of the two lookups; the error of the second is not kept
unfoldable pub combine : Bool → Bool → Reply → Reply → IpReply
unfolding addresses safe_status
combine lookup_a lookup_aaaa reply4 reply6 =
    let ipv4 = addresses reply4 (codes "A") in
    let ipv6 = addresses reply6 (codes "AAAA") in
    let trace = reply4.trace ++ reply6.trace in
    let nothing : Status → IpReply =
      λ status. record { result = none; trace = trace; status = status; error = reply4.error } in
    let found : IpReply = record {
      result = some (record { ipv4_addresses = ipv4; ipv6_addresses = ipv6 });
      trace = trace;
      status = Status.no_error;
      error = none;
    } in
    if not (is_nil ipv4 && is_nil ipv6)
    then found
    else if lookup_a && not (safe_status reply4.status)
    then nothing reply4.status
    else if lookup_aaaa && not (safe_status reply6.status)
    then nothing reply6.status
    else found

module _ {W C M : Type 0} (net : Network W C M) (cfg : Config) (lookups : Lookups W C) where
  -- an iterative lookup, or one at the name server
  unfoldable pub look_up :
      Resolver W → Question → Option NameServer → Bool → Option (Resolver W × Reply)
  unfolding external_lookup resolver_iterative_lookup
  look_up r q ns is_iterative =
      if is_iterative
      then resolver_iterative_lookup net cfg lookups r net.background q
      else external_lookup net cfg lookups r net.background q ns

  abbrev pub address_question : ℕ → Text → Question
  address_question type name = record { type = type; class = class_inet; name = to_lower name }

  unfoldable pub look_up_if :
      Bool → Resolver W → Question → Option NameServer → Bool → Option (Resolver W × Reply)
  unfolding look_up
  look_up_if wanted r q ns is_iterative =
      if wanted then look_up r q ns is_iterative else some (r, not_looked_up)

  unfoldable pub do_targeted_lookup :
      Resolver W → Text → Option NameServer → Bool → Bool → Bool → Option (Resolver W × IpReply)
  unfolding look_up_if combine to_lower
  do_targeted_lookup r name ns is_iterative lookup_a lookup_aaaa = do
    (r4, reply4) ← look_up_if lookup_a r (address_question type_a name) ns is_iterative
    (r6, reply6) ← look_up_if lookup_aaaa r4 (address_question type_aaaa name) ns is_iterative
    some (r6, combine lookup_a lookup_aaaa reply4 reply6)
