-- ===== src/Tests/Lookups.antt =====
-- The theorems on names, on the overall DNSSEC status and on the helpers of a lookup at concrete
-- inputs.
use zdns.Prelude.{
  ℕ, ◌≡◌, ◌⊎◌, any, Bool, ◌↔◌, inl, refl, true, Option, none, some, List, [], ◌∷◌, arith, Text,
  codes, text_eq, has_suffix, trim_suffix, to_lower, to_lower_byte, if◌then◌else◌,
}
use zdns.Names.{dot, name_is_beneath, next_authority}
use zdns.Names.Labels.{join}
use zdns.Names.Beneath.{IsBeneath, canonical, name_is_beneath_iff}
use zdns.Names.Authority.{layer_of, next_authority_lem}
use zdns.Records.{
  Answer, AnyAnswer, DnssecStatus, DnssecPerSetResult, DnssecResult, type_cname, type_a, class_inet,
}
use zdns.Records.NameServers.{NameServer, IpVersionMode, IterationIpPreference}
use zdns.Cache.Build.{make_dnssec_result}
use zdns.Dnssec.{populate_status}
use zdns.Dnssec.Overall.{IsSecure, IsUnsafe, populate_status_lem}
use zdns.Lookup.Servers.{filter_name_servers_for_unique_names}
use zdns.Lookup.Servers.Groups.{count, is_named}
use zdns.Lookup.Servers.OnePerName.{filter_name_servers_for_unique_names_lem}
use zdns.Lookup.Chains.{
  AnswerMap, answers_at, AnswerSets, target_name, apply_dname, next_name, complete_from,
  is_lookup_complete,
}
use zdns.Lookup.Chains.Complete.{
  here, hop, Resolves, is_lookup_complete-Chain, is_lookup_complete-Resolves,
  is_lookup_complete_unknown,
}
use zdns.Tests.Data.{example, address}

name_is_beneath_iff_example :
    (((name_is_beneath (codes "WWW.Example.com.") example).0 ≡ true) ↔ (
      (to_lower example ≡ dot)
      ⊎ IsBeneath (canonical (codes "WWW.Example.com.")) (to_lower example)))
    × ((name_is_beneath (codes "WWW.Example.com.") example).1 ≡ (
        if (name_is_beneath (codes "WWW.Example.com.") example).0
        then canonical (codes "WWW.Example.com.")
        else []))
name_is_beneath_iff_example = name_is_beneath_iff (codes "WWW.Example.com.") example

next_authority_lem_example :
    next_authority
      (join (codes "www" ∷ codes "example" ∷ codes "com" ∷ []))
      (layer_of (codes "com" ∷ []))
    ≡ some (join (codes "example" ∷ codes "com" ∷ []))
next_authority_lem_example =
    next_authority_lem (codes "www" ∷ []) (codes "example") (codes "com" ∷ []) (ground arith)
      (ground arith) (inl (λ e. cc))

-- the records of an A set in a section, with a status
abbrev record_set : DnssecStatus → DnssecPerSetResult
record_set status = record {
  rrset = record { type = type_a; class = class_inet; name = example };
  status = status;
  signature = none;
  error = codes "broken";
}

abbrev validated : DnssecResult
validated = record make_dnssec_result {
  answers = record_set DnssecStatus.secure ∷ [];
  additionals = record_set DnssecStatus.bogus ∷ record_set DnssecStatus.insecure ∷ [];
}

populate_status_lem_example :
    (((populate_status validated).status ≡ DnssecStatus.secure) × IsSecure validated)
    ⊎ (IsUnsafe (populate_status validated).status × ¬ IsSecure validated)
populate_status_lem_example = populate_status_lem validated

abbrev repeated : List Text
repeated = codes "a" ∷ codes "b" ∷ codes "a" ∷ []

-- a chain of one CNAME from www.example.com to example.com, which has an address
abbrev alias : Answer
alias = record address {
  type = codes "CNAME";
  rr_type = type_cname;
  name = codes "www.example.com";
  answer = codes "Example.com.";
}

abbrev chained : AnswerSets
chained = record {
  candidates = (example, address ∷ []) ∷ [];
  cnames = (codes "www.example.com", alias ∷ []) ∷ [];
  dnames = [];
  garbage = [];
}

abbrev as_given : ℕ → AnswerMap → AnswerMap
as_given i m = m

is_lookup_complete-Chain_example :
    is_lookup_complete as_given (codes "www.example.com") chained ≡ true
unfolding answers_at target_name text_eq to_lower to_lower_byte trim_suffix has_suffix
is_lookup_complete-Chain_example =
    is_lookup_complete-Chain as_given chained 1 (codes "www.example.com") example address []
      (omega arith) (hop 0 (codes "www.example.com") example alias [] refl (here example)) refl

is_lookup_complete-Resolves_example :
    Resolves as_given chained (codes "www.example.com") 0 (codes "www.example.com")
unfolding is_lookup_complete complete_from next_name answers_at target_name text_eq to_lower
    to_lower_byte trim_suffix has_suffix
is_lookup_complete-Resolves_example =
    is_lookup_complete-Resolves as_given chained (codes "www.example.com") refl

-- nothing is known of example.org
is_lookup_complete_unknown_example :
    is_lookup_complete as_given (codes "example.org") chained ≡ true
unfolding answers_at text_eq apply_dname
is_lookup_complete_unknown_example =
    is_lookup_complete_unknown as_given chained (codes "example.org") refl refl refl (omega arith)

abbrev no_answers : AnswerSets
no_answers = record { candidates = []; cnames = []; dnames = []; garbage = [] }

abbrev parse_some : Text → Option (List ℕ)
parse_some t = if has_suffix t (codes "1") then some t else none

abbrev type_number : Text → ℕ
type_number t = if text_eq t (codes "A") then type_a else type_cname

abbrev section_of_two : List AnyAnswer
section_of_two = AnyAnswer.answer alias ∷ AnyAnswer.answer address ∷ []

-- two servers of one name and one of another
abbrev servers : List NameServer
servers =
    record { ip = some (192 ∷ 0 ∷ 2 ∷ 1 ∷ []); port = 53; domain_name = codes "a.test" }
    ∷ record { ip = some (192 ∷ 0 ∷ 2 ∷ 2 ∷ []); port = 53; domain_name = codes "b.test" }
    ∷ record { ip = none; port = 53; domain_name = codes "a.test" }
    ∷ []

filter_name_servers_for_unique_names_lem_example :
    (result : List NameServer) × (filter_name_servers_for_unique_names IpVersionMode.ipv4_only
        IterationIpPreference.prefer_ipv4
        (λ m. m)
        servers
      ≡ some result)
    × ((k : Text) → count (is_named k) result ≡ (if any (is_named k) servers then 1 else 0))
    × ((p : NameServer → Bool) → any p result ≡ true → any p servers ≡ true)
filter_name_servers_for_unique_names_lem_example =
    filter_name_servers_for_unique_names_lem IpVersionMode.ipv4_only
      IterationIpPreference.prefer_ipv4 (λ m. m) servers (λ p. refl)
