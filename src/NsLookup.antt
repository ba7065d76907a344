-- ===== src/NsLookup.antt =====
-- `DoNSLookup` of src/zdns/nslookup.go: the name servers of a name with their addresses. `none` is a
-- panic. `net.ParseIP` is part of the network.
pub mod Addresses
pub mod Made
pub mod Servers
use zdns.Prelude.{
  ℕ, Bool, true, false, not, ◌&&◌, ◌||◌, Option, none, some, List, [], ◌∷◌, ◌++◌, ◌>>=◌,
  if◌then◌else◌, Text, codes, text_eq, trim_suffix,
}
use zdns.Names.{dot}
use zdns.Records.{
  Question, Answer, AnyAnswer, as_answer, Status, SingleQueryResult, TraceStep, safe_status,
  type_ns, class_inet,
}
use zdns.Records.NameServers.{NameServer}
use zdns.Lookup.Glue.{verify_address}
use zdns.Cache.Build.{is_nil}
use zdns.Resolver.{is_error, Config, Resolver, LookupError, Network}
use zdns.Resolver.External.{Lookups}
use zdns.IpLookup.{IpResult, look_up, do_targeted_lookup}

pub record NsRecord : Type 0 where
  pub name : Text
  pub type : Text
  pub ipv4_addresses : List Text
  pub ipv6_addresses : List Text
  pub ttl : ℕ

-- the result of a lookup, a list of servers, is `none` for nil
pub record NsReply : Type 0 where
  pub servers : Option (List NsRecord)
  pub trace : List TraceStep
  pub status : Status
  pub error : Option LookupError

abbrev pub AddressMap : Type 0
AddressMap = List (Text × List Text)

-- `m[name] = append(m[name], ip)`
unfoldable pub append_address : AddressMap → Text → Text → AddressMap
append_address [] name ip = (name, ip ∷ []) ∷ []
append_address (e ∷ m) name ip =
    let rest = append_address m name ip in
    if text_eq e.0 name then (e.0, e.1 ++ ip ∷ []) ∷ m else e ∷ rest

unfoldable pub addresses_at : AddressMap → Text → Option (List Text)
addresses_at [] name = none
addresses_at (e ∷ m) name = if text_eq e.0 name then some e.1 else addresses_at m name

-- The glue of one type, `A` or `AAAA`, whose text is an address of that type.
unfoldable pub is_glue_of : (Text → Option (List ℕ)) → Text → Answer → Bool
unfolding verify_address
is_glue_of parse_ip type a = text_eq a.type type && verify_address parse_ip a.type a.answer

unfoldable pub glue_map : (Text → Option (List ℕ)) → Text → AddressMap → List AnyAnswer → AddressMap
unfolding as_answer is_glue_of append_address
glue_map parse_ip type m [] = m
glue_map parse_ip type m (x ∷ xs) = elim (as_answer x) [
  | none ↦ glue_map parse_ip type m xs
  | some a ↦
      glue_map parse_ip type
        (if is_glue_of parse_ip type a
          then append_address m (trim_suffix a.name dot) a.answer
          else m)
        xs
]

-- the addresses in the glue, if they are looked up
unfoldable pub glue_of : Bool → AddressMap → Text → Option (List Text)
unfolding addresses_at
glue_of lookup m name = if lookup then addresses_at m name else none

-- The addresses of a record: those of the glue, or of the lookup that is made for want of glue.
unfoldable pub choose_addresses : Bool → Option (List Text) → Option (List Text) → List Text
choose_addresses lookup (some ips) found = ips
choose_addresses false none found = []
choose_addresses true none none = []
choose_addresses true none (some ips) = ips

abbrev pub is_missing : Bool → Option (List Text) → Bool
is_missing lookup (some ips) = false
is_missing lookup none = lookup

module _ {W C M : Type 0} (net : Network W C M) (cfg : Config) (lookups : Lookups W C)
    (ns : Option NameServer) (lookup_a lookup_aaaa : Bool) where
  -- the record for an NS answer, with the addresses that were found
  abbrev pub record_of :
      AddressMap → AddressMap → Answer → Option (List Text) → Option (List Text) → NsRecord
  record_of ipv4s ipv6s a ips4 ips6 =
      let name = trim_suffix a.answer dot in
      record {
        name = name;
        type = a.type;
        ipv4_addresses = choose_addresses lookup_a (glue_of lookup_a ipv4s name) ips4;
        ipv6_addresses = choose_addresses lookup_aaaa (glue_of lookup_aaaa ipv6s name) ips6;
        ttl = a.ttl;
      }

  abbrev pub is_incomplete : AddressMap → AddressMap → Text → Bool
  is_incomplete ipv4s ipv6s name =
      is_missing lookup_a (glue_of lookup_a ipv4s name)
      || is_missing lookup_aaaa (glue_of lookup_aaaa ipv6s name)

  -- what is missing is looked up at the name server
  unfoldable pub make_record :
      AddressMap
      → AddressMap
      → Resolver W
      → Answer
      → Option (Resolver W × NsRecord × List TraceStep)
  unfolding glue_of choose_addresses do_targeted_lookup
  make_record ipv4s ipv6s r a =
      let name = trim_suffix a.answer dot in
      if is_incomplete ipv4s ipv6s name
      then (do
        (r', reply) ← do_targeted_lookup net cfg lookups r name ns false lookup_a lookup_aaaa
        elim reply.result [
          | none ↦ some (r', record_of ipv4s ipv6s a none none, reply.trace)
          | some ips ↦ some (
            r',
            record_of ipv4s ipv6s a (some ips.ipv4_addresses) (some ips.ipv6_addresses),
            reply.trace,
          )
        ])
      else some (r, record_of ipv4s ipv6s a none none, [])

  unfoldable pub make_records :
      AddressMap
      → AddressMap
      → Resolver W
      → List AnyAnswer
      → List TraceStep
      → Option (Resolver W × List NsRecord × List TraceStep)
  unfolding make_record as_answer
  make_records ipv4s ipv6s r [] trace = some (r, [], trace)
  make_records ipv4s ipv6s r (x ∷ xs) trace = elim (as_answer x) [
    | none ↦ make_records ipv4s ipv6s r xs trace
    | some a ↦
        let rest = make_records ipv4s ipv6s r xs trace in
        if not (text_eq a.type (codes "NS")) then rest else (do
          (r', rec, more) ← make_record ipv4s ipv6s r a
          (r'', recs, trace') ← make_records ipv4s ipv6s r' xs (trace ++ more)
          some (r'', rec ∷ recs, trace'))
  ]

  unfoldable pub do_ns_lookup : Resolver W → Text → Bool → Option (Resolver W × NsReply)
  unfolding look_up glue_map make_records safe_status
  do_ns_lookup r lookup_name is_iterative =
      let refused : LookupError → NsReply =
        λ e. record { servers = none; trace = []; status = Status.other []; error = some e } in
      if is_nil lookup_name
      then some (r, refused LookupError.invalid_name)
      else if not lookup_a && not lookup_aaaa
      then some (r, refused LookupError.no_address_type)
      else (do
        (r', reply) ←
            look_up net cfg lookups r
              (record { type = type_ns; class = class_inet; name = lookup_name }) ns is_iterative
        (if not (safe_status reply.status) || is_error reply.error
            then some (
              r',
              record {
                servers = some [];
                trace = reply.trace;
                status = reply.status;
                error = reply.error;
              },
            )
            else elim reply.result [
              | none ↦ none
              | some res ↦ do
                (r'', recs, trace) ←
                    make_records (glue_map net.parse_ip (codes "A") [] res.additionals)
                      (glue_map net.parse_ip (codes "AAAA") [] res.additionals) r' res.answers
                      reply.trace
                some (
                  r'',
                  record {
                    servers = some recs;
                    trace = trace;
                    status = Status.no_error;
                    error = none;
                  },
                )
            ]))
