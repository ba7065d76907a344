-- ===== src/Tests/AllServers.antt =====
-- The theorems on the lookups at all name servers, of addresses and of name servers, at concrete inputs.
use zdns.Prelude.{
  ◌==◌, if◌then◌else◌, ℕ, ◌≡◌, inl, refl, sym, arith, true, false, none, some, List, [], ◌∷◌, any,
  Text, codes, text_eq, has_suffix, trim_suffix,
}
use zdns.Prelude.StringLaws.{text_eq_iff}
use zdns.Records.{Question, AnyAnswer, Status, SingleQueryResult, as_answer, safe_status, type_ns}
use zdns.Records.NameServers.{NameServer}
use zdns.Lookup.Servers.Groups.{is_named}
use zdns.Resolver.{Resolver, success}
use zdns.Resolver.External.{Lookups}
use zdns.AllNameServers.{ExtendedResult}
use zdns.AllNameServers.Extract.{
  Orders, put_record, put_records, unique_records, put_servers, set_ips, server_key, add_unique,
  add_uniques, add_answers, uses_ipv4, uses_ipv6, extract_name_servers_from_layer_results,
}
use zdns.AllNameServers.Named.{layer_names}
use zdns.AllNameServers.Keyed.{Apart}
use zdns.AllNameServers.Found.{
  AreReorders, extract_name_servers_from_layer_results_sound,
  extract_name_servers_from_layer_results_complete,
}
use zdns.AllNameServers.Selected.{Selected}
use zdns.AllNameServers.Asked.{Asked}
use zdns.Tests.Data.{cfg, server, test_ip_string, response, referral, name_server}
use zdns.Tests.Resolvers.{net}

-- lookups that answer a question for name servers with a referral, and others with an address
abbrev answer : Question → SingleQueryResult
answer q =
    if q.type == type_ns
    then record referral { answers = AnyAnswer.answer server ∷ [] }
    else response

abbrev lookups : Lookups ℕ ℕ
lookups = record {
  do_dst_servers_lookup = λ r ctx q servers is_iterative. some (r, success (answer q) false []);
  following_lookup = λ call r. some (r, success (answer call.q) false []);
}

abbrev IsOpen : Resolver ℕ → Type 0
IsOpen r = r.is_closed ≡ false

abbrev AnyQuestion : Question → Type 0
AnyQuestion q = Unit

abbrev type_text : ℕ → Text
type_text type = codes "A"

-- a server with an address and one without
abbrev two_servers : List NameServer
two_servers = name_server ∷ record name_server { ip = none; domain_name = codes "b.test" } ∷ []

-- maps are visited in the order of their lists
abbrev orders : Orders
orders = record {
  authorities = λ m. m;
  additionals = λ m. m;
  answers = λ m. m;
  ipv4 = λ m. m;
  ipv6 = λ m. m;
  uniques = λ m. m;
}

orders-AreReorders : AreReorders orders
orders-AreReorders = record {
  authorities = λ m p. refl;
  answers = λ m p. refl;
  ipv4 = λ m p. refl;
  ipv6 = λ m p. refl;
  uniques = λ m p. refl;
}

-- the results of a layer, one of them a failure
abbrev layer_results : List ExtendedResult
layer_results =
    record {
      type = codes "NS";
      res = referral;
      status = Status.no_error;
      nameserver = codes "a.test";
    }
    ∷ record {
      type = codes "NS";
      res = response;
      status = Status.serv_fail;
      nameserver = codes "b.test";
    }
    ∷ []

abbrev ns_name : Text
ns_name = codes "ns.example.com"

extract_name_servers_from_layer_results_sound_example : layer_names ns_name layer_results ≡ true
unfolding extract_name_servers_from_layer_results put_record put_records unique_records put_servers
    set_ips server_key add_unique add_uniques add_answers uses_ipv4 uses_ipv6 text_eq as_answer
    safe_status trim_suffix has_suffix
extract_name_servers_from_layer_results_sound_example =
    extract_name_servers_from_layer_results_sound test_ip_string net.parse_ip cfg.ip_version_mode
      orders orders-AreReorders layer_results ns_name refl

-- the only name server of the layer
apart : (d : Text) → layer_names d layer_results ≡ true → Apart ns_name d
unfolding as_answer safe_status trim_suffix has_suffix text_eq
apart d h = inl (sym ((text_eq_iff ns_name d).0 (ground (arith, h))))

extract_name_servers_from_layer_results_complete_example :
    any (is_named ns_name) (
      extract_name_servers_from_layer_results test_ip_string net.parse_ip cfg.ip_version_mode orders
        layer_results)
    ≡ true
unfolding as_answer safe_status trim_suffix has_suffix text_eq
extract_name_servers_from_layer_results_complete_example =
    extract_name_servers_from_layer_results_complete test_ip_string net.parse_ip cfg.ip_version_mode
      orders orders-AreReorders layer_results ns_name apart refl
