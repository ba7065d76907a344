-- ===== src/AllNameServers/Extract.antt =====
-- `extractNameServersFromLayerResults` of src/zdns/lookup.go. A map is a list in the order of the first
-- insertion; the orders of the ranges over maps are parameters, and so are net.IP.String and net.ParseIP.
use zdns.Prelude.{
  ℕ, Bool, true, false, ◌&&◌, Option, none, some, List, [], ◌∷◌, ◌++◌, map, ◌==◌, if◌then◌else◌,
  Text, codes, text_eq, trim_suffix,
}
use zdns.Names.{dot}
use zdns.Records.{Answer, AnyAnswer, as_answer, safe_status, type_ns, type_a, type_aaaa}
use zdns.Records.NameServers.{NameServer, IpVersionMode}
use zdns.AllNameServers.{ExtendedResult}

-- equal keys of the maps of records
abbrev pub same_key : Answer → Answer → Bool
same_key a b = a.rr_type == b.rr_type && text_eq a.name b.name && text_eq a.answer b.answer

-- `m[key] = a`
unfoldable pub put_record : List Answer → Answer → List Answer
put_record [] a = a ∷ []
put_record (b ∷ m) a = let rest = put_record m a in if same_key b a then a ∷ m else b ∷ rest

-- the loop over a section, for the records that are wanted
unfoldable pub put_records : (Answer → Bool) → List Answer → List AnyAnswer → List Answer
unfolding put_record as_answer
put_records wanted m [] = m
put_records wanted m (x ∷ xs) = elim (as_answer x) [
  | none ↦ put_records wanted m xs
  | some a ↦ put_records wanted (if wanted a then put_record m a else m) xs
]

pub record UniqueRecords : Type 0 where
  pub additionals : List Answer
  pub authorities : List Answer
  pub answers : List Answer

abbrev pub is_ns : Answer → Bool
is_ns a = a.rr_type == type_ns

abbrev pub no_records : UniqueRecords
no_records = record { additionals = []; authorities = []; answers = [] }

-- the body of the loop over the results, for a successful one
abbrev pub put_result : UniqueRecords → ExtendedResult → UniqueRecords
put_result u res = record {
  additionals = put_records (λ a. true) u.additionals res.res.additionals;
  authorities = put_records (λ a. true) u.authorities res.res.authorities;
  answers = put_records is_ns u.answers res.res.answers;
}

unfoldable pub unique_records : UniqueRecords → List ExtendedResult → UniqueRecords
unfolding put_records safe_status
unique_records u [] = u
unique_records u (res ∷ results) =
    unique_records (if safe_status res.status then put_result u res else u) results

abbrev pub named_server : Text → NameServer
named_server name = record { ip = none; port = 0; domain_name = name }

-- the domain names that are keys of the maps of name servers
abbrev pub put_server : List NameServer → NameServer → List NameServer
put_server [] ns = ns ∷ []
put_server (s ∷ m) ns =
    let rest = put_server m ns in if text_eq s.domain_name ns.domain_name then ns ∷ m else s ∷ rest

unfoldable pub put_servers : List NameServer → List Answer → List NameServer
put_servers m [] = m
put_servers m (a ∷ authorities) =
    put_servers (if is_ns a then put_server m (named_server (trim_suffix a.answer dot)) else m)
      authorities

-- the address of a name that is in the map
abbrev pub set_ip : List NameServer → Text → Option (List ℕ) → List NameServer
set_ip [] name ip = []
set_ip (s ∷ m) name ip =
    let rest = set_ip m name ip in
    if text_eq s.domain_name name then record s { ip = ip } ∷ m else s ∷ rest

-- the map of the addresses of one type
unfoldable pub set_ips :
    (Text → Option (List ℕ)) → ℕ → List NameServer → List Answer → List NameServer
set_ips parse_ip type m [] = m
set_ips parse_ip type m (a ∷ additionals) =
    set_ips parse_ip type
      (if a.rr_type == type then set_ip m (trim_suffix a.name dot) (parse_ip a.answer) else m)
      additionals

-- The key of a server: the domain name with the text of the address behind it.
unfoldable pub server_key : (List ℕ → Text) → NameServer → Text
server_key ip_string ns =
    ns.domain_name ++ elim ns.ip [ none ↦ codes "<nil>" | some ip ↦ ip_string ip ]

abbrev pub KeyedServers : Type 0
KeyedServers = List (Text × NameServer)

-- a key that is there keeps its server
unfoldable pub add_unique : KeyedServers → Text → NameServer → KeyedServers
add_unique [] key ns = (key, ns) ∷ []
add_unique (e ∷ m) key ns =
    let rest = add_unique m key ns in if text_eq e.0 key then e ∷ m else e ∷ rest

unfoldable pub add_uniques : (List ℕ → Text) → KeyedServers → List NameServer → KeyedServers
unfolding add_unique server_key
add_uniques ip_string m [] = m
add_uniques ip_string m (ns ∷ servers) =
    add_uniques ip_string (add_unique m (server_key ip_string ns) ns) servers

-- the servers of NS answers, under their names alone
unfoldable pub add_answers : KeyedServers → List Answer → KeyedServers
unfolding add_unique
add_answers m [] = m
add_answers m (a ∷ answers) =
    let name = trim_suffix a.answer dot in
    add_answers (add_unique m name (named_server name)) answers

unfoldable pub uses_ipv4 : IpVersionMode → Bool
uses_ipv4 IpVersionMode.ipv6_only = false
uses_ipv4 _ = true

unfoldable pub uses_ipv6 : IpVersionMode → Bool
uses_ipv6 IpVersionMode.ipv4_only = false
uses_ipv6 _ = true

-- the orders of the ranges over the maps
pub record Orders : Type 0 where
  pub authorities : List Answer → List Answer
  pub additionals : List Answer → List Answer
  pub answers : List Answer → List Answer
  pub ipv4 : List NameServer → List NameServer
  pub ipv6 : List NameServer → List NameServer
  pub uniques : KeyedServers → KeyedServers

module _ (ip_string : List ℕ → Text) (parse_ip : Text → Option (List ℕ)) (mode : IpVersionMode)
    (orders : Orders) where
  -- the servers of one kind of address
  abbrev pub servers_with : ℕ → UniqueRecords → List NameServer
  servers_with type u =
      set_ips parse_ip type (put_servers [] (orders.authorities u.authorities))
        (orders.additionals u.additionals)

  unfoldable pub extract_name_servers_from_layer_results : List ExtendedResult → List NameServer
  unfolding unique_records put_servers set_ips add_uniques add_answers uses_ipv4 uses_ipv6
  extract_name_servers_from_layer_results layer_results =
      let u = unique_records no_records layer_results in
      let v4 = orders.ipv4 (servers_with type_a u) in
      let v6 = orders.ipv6 (servers_with type_aaaa u) in
      let m4 = if uses_ipv4 mode then add_uniques ip_string [] v4 else [] in
      let m6 = if uses_ipv6 mode then add_uniques ip_string m4 v6 else m4 in
      map (λ e. e.1) (orders.uniques (add_answers m6 (orders.answers u.answers)))
