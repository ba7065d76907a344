-- ===== src/Lookup/Servers.antt =====
-- `filterNameServersForUniqueNames` of src/zdns/lookup.go: one name server of each name. `none` is a
-- panic. A map is an association list in the order of the first insertion; Go's order of the `range`
-- over it is a parameter.
pub mod Choice
pub mod Groups
pub mod OnePerName
use zdns.Prelude.{
  ℕ, Bool, true, false, Option, none, some, List, [], ◌∷◌, ◌++◌, ◌>>=◌, if◌then◌else◌, Text,
  text_eq,
}
use zdns.Records.NameServers.{NameServer, IpVersionMode, IterationIpPreference, to4, is_ipv6}

abbrev pub ServerMap : Type 0
ServerMap = List (Text × List NameServer)

-- the body of the first loop: a missing name gets a slice, and the server is put at its end
unfoldable pub append_server : ServerMap → NameServer → ServerMap
append_server [] ns = (ns.domain_name, ns ∷ []) ∷ []
append_server (e ∷ m) ns =
    let rest = append_server m ns in
    if text_eq e.0 ns.domain_name then (e.0, e.1 ++ ns ∷ []) ∷ m else e ∷ rest

unfoldable pub group_servers : ServerMap → List NameServer → ServerMap
unfolding append_server
group_servers m [] = m
group_servers m (ns ∷ servers) = group_servers (append_server m ns) servers

-- the body of the loop that looks for an IPv4 and an IPv6 address
unfoldable pub note_family :
    Option NameServer → Option NameServer → NameServer → Option NameServer × Option NameServer
unfolding to4 is_ipv6
note_family ipv4_ns ipv6_ns ns = elim ns.ip [
  | none ↦ (ipv4_ns, ipv6_ns)
  | some ip ↦ elim (to4 ip) [
    | some v ↦ (some ns, ipv6_ns)
    | none ↦ if is_ipv6 ip then (ipv4_ns, some ns) else (ipv4_ns, ipv6_ns)
  ]
]

-- the last server with an IPv4 address and the last with an IPv6 address
unfoldable pub last_of_families :
    Option NameServer → Option NameServer → List NameServer → Option NameServer × Option NameServer
unfolding note_family
last_of_families ipv4_ns ipv6_ns [] = (ipv4_ns, ipv6_ns)
last_of_families ipv4_ns ipv6_ns (ns ∷ servers) =
    let (a, b) = note_family ipv4_ns ipv6_ns ns in last_of_families a b servers

-- the choice between an IPv4 and an IPv6 address
unfoldable pub prefer : IpVersionMode → IterationIpPreference → NameServer → NameServer → NameServer
prefer IpVersionMode.ipv4_only preference ipv4_ns ipv6_ns = ipv4_ns
prefer IpVersionMode.ipv6_only preference ipv4_ns ipv6_ns = ipv6_ns
prefer IpVersionMode.ipv4_or_ipv6 IterationIpPreference.prefer_ipv4 ipv4_ns ipv6_ns = ipv4_ns
prefer IpVersionMode.ipv4_or_ipv6 IterationIpPreference.prefer_ipv6 ipv4_ns ipv6_ns = ipv6_ns

-- the server that is kept of those with a name; without any server there is a nil to read
unfoldable pub choose_server :
    IpVersionMode → IterationIpPreference → List NameServer → Option NameServer
unfolding last_of_families prefer
choose_server mode preference servers =
    let (ipv4_ns, ipv6_ns) = last_of_families none none servers in
    elim ipv4_ns [
      | none ↦ elim ipv6_ns [
        | none ↦ elim servers [ [] ↦ none | ns ∷ rest ↦ some ns ]
        | some b ↦ some b
      ]
      | some a ↦ elim ipv6_ns [ none ↦ some a | some b ↦ some (prefer mode preference a b) ]
    ]

unfoldable pub choose_servers :
    IpVersionMode → IterationIpPreference → ServerMap → Option (List NameServer)
unfolding choose_server
choose_servers mode preference [] = some []
choose_servers mode preference (e ∷ m) = do
  ns ← choose_server mode preference e.1
  rest ← choose_servers mode preference m
  some (ns ∷ rest)

unfoldable pub filter_name_servers_for_unique_names :
    IpVersionMode
    → IterationIpPreference
    → (ServerMap → ServerMap)
    → List NameServer
    → Option (List NameServer)
unfolding group_servers choose_servers
filter_name_servers_for_unique_names mode preference order name_servers =
    choose_servers mode preference (order (group_servers [] name_servers))
