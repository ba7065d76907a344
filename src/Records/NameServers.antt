-- ===== src/Records/NameServers.antt =====
-- src/zdns/types.go: modes, and name servers with their addresses.
use zdns.Prelude.{
  ℕ, zero, suc, ◌+◌, ◌/◌, ◌%◌, Bool, true, false, ◌&&◌, Option, none, some, List, [], ◌∷◌, ◌++◌,
  length, take, drop, replicate, ltb, ◌==◌, if◌then◌else◌, Text, text_eq,
}

pub data TransportMode : Type 0 where
  udp_or_tcp udp_only tcp_only : TransportMode

unfoldable pub get_transport_mode : Bool → Bool → TransportMode
get_transport_mode use_udp use_tcp =
    if use_udp && use_tcp
    then udp_or_tcp
    else if use_udp
    then udp_only
    else if use_tcp
    then tcp_only
    else udp_or_tcp

pub data IpVersionMode : Type 0 where
  ipv4_only ipv6_only ipv4_or_ipv6 : IpVersionMode

unfoldable pub get_ip_version_mode : Bool → Bool → IpVersionMode
get_ip_version_mode ipv4 ipv6 =
    if ipv4 && ipv6
    then ipv4_or_ipv6
    else if ipv4
    then ipv4_only
    else if ipv6
    then ipv6_only
    else ipv4_only

pub data IterationIpPreference : Type 0 where
  prefer_ipv4 prefer_ipv6 : IterationIpPreference

unfoldable pub get_iteration_ip_preference : Bool → Bool → IterationIpPreference
get_iteration_ip_preference prefer4 prefer6 =
    if prefer4 then prefer_ipv4 else if prefer6 then prefer_ipv6 else prefer_ipv4

-- `net.IP` is a slice of bytes, or nil
pub record NameServer : Type 0 where
  pub ip : Option (List ℕ)
  pub port : ℕ
  pub domain_name : Text

-- the first bytes of an IPv4 address in 16 bytes
abbrev v4_in_v6 : List ℕ
v4_in_v6 = replicate 10 0 ++ 0xff ∷ 0xff ∷ []

-- net.IP.To4 and net.IP.To16
unfoldable pub to4 : List ℕ → Option (List ℕ)
to4 ip =
    if length ip == 4
    then some ip
    else if length ip == 16 && text_eq (take 12 ip) v4_in_v6
    then some (drop 12 ip)
    else none

unfoldable pub to16 : List ℕ → Option (List ℕ)
to16 ip =
    if length ip == 4 then some (v4_in_v6 ++ ip) else if length ip == 16 then some ip else none

-- `util.IsIPv6`, of an address that is not nil
unfoldable pub is_ipv6 : List ℕ → Bool
unfolding to4 to16
is_ipv6 ip = elim (to4 ip) [
  | some v ↦ false
  | none ↦ elim (to16 ip) [ some v ↦ true | none ↦ false ]
]

-- `%d` of a number of at most `fuel` digits
unfoldable pub decimal : ℕ → ℕ → Text
decimal zero n = []
decimal (suc fuel) n =
    let front = decimal fuel (n / 10) in
    if ltb n 10 then (b'0' + n) ∷ [] else front ++ (b'0' + n % 10) ∷ []

-- A port has 16 bits, so five digits.
unfoldable pub show_port : ℕ → Text
unfolding decimal
show_port = decimal 5

-- `NameServer.String`; `ip_string` is the method `String` of `net.IP`
module _ (ip_string : List ℕ → Text) where
  show_address : List ℕ → ℕ → Text
  unfolding to4 is_ipv6 show_port
  show_address ip port = elim (to4 ip) [
    | some v ↦ ip_string ip ++ b':' ∷ show_port port
    | none ↦ if is_ipv6 ip then b'[' ∷ (ip_string ip ++ b']' ∷ b':' ∷ show_port port) else []
  ]

  unfoldable pub show_name_server : Option NameServer → Text
  unfolding show_address
  show_name_server none = []
  show_name_server (some ns) = elim ns.ip [ none ↦ [] | some ip ↦ show_address ip ns.port ]

unfoldable pub populate_default_port : NameServer → Bool → Bool → NameServer
populate_default_port ns using_dot using_doh =
    if ns.port == 0
    then (if using_dot
        then record ns { port = 853 }
        else if using_doh
        then record ns { port = 443 }
        else record ns { port = 53 })
    else ns

-- the flag of `NameServer.IsValid`
unfoldable pub is_valid_name_server : NameServer → Bool
unfolding to4 to16
is_valid_name_server ns = elim ns.ip [
  | none ↦ false
  | some ip ↦ elim (to4 ip) [
    | some v ↦ if ns.port == 0 then false else true
    | none ↦ elim (to16 ip) [ none ↦ false | some v ↦ if ns.port == 0 then false else true ]
  ]
]

-- A nil address is copied to an empty one.
unfoldable pub deep_copy : Option NameServer → Option NameServer
deep_copy none = none
deep_copy (some ns) = some (record ns { ip = elim ns.ip [ none ↦ some [] | some ip ↦ some ip ] })
