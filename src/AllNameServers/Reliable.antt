-- ===== src/AllNameServers/Reliable.antt =====
-- What the queries of src/zdns/lookup.go rely on of the lookups that they are made of, and the lookup of
-- the address of a name server.
use zdns.Prelude.{
  ℕ, ◌≡◌, inl, inr, refl, ◌∙◌, Bool, true, false, not, ◌||◌, Option, none, some, List, [], ◌∷◌,
  arith, ◌==◌, if◌then◌else◌, Bool-cases, Option-cases,
}
use zdns.Records.{Question, SingleQueryResult, TraceStep, safe_status, type_a, type_aaaa, type_ptr}
use zdns.Records.NameServers.{
  IpVersionMode, IterationIpPreference, NameServer, populate_default_port, is_valid_name_server,
}
use zdns.Lookup.Glue.{is_dual}
use zdns.Resolver.{with_own_retries, is_error, Config, Resolver, Reply, Network}
use zdns.Resolver.Authorities.{address_type}
use zdns.Resolver.External.{Lookups, refused, destination, external_lookup}
use zdns.AllNameServers.Layer.{
  find_type, address_call, look_up_address, look_up_addresses, populate_name_server_ip,
}

address_type_no_ptr :
    (mode : IpVersionMode) (preference : IterationIpPreference)
    → (address_type mode preference == type_ptr) ≡ false
unfolding address_type
address_type_no_ptr IpVersionMode.ipv6_only preference = refl
address_type_no_ptr IpVersionMode.ipv4_or_ipv6 IterationIpPreference.prefer_ipv6 = refl
address_type_no_ptr IpVersionMode.ipv4_or_ipv6 IterationIpPreference.prefer_ipv4 = refl
address_type_no_ptr IpVersionMode.ipv4_only preference = refl

-- nor is the other type of address
other_no_ptr : (type : ℕ) → ((if type == type_a then type_aaaa else type_a) == type_ptr) ≡ false
other_no_ptr type = elim (Bool-cases (type == type_a)) [ inl e ↦ rw e refl | inr e ↦ rw e refl ]

-- It returns, the resolver can be used after it, and what it returns is as told.
abbrev pub Returns :
    {W A : Type 0} → (Resolver W → Type 0) → (A → Type 0) → Option (Resolver W × A) → Type 0
Returns {W = W} {A = A} Usable P o =
    (r' : Resolver W) × (x : A) × (o ≡ some (r', x)) × Usable r' × P x

-- A reply of success has a result.
abbrev pub HasResult : Reply → Type 0
HasResult reply =
    is_error reply.error ≡ false
    → safe_status reply.status ≡ true
    → (res : SingleQueryResult) × (reply.result ≡ some res)

-- The lookups return on each resolver that can be used, which is open, for each question that can be
-- asked, which it can if it is for no PTR record.
pub record IsReliable {W C : Type 0} (cfg : Config) (Usable : Resolver W → Type 0)
    (Asks : Question → Type 0) (lookups : Lookups W C) : Type 0 where
  pub opened : (r : Resolver W) → Usable r → r.is_closed ≡ false
  pub at_world : (r : Resolver W) (w : W) → Usable r → Usable (record r { world = w })
  pub with_retries :
      (r : Resolver W) (n : ℕ) (own : Option ℕ)
      → Usable r
      → Usable (record r { retries_remaining = n; own_retries = own })
  pub with_server :
      (r : Resolver W) (ns : NameServer)
      → Usable r
      → Usable (record r { last_used_external_name_server = some ns })
  pub askable : (q : Question) → (q.type == type_ptr) ≡ false → Asks q
  pub asked :
      (r : Resolver W) (ctx : C) (q : Question) (servers : List NameServer) (iterative : Bool)
      → Usable r
      → Asks q
      → Returns Usable HasResult (lookups.do_dst_servers_lookup r ctx q servers iterative)
  pub followed :
      (r : Resolver W) (ctx : C) (q : Question)
      → Usable r
      → Asks q
      → Returns Usable HasResult (
          lookups.following_lookup
            (record { ctx = ctx; q = q; name_servers = cfg.root_name_servers; is_iterative = true })
            r)

module _ {W C M : Type 0} (net : Network W C M) (cfg : Config) (lookups : Lookups W C)
    {Usable : Resolver W → Type 0} {Asks : Question → Type 0}
    (reliable : IsReliable cfg Usable Asks lookups) where
  pub external_lookup-Returns :
      (r : Resolver W) (ctx : C) (q : Question) (ns : NameServer)
      → Usable r
      → Asks q
      → Returns Usable HasResult (external_lookup net cfg lookups r ctx q (some ns))
  unfolding external_lookup destination
  external_lookup-Returns r ctx q ns usable asks =
      let opened : r.is_closed ≡ false = reliable.opened r usable in
      let ns' = populate_default_port ns cfg.dns_over_tls cfg.dns_over_https in
      elim (Bool-cases (is_valid_name_server ns')) [
        | inr v ↦ (r, refused, ground (arith, opened, v), usable, λ ok. cc)
        | inl v ↦
            let (r', reply, e, usable', res) =
              reliable.asked (record r { last_used_external_name_server = some ns' }) ctx q
                (ns' ∷ []) false (reliable.with_server r ns' usable) asks in
            (r', reply, ground (arith, opened, v, e), usable', res)
      ]

  -- A server that is given an address keeps its name.
  abbrev pub SameName : NameServer → Option (NameServer × List TraceStep) → Type 0
  SameName ns got =
      (ns' : NameServer) (trace : List TraceStep)
      → got ≡ some (ns', trace)
      → ns'.domain_name ≡ ns.domain_name

  look_up_address-Returns :
      (r : Resolver W) (ctx : C) (ns : NameServer) (type : ℕ)
      → (type == type_ptr) ≡ false
      → Usable r
      → Returns Usable (SameName ns) (look_up_address net cfg lookups r ctx ns type)
  unfolding look_up_address
  look_up_address-Returns r ctx ns type no_ptr usable =
      let (r', reply, e, usable', has) =
        reliable.followed r ctx (address_call net cfg lookups ctx ns type).q usable
          (reliable.askable (address_call net cfg lookups ctx ns type).q no_ptr) in
      elim (Bool-cases (is_error reply.error || not (safe_status reply.status))) [
        | inl b ↦ (r', none, rw (e, b) refl, usable', λ ns' t f. cc)
        | inr b ↦
            let (res, f) = has (ground arith) (ground arith) in
            elim (Option-cases (find_type type res.answers)) [
              | inl g ↦ (r', none, rw (e, b, f, g) refl, usable', λ ns' t h. cc)
              | inr (a, g) ↦ (
                r',
                some (record ns { ip = net.parse_ip a.answer }, reply.trace),
                rw (e, b, f, g) refl,
                usable',
                λ ns' t h. ground arith,
              )
            ]
      ]

  look_up_addresses-Returns :
      (r : Resolver W) (ctx : C) (ns : NameServer) (type : ℕ)
      → (type == type_ptr) ≡ false
      → Usable r
      → Returns Usable (SameName ns) (look_up_addresses net cfg lookups r ctx ns type)
  unfolding look_up_addresses
  look_up_addresses-Returns r ctx ns type no_ptr usable =
      let (r1, got, f, usable1, named) = look_up_address-Returns r ctx ns type no_ptr usable in
      elim (Option-cases got) [
        | inr (x, g) ↦ (r1, some x, rw (f, g) refl, usable1, λ ns' t h. named ns' t (g ∙ h))
        | inl g ↦ elim (Bool-cases (is_dual cfg.ip_version_mode)) [
          | inr d ↦ (r1, none, rw (f, g, d) refl, usable1, λ ns' t h. cc)
          | inl d ↦
              let (r2, got2, h, usable2, named2) =
                look_up_address-Returns r1 ctx ns (if type == type_a then type_aaaa else type_a)
                  (other_no_ptr type) usable1 in
              (r2, got2, rw (f, g, d, h) refl, usable2, named2)
        ]
      ]

  -- a server without an address may be left without one
  pub populate_name_server_ip-Returns :
      (r : Resolver W) (ctx : C) (ns : NameServer)
      → Usable r
      → Returns Usable
          (λ got. SameName ns got × ((got ≡ none) → ns.ip ≡ none))
          (populate_name_server_ip net cfg lookups r ctx ns)
  unfolding populate_name_server_ip
  populate_name_server_ip-Returns r ctx ns usable = elim (Option-cases ns.ip) [
    | inr (ip, e) ↦
        (r, some (ns, []), ground (arith, e), usable, (λ ns' t f. ground arith, λ f. cc))
    | inl e ↦
        let r0 : Resolver W = record r {
          retries_remaining = cfg.retries;
          own_retries = some r.retries_remaining;
        } in
        let (r1, got, f, usable1, named) =
          look_up_addresses-Returns r0 ctx ns
            (address_type cfg.ip_version_mode cfg.iteration_ip_preference)
            (address_type_no_ptr cfg.ip_version_mode cfg.iteration_ip_preference)
            (reliable.with_retries r cfg.retries (some r.retries_remaining) usable) in
        (
          with_own_retries r1,
          got,
          ground (arith, e, f),
          reliable.with_retries r1 (with_own_retries r1).retries_remaining none usable1,
          (named, λ h. e),
        )
  ]
