-- ===== src/Resolver/Cached/Total.antt =====
-- When `cachedLookup` of src/zdns/lookup.go returns, without the validation of DNSSEC.
use zdns.Prelude.{
  ◌≡◌, ◌⊎◌, inl, inr, refl, Bool, true, false, not, ◌&&◌, Option, none, some, List, [], ◌∷◌, arith,
  Bool-cases, Option-cases, if◌then◌else◌, ◌==◌, Text, text_eq, to_lower,
}
use zdns.Names.{next_authority, dot_name, IsDottable}
use zdns.Cache.Kept.{
  IsGoodResult, IsGoodResult-all, get_cached_authority-IsGood, get_cached_results-IsGood,
}
use zdns.Records.{Question, AnyAnswer, Status, SingleQueryResult, TraceStep, type_ds}
use zdns.Records.NameServers.{NameServer, is_valid_name_server}
use zdns.Cache.Build.{is_nil}
use zdns.Cache.Total.{get_cached_results-IsRead, get_cached_authority-IsRead}
use zdns.Resolver.{
  Config, Resolver, LookupError, Reply, Protocol, Network, failure, success, is_pending,
  delete_pending,
}
use zdns.Resolver.Wire.{Call, go_to_wire}
use zdns.Resolver.Cached.{
  use_authority, ask_authority, find_authority, after_blacklist, after_cache, use_cached, ask_cache,
  lookup_pending, cached_lookup, cached_protocol,
}
use zdns.Resolver.Wire.Total.{
  IsFine, Returns, HasCache, dot_name-some, at_once, Returns-cong, go_to_wire-Returns,
}

module _ {W C M : Type 0} (net : Network W C M) (cfg : Config) (P Q : AnyAnswer → Type 0)
    (wire_fine : (p : Protocol) (w : W) (ctx : C) (q : Question) (ns : NameServer)
        (recursive : Bool)
      → IsFine P Q (net.wire p w ctx q ns recursive).1) where
  module _ (call : Call C) (fqdn : Text) (dotted : dot_name call.q.name ≡ some fqdn) where
    use_authority-Returns :
        (r : Resolver W) (layer auth : Text) (t : List TraceStep)
        (cached : Option SingleQueryResult) (found : Bool)
        → (found ≡ false) ⊎ ((res : SingleQueryResult) × (cached ≡ some res))
        → IsGoodResult P Q cached
        → r.should_validate_dnssec ≡ false
        → HasCache net P Q r
        → Returns
            (HasCache net P Q)
            (IsGoodResult P Q)
            (use_authority net cfg call r layer auth t cached found)
    unfolding use_authority
    use_authority-Returns r layer auth t cached false h good off v =
        go_to_wire-Returns net cfg P Q wire_fine call fqdn dotted r layer auth t off v
    use_authority-Returns r layer auth t none true h good off v = absurd (ground arith)
    use_authority-Returns r layer auth t (some res) true h good off v =
        elim (Bool-cases (not (is_nil res.additionals) && not (is_nil res.authorities))) [
          | inl e ↦ at_once r (success res true t) _ (ground arith) v good
          | inr e ↦
              Returns-cong _ _ (ground arith)
                (go_to_wire-Returns net cfg P Q wire_fine call fqdn dotted r layer auth t off v)
        ]

    ask_authority-Returns :
        (r : Resolver W) (layer auth : Text) (t : List TraceStep)
        → r.should_validate_dnssec ≡ false
        → HasCache net P Q r
        → Returns (HasCache net P Q) (IsGoodResult P Q) (ask_authority net cfg call r layer auth t)
    unfolding ask_authority
    ask_authority-Returns r layer auth t off (v, h) =
        let clock = net.now r.world in
        let read = get_cached_authority-IsRead net.ip_string net.hash clock.1 r.cache none v auth in
        let kept =
          get_cached_authority-IsGood P Q net.ip_string net.hash clock.1 r.cache none v h auth
            read.cache read.result read.found read.done in
        Returns-cong _
          (use_authority net cfg call (record r { world = clock.0; cache = read.cache }) layer auth
            t read.result read.found)
          (rw read.done refl)
          (use_authority-Returns (record r { world = clock.0; cache = read.cache }) layer auth t
            read.result read.found read.has_result (IsGoodResult-all P Q read.result kept.1) off
            (read.valid, kept.0))

    find_authority-Returns :
        (r : Resolver W) (layer : Text) (t : List TraceStep)
        → r.should_validate_dnssec ≡ false
        → HasCache net P Q r
        → Returns (HasCache net P Q) (IsGoodResult P Q) (find_authority net cfg call r layer t)
    unfolding find_authority
    find_authority-Returns r given t off v =
        let name = to_lower call.q.name in
        let layer = to_lower given in
        elim (Option-cases (next_authority name layer)) [
          | inl f ↦
              at_once r (failure Status.auth_fail t (some LookupError.next_authority_error)) _
                (ground arith) v (tt, tt)
          | inr (auth, f) ↦
              elim (Bool-cases (
                not (text_eq name layer)
                && not (text_eq auth layer)
                && not (call.q.type == type_ds))) [
                  | inr e ↦ Returns-cong _ (go_to_wire net cfg call r layer auth t) (ground arith) (
                      go_to_wire-Returns net cfg P Q wire_fine call fqdn dotted r layer auth t off
                        v)
                  | inl e ↦ elim (Bool-cases (is_nil auth)) [
                    | inl n ↦
                        at_once r (failure Status.auth_fail t none) _ (ground arith) v (tt, tt)
                    | inr n ↦
                        Returns-cong _ (ask_authority net cfg call r layer auth t) (ground arith)
                          (ask_authority-Returns r layer auth t off v)
                  ]
                ]
        ]

    after_blacklist-Returns :
        (r : Resolver W) (layer : Text) (t : List TraceStep)
        → r.should_validate_dnssec ≡ false
        → HasCache net P Q r
        → Returns (HasCache net P Q) (IsGoodResult P Q) (after_blacklist net cfg call r layer t)
    unfolding after_blacklist
    after_blacklist-Returns r layer t off v = elim (Bool-cases call.request_iteration) [
      | inl e ↦
          Returns-cong _ (go_to_wire net cfg call r layer [] t) (ground arith)
            (go_to_wire-Returns net cfg P Q wire_fine call fqdn dotted r layer [] t off v)
      | inr e ↦
          Returns-cong _ (find_authority net cfg call r layer t) (ground arith)
            (find_authority-Returns r layer t off v)
    ]

    after_cache-Returns :
        (r : Resolver W) (layer : Text) (t : List TraceStep)
        → r.should_validate_dnssec ≡ false
        → HasCache net P Q r
        → Returns (HasCache net P Q) (IsGoodResult P Q) (after_cache net cfg call r layer t)
    unfolding after_cache
    after_cache-Returns r layer t off v =
        let address : Text = elim call.name_server.ip [ none ↦ [] | some ip ↦ net.ip_string ip ] in
        let unknown : Reply = record {
          result = none;
          is_cached = false;
          status = Status.error;
          trace = t;
          error = some LookupError.blacklist_check;
        } in
        elim (Bool-cases cfg.has_blacklist) [
          | inr e ↦
              Returns-cong _ (after_blacklist net cfg call r layer t) (ground arith)
                (after_blacklist-Returns r layer t off v)
          | inl e ↦ elim (Option-cases (net.is_blacklisted address)) [
            | inl f ↦ at_once r unknown _ (ground arith) v tt
            | inr (b, f) ↦ elim (Bool-cases b) [
              | inl g ↦ at_once r (failure Status.blacklisted t none) _ (ground arith) v (tt, tt)
              | inr g ↦
                  Returns-cong _ (after_blacklist net cfg call r layer t) (ground arith)
                    (after_blacklist-Returns r layer t off v)
            ]
          ]
        ]

    use_cached-Returns :
        (r : Resolver W) (layer : Text) (t : List TraceStep) (cached : Option SingleQueryResult)
        (found : Bool)
        → (found ≡ false) ⊎ ((res : SingleQueryResult) × (cached ≡ some res))
        → IsGoodResult P Q cached
        → r.should_validate_dnssec ≡ false
        → HasCache net P Q r
        → Returns
            (HasCache net P Q)
            (IsGoodResult P Q)
            (use_cached net cfg call r layer t cached found)
    unfolding use_cached
    use_cached-Returns r layer t cached false h good off v = after_cache-Returns r layer t off v
    use_cached-Returns r layer t none true h good off v = absurd (ground arith)
    use_cached-Returns r layer t (some res) true h good off v =
        at_once r (success (record res { protocol = cached_protocol cfg }) true t) _ refl v good

    ask_cache-Returns :
        (r : Resolver W) (layer : Text) (t : List TraceStep)
        → r.should_validate_dnssec ≡ false
        → HasCache net P Q r
        → Returns (HasCache net P Q) (IsGoodResult P Q) (ask_cache net cfg call r layer t)
    unfolding ask_cache
    ask_cache-Returns r layer t off (v, h) =
        let clock = net.now r.world in
        let read =
          get_cached_results-IsRead net.ip_string net.hash clock.1 r.cache call.cache_name_server v
            call.q in
        let kept =
          get_cached_results-IsGood P Q net.ip_string net.hash clock.1 r.cache
            call.cache_name_server v h call.q read.cache read.result read.found read.done in
        Returns-cong _
          (use_cached net cfg call (record r { world = clock.0; cache = read.cache }) layer t
            read.result read.found)
          (rw read.done refl)
          (use_cached-Returns (record r { world = clock.0; cache = read.cache }) layer t read.result
            read.found read.has_result (IsGoodResult-all P Q read.result kept.1) off
            (read.valid, kept.0))

  lookup_pending-Returns :
      (r : Resolver W) (ctx : C) (q : Question) (ns : NameServer) (layer : Text)
      (iterate by_ns cna : Bool) (t : List TraceStep) (fqdn : Text)
      → dot_name q.name ≡ some fqdn
      → r.should_validate_dnssec ≡ false
      → HasCache net P Q r
      → Returns
          (HasCache net P Q)
          (IsGoodResult P Q)
          (lookup_pending net cfg r ctx q ns layer iterate by_ns cna t)
  unfolding lookup_pending
  lookup_pending-Returns r ctx q ns layer iterate by_ns cna t fqdn dotted off v =
      let timed = net.with_timeout r.world ctx cfg.network_timeout in
      let call : Call C = record {
        q = q;
        name_server = ns;
        request_iteration = iterate;
        cache_name_server = if by_ns then some ns else none;
        cache_non_authoritative = cna;
        lookup_ctx = timed.1;
      } in
      elim (Bool-cases (is_valid_name_server ns)) [
        | inr e ↦
            at_once r (failure Status.illegal_input t (some LookupError.invalid_name_server)) _
              (ground arith) v (tt, tt)
        | inl e ↦
            Returns-cong _ (ask_cache net cfg call (record r { world = timed.0 }) layer t)
              (ground arith)
              (ask_cache-Returns call fqdn dotted (record r { world = timed.0 }) layer t off v)
      ]

  pub cached_lookup-Returns :
      (r : Resolver W) (ctx : C) (q : Question) (ns : NameServer) (layer : Text)
      (iterate by_ns cna : Bool) (t : List TraceStep)
      → IsDottable q.name
      → r.should_validate_dnssec ≡ false
      → HasCache net P Q r
      → Returns
          (HasCache net P Q)
          (IsGoodResult P Q)
          (cached_lookup net cfg r ctx q ns layer iterate by_ns cna t)
  unfolding cached_lookup
  cached_lookup-Returns r ctx q ns layer iterate by_ns cna t dottable off v =
      let r0 : Resolver W = record r { pending_queries = q ∷ r.pending_queries } in
      let (fqdn, dotted) = dot_name-some q.name dottable in
      let done = lookup_pending-Returns r0 ctx q ns layer iterate by_ns cna t fqdn dotted off v in
      let r1 = done.resolver in
      elim (Bool-cases (is_pending r.pending_queries q)) [
        | inl e ↦
            at_once r (failure Status.circular t (some LookupError.circular_query)) _ (ground arith)
              v (tt, tt)
        | inr e ↦
            at_once (record r1 { pending_queries = delete_pending r1.pending_queries q }) done.reply
              _ (rw e (rw done.done refl)) done.cache_valid done.result_good
      ]
