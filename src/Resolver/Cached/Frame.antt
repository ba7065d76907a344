-- ===== src/Resolver/Cached/Frame.antt =====
-- `cachedLookup` of src/zdns/lookup.go and the state of the resolver, without DNSSEC validation.
use zdns.Names.{dot_name}
use zdns.Prelude.{
  ◌>>=◌, sym, refl, Option-cases, ◌≡◌, inl, inr, refl, ap, Bool, true, false, not, ◌&&◌, ◌||◌,
  Option, none, some, List, [], ◌∷◌, arith, Bool-cases, Option-cases, if◌then◌else◌, Text, to_lower,
}
use zdns.Names.{next_authority}
use zdns.Records.{Question, SingleQueryResult, TraceStep, safe_status}
use zdns.Records.NameServers.{NameServer, is_valid_name_server}
use zdns.Cache.{get_cached_results, get_cached_authority}
use zdns.Resolver.{
  Config, Resolver, Reply, ConnectionInfo, Protocol, WireReply, Network, is_pending, delete_pending,
}
use zdns.Resolver.Wire.{
  Call, store, store_reply, accept_result, accept_reply, finish_wire, is_truncated, wire_by,
  wire_udp, go_to_wire,
}
use zdns.Resolver.Cached.{
  use_authority, ask_authority, find_authority, after_blacklist, after_cache, use_cached, ask_cache,
  lookup_pending, cached_lookup,
}

-- what stays the same: the retries, whether DNSSEC is validated, and the pending queries
abbrev pub Keeps : {W : Type 0} → Resolver W → Resolver W → Type 0
Keeps r r' =
    (r'.retries_remaining ≡ r.retries_remaining)
    × (r'.should_validate_dnssec ≡ r.should_validate_dnssec)
    × (r'.pending_queries ≡ r.pending_queries)

-- a reply of success has a result
abbrev pub is_answered : Reply → Bool
is_answered reply =
    not (safe_status reply.status) || elim reply.result [ none ↦ false | some res ↦ true ]

-- and so does a reply of the wire without an error
abbrev pub is_wire_answered : {M : Type 0} → WireReply M → Bool
is_wire_answered given =
    given.failed
    || not (safe_status given.status)
    || elim given.result [ none ↦ false | some res ↦ true ]

abbrev pub WireAnswers : {W C M : Type 0} → Bool → Network W C M → Type 0
WireAnswers {W = W} {C = C} h net =
    (p : Protocol) (w : W) (ctx : C) (q : Question) (ns : NameServer) (recursive : Bool)
    → (not h || is_wire_answered (net.wire p w ctx q ns recursive).1) ≡ true

-- With `h`, the reply is as it is if those of the wire are.
abbrev pub Framed : {W : Type 0} → Bool → Resolver W → Resolver W → Reply → Type 0
Framed h r r' reply =
    Keeps r r' × (r'.is_closed ≡ r.is_closed) × ((not h || is_answered reply) ≡ true)

module _ {W C M : Type 0} (net : Network W C M) (cfg : Config) (h : Bool)
    (wire_answers : WireAnswers h net) (call : Call C) where
  store_reply-Framed :
      (r r' : Resolver W) (layer auth : Text) (res : SingleQueryResult) (t : List TraceStep)
      (reply : Reply)
      → store_reply net cfg call r layer auth res t ≡ some (r', reply)
      → Framed h r r' reply
  unfolding store_reply store
  store_reply-Framed r r' layer auth res t reply e = ground arith

  accept_reply-Framed :
      (r r' : Resolver W) (layer auth : Text) (given : WireReply M) (t : List TraceStep)
      (reply : Reply)
      → (not h || is_wire_answered given) ≡ true
      → given.failed ≡ false
      → r.should_validate_dnssec ≡ false
      → accept_reply net cfg call r layer auth given t ≡ some (r', reply)
      → Framed h r r' reply
  unfolding accept_reply accept_result
  accept_reply-Framed r r' layer auth given t reply fine ok off e =
      elim (Option-cases given.result) [
        | inl f ↦ ground arith
        | inr (res, f) ↦ elim (Bool-cases (safe_status given.status)) [
          | inl s ↦ store_reply-Framed r r' layer auth res t reply (ground arith)
          | inr s ↦ ground arith
        ]
      ]

  finish_wire-Framed :
      (r r' : Resolver W) (layer auth : Text) (t : List TraceStep) (got : W × WireReply M)
      (reply : Reply)
      → (not h || is_wire_answered got.1) ≡ true
      → r.should_validate_dnssec ≡ false
      → finish_wire net cfg call r layer auth t got ≡ some (r', reply)
      → Framed h r r' reply
  unfolding finish_wire
  finish_wire-Framed r r' layer auth t (w, given) reply fine off e =
      elim (Bool-cases given.failed) [
        | inl f ↦ ground arith
        | inr f ↦
            accept_reply-Framed (record r { world = w }) r' layer auth given t reply fine f off
              (ground arith)
      ]

  -- what the wire lookups return
  abbrev AreAnswered : Option (W × WireReply M) → Type 0
  AreAnswered m = (got : W × WireReply M) → m ≡ some got → (not h || is_wire_answered got.1) ≡ true

  wire_by-AreAnswered : (p : Protocol) (w : W) → AreAnswered (wire_by net cfg call p w)
  unfolding wire_by
  wire_by-AreAnswered p w got e = elim (Option-cases (dot_name call.q.name)) [
    | inl d ↦ absurd (ground (arith, d, e))
    | inr (name, d) ↦
        let q : Question = record call.q { name = name } in
        let fine = wire_answers p w call.lookup_ctx q call.name_server call.request_iteration in
        let same : net.wire p w call.lookup_ctx q call.name_server call.request_iteration ≡ got =
          ground (arith, d, e) in
        rw (sym same) fine
  ]

  wire_udp-AreAnswered :
      (info : ConnectionInfo) (w : W) → AreAnswered (wire_udp net cfg call info w)
  unfolding wire_udp
  wire_udp-AreAnswered info w got e = elim (Option-cases (wire_by net cfg call Protocol.udp w)) [
    | inl d ↦ absurd (ground (arith, d, e))
    | inr ((w1, given), d) ↦ elim (Bool-cases (is_truncated given.status && info.has_tcp)) [
      | inl x ↦ wire_by-AreAnswered Protocol.tcp w1 got (ground (arith, d, e, x))
      | inr x ↦ wire_by-AreAnswered Protocol.udp w got (ground (arith, d, e, x))
    ]
  ]

  finish-Framed :
      (r r' : Resolver W) (layer auth : Text) (t : List TraceStep) (reply : Reply)
      (m : Option (W × WireReply M))
      → AreAnswered m
      → r.should_validate_dnssec ≡ false
      → m >>= finish_wire net cfg call r layer auth t ≡ some (r', reply)
      → Framed h r r' reply
  finish-Framed r r' layer auth t reply none fine off e = absurd cc
  finish-Framed r r' layer auth t reply (some got) fine off e =
      finish_wire-Framed r r' layer auth t got reply (fine got refl) off e

  go_to_wire-Framed :
      (r r' : Resolver W) (layer auth : Text) (t : List TraceStep) (reply : Reply)
      → r.should_validate_dnssec ≡ false
      → go_to_wire net cfg call r layer auth t ≡ some (r', reply)
      → Framed h r r' reply
  unfolding go_to_wire
  go_to_wire-Framed r r' layer auth t reply off e =
      let w : W = (net.get_connection_info r.world call.name_server).0 in
      let by = λ (p : Protocol).
        finish-Framed r r' layer auth t reply (wire_by net cfg call p w) (wire_by-AreAnswered p w)
          off in
      elim (Option-cases (net.get_connection_info r.world call.name_server).1) [
        | inl f ↦ ground arith
        | inr (info, f) ↦ elim (Bool-cases cfg.dns_over_https) [
          | inl a ↦ by Protocol.doh (ground (arith, e, f, a))
          | inr a ↦ elim (Bool-cases cfg.dns_over_tls) [
            | inl b ↦ by Protocol.dot (ground (arith, e, f, a, b))
            | inr b ↦ elim (Bool-cases info.has_udp) [
              | inl c ↦
                  finish-Framed r r' layer auth t reply (wire_udp net cfg call info w)
                    (wire_udp-AreAnswered info w) off (ground (arith, e, f, a, b, c))
              | inr c ↦ elim (Bool-cases info.has_tcp) [
                | inl d ↦ by Protocol.tcp (ground (arith, e, f, a, b, c, d))
                | inr d ↦ ground (arith, e, f, a, b, c, d)
              ]
            ]
          ]
        ]
      ]

  use_authority-Framed :
      (r r' : Resolver W) (layer auth : Text) (t : List TraceStep)
      (cached : Option SingleQueryResult) (found : Bool) (reply : Reply)
      → r.should_validate_dnssec ≡ false
      → use_authority net cfg call r layer auth t cached found ≡ some (r', reply)
      → Framed h r r' reply
  unfolding use_authority
  use_authority-Framed r r' layer auth t cached false reply off e =
      go_to_wire-Framed r r' layer auth t reply off e
  use_authority-Framed r r' layer auth t none true reply off e = absurd cc
  use_authority-Framed r r' layer auth t (some res) true reply off e =
      ground (arith, go_to_wire-Framed r r' layer auth t reply off)

  ask_authority-Framed :
      (r r' : Resolver W) (layer auth : Text) (t : List TraceStep) (reply : Reply)
      → r.should_validate_dnssec ≡ false
      → ask_authority net cfg call r layer auth t ≡ some (r', reply)
      → Framed h r r' reply
  unfolding ask_authority
  ask_authority-Framed r r' layer auth t reply off e =
      elim (Option-cases
        (get_cached_authority net.ip_string net.hash (net.now r.world).1 r.cache auth none)) [
          | inl f ↦ absurd (ground arith)
          | inr ((c, cached, found), f) ↦
              use_authority-Framed (record r { world = (net.now r.world).0; cache = c }) r' layer
                auth t cached found reply off (ground arith)
        ]

  find_authority-Framed :
      (r r' : Resolver W) (layer : Text) (t : List TraceStep) (reply : Reply)
      → r.should_validate_dnssec ≡ false
      → find_authority net cfg call r layer t ≡ some (r', reply)
      → Framed h r r' reply
  unfolding find_authority
  find_authority-Framed r r' layer t reply off e =
      elim (Option-cases (next_authority (to_lower call.q.name) (to_lower layer))) [
        | inl f ↦ ground arith
        | inr (auth, f) ↦ ground (
          arith,
          ask_authority-Framed r r' (to_lower layer) auth t reply off,
          go_to_wire-Framed r r' (to_lower layer) auth t reply off,
        )
      ]

  after_cache-Framed :
      (r r' : Resolver W) (layer : Text) (t : List TraceStep) (reply : Reply)
      → r.should_validate_dnssec ≡ false
      → after_cache net cfg call r layer t ≡ some (r', reply)
      → Framed h r r' reply
  unfolding after_cache after_blacklist
  after_cache-Framed r r' layer t reply off e = ground (
    arith,
    find_authority-Framed r r' layer t reply off,
    go_to_wire-Framed r r' layer [] t reply off,
  )

  use_cached-Framed :
      (r r' : Resolver W) (layer : Text) (t : List TraceStep) (cached : Option SingleQueryResult)
      (found : Bool) (reply : Reply)
      → r.should_validate_dnssec ≡ false
      → use_cached net cfg call r layer t cached found ≡ some (r', reply)
      → Framed h r r' reply
  unfolding use_cached
  use_cached-Framed r r' layer t cached false reply off e =
      after_cache-Framed r r' layer t reply off e
  use_cached-Framed r r' layer t none true reply off e = absurd cc
  use_cached-Framed r r' layer t (some res) true reply off e = ground arith

  ask_cache-Framed :
      (r r' : Resolver W) (layer : Text) (t : List TraceStep) (reply : Reply)
      → r.should_validate_dnssec ≡ false
      → ask_cache net cfg call r layer t ≡ some (r', reply)
      → Framed h r r' reply
  unfolding ask_cache
  ask_cache-Framed r r' layer t reply off e =
      elim (Option-cases (
        get_cached_results net.ip_string net.hash (net.now r.world).1 r.cache call.q
          call.cache_name_server)) [
            | inl f ↦ absurd (ground arith)
            | inr ((c, cached, found), f) ↦
                use_cached-Framed (record r { world = (net.now r.world).0; cache = c }) r' layer t
                  cached found reply off (ground arith)
          ]

delete_pending_absent :
    (ps : List Question) (q : Question) → is_pending ps q ≡ false → delete_pending ps q ≡ ps
delete_pending_absent [] q h = refl
delete_pending_absent (p ∷ ps) q h = ground (arith, delete_pending_absent ps q)

delete_pending_head :
    (ps : List Question) (q : Question) → delete_pending (q ∷ ps) q ≡ delete_pending ps q
delete_pending_head ps q = ground arith

module _ {W C M : Type 0} (net : Network W C M) (cfg : Config) (h : Bool)
    (wire_answers : WireAnswers h net) where
  lookup_pending-Framed :
      (r r' : Resolver W) (ctx : C) (q : Question) (ns : NameServer) (layer : Text)
      (iterate by_ns cna : Bool) (t : List TraceStep) (reply : Reply)
      → r.should_validate_dnssec ≡ false
      → lookup_pending net cfg r ctx q ns layer iterate by_ns cna t ≡ some (r', reply)
      → Framed h r r' reply
  unfolding lookup_pending
  lookup_pending-Framed r r' ctx q ns layer iterate by_ns cna t reply off e =
      elim (Bool-cases (is_valid_name_server ns)) [
        | inr b ↦ ground arith
        | inl b ↦
            let timed = net.with_timeout r.world ctx cfg.network_timeout in
            ask_cache-Framed net cfg h wire_answers
              (record {
                q = q;
                name_server = ns;
                request_iteration = iterate;
                cache_name_server = if by_ns then some ns else none;
                cache_non_authoritative = cna;
                lookup_ctx = timed.1;
              })
              (record r { world = timed.0 }) r' layer t reply off (ground arith)
      ]

  pub cached_lookup-Framed :
      (r r' : Resolver W) (ctx : C) (q : Question) (ns : NameServer) (layer : Text)
      (iterate by_ns cna : Bool) (t : List TraceStep) (reply : Reply)
      → r.should_validate_dnssec ≡ false
      → cached_lookup net cfg r ctx q ns layer iterate by_ns cna t ≡ some (r', reply)
      → Framed h r r' reply
  unfolding cached_lookup
  cached_lookup-Framed r r' ctx q ns layer iterate by_ns cna t reply off e =
      elim (Bool-cases (is_pending r.pending_queries q)) [
        | inl p ↦ ground arith
        | inr p ↦
            let r0 : Resolver W = record r { pending_queries = q ∷ r.pending_queries } in
            elim (Option-cases (lookup_pending net cfg r0 ctx q ns layer iterate by_ns cna t)) [
              | inl f ↦ absurd (ground arith)
              | inr ((r1, reply1), f) ↦
                  let ((a, b, c), d, x) =
                    lookup_pending-Framed r0 r1 ctx q ns layer iterate by_ns cna t reply1 off f in
                  ground (
                    arith,
                    delete_pending_head r.pending_queries q,
                    delete_pending_absent r.pending_queries q p,
                    ap (λ l. delete_pending l q) c,
                  )
            ]
      ]

module _ {W C M : Type 0} (net : Network W C M) (cfg : Config) where
  -- Without the validation of DNSSEC a cached lookup that returns has used no retry, and the queries
  -- that are pending are those that were before.
  pub cached_lookup-Keeps :
      (r r' : Resolver W) (ctx : C) (q : Question) (ns : NameServer) (layer : Text)
      (iterate by_ns cna : Bool) (t : List TraceStep) (reply : Reply)
      → r.should_validate_dnssec ≡ false
      → cached_lookup net cfg r ctx q ns layer iterate by_ns cna t ≡ some (r', reply)
      → Keeps r r'
  cached_lookup-Keeps r r' ctx q ns layer iterate by_ns cna t reply off e =
      (cached_lookup-Framed net cfg false (λ p w c q2 n b. refl) r r' ctx q ns layer iterate by_ns
        cna t reply off e).0
