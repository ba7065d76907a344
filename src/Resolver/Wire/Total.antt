-- ===== src/Resolver/Wire/Total.antt =====
-- When the part of `cachedLookup` that goes to the wire returns, without DNSSEC validation.
use zdns.Prelude.{
  ◌≡◌, refl, inl, inr, ◌∙◌, Bool, false, not, ◌&&◌, Option, none, some, List, [], ◌++◌, arith,
  Bool-cases, Option-cases, Text, text_eq, to_lower,
}
use mathlib.Core.Path.{subst}
use zdns.Names.{dot, dot_name, IsDottable}
use zdns.Cache.Kept.{
  IsGood, IsGoodResult, HasGoodEntries, safe_add_cached_answer-HasGoodEntries,
  safe_add_cached_authority-HasGoodEntries,
}
use zdns.Records.{Question, AnyAnswer, Status, SingleQueryResult, TraceStep, safe_status}
use zdns.Records.NameServers.{NameServer}
use zdns.Cache.Build.{is_bogus}
use zdns.Cache.Valid.{IsValid}
use zdns.Cache.Write.{safe_add_cached_answer_sound}
use zdns.Cache.Referral.{safe_add_cached_authority_sound}
use zdns.Resolver.{
  Config, Resolver, LookupError, Reply, ConnectionInfo, Protocol, WireReply, Network, failure,
  success,
}
use zdns.Resolver.Wire.{
  Call, store, store_reply, accept_result, accept_reply, finish_wire, is_truncated, wire_by,
  wire_udp, go_to_wire,
}

pub dot_name-some :
    (name : Text) → IsDottable name → (dotted : Text) × (dot_name name ≡ some dotted)
unfolding dot_name
dot_name-some name h = elim (Bool-cases (text_eq name dot)) [
  | inl e ↦ (name, ground (arith, e))
  | inr e ↦ (name ++ dot, ground (arith, e, h))
]

-- a result of the wire that no DNSSEC validation has called bogus
abbrev pub IsUnjudged : {M : Type 0} → WireReply M → Type 0
IsUnjudged given =
    (res : SingleQueryResult) → given.result ≡ some res → is_bogus res.dnssec_result ≡ false

-- and its records are as told
abbrev pub IsFine : {M : Type 0} → (P Q : AnyAnswer → Type 0) → WireReply M → Type 0
IsFine P Q given = IsUnjudged given × IsGoodResult P Q given.result

-- the call returns, and the resolver and the result of the reply are then as told
pub record Returns {W : Type 0} (valid : Resolver W → Type 0)
    (good : Option SingleQueryResult → Type 0) (m : Option (Resolver W × Reply)) : Type 0 where
  pub resolver : Resolver W
  pub reply : Reply
  pub done : m ≡ some (resolver, reply)
  pub cache_valid : valid resolver
  pub result_good : good reply.result

-- the cache of the resolver is valid, and the records of its entries are as told
abbrev pub HasCache :
    {W C M : Type 0} → Network W C M → (P Q : AnyAnswer → Type 0) → Resolver W → Type 0
HasCache net P Q r = IsValid net.hash r.cache × HasGoodEntries P Q net.hash r.cache

module _ {W : Type 0} {valid : Resolver W → Type 0} {good : Option SingleQueryResult → Type 0} where
  pub at_once :
      (r : Resolver W) (reply : Reply) (m : Option (Resolver W × Reply))
      → m ≡ some (r, reply)
      → valid r
      → good reply.result
      → Returns valid good m
  at_once r reply m e v g = record {
    resolver = r;
    reply = reply;
    done = e;
    cache_valid = v;
    result_good = g;
  }

  pub Returns-cong :
      (m m' : Option (Resolver W × Reply)) → m ≡ m' → Returns valid good m' → Returns valid good m
  Returns-cong m m' e r = record {
    resolver = r.resolver;
    reply = r.reply;
    done = e ∙ r.done;
    cache_valid = r.cache_valid;
    result_good = r.result_good;
  }

module _ {W C M : Type 0} (net : Network W C M) (cfg : Config) (P Q : AnyAnswer → Type 0)
    (wire_fine : (p : Protocol) (w : W) (ctx : C) (q : Question) (ns : NameServer)
        (recursive : Bool)
      → IsFine P Q (net.wire p w ctx q ns recursive).1) where
  module _ (call : Call C) where
    store_reply-Returns :
        (r : Resolver W) (layer auth : Text) (res : SingleQueryResult) (t : List TraceStep)
        → is_bogus res.dnssec_result ≡ false
        → IsGood P Q res
        → HasCache net P Q r
        → Returns
            (HasCache net P Q)
            (IsGoodResult P Q)
            (store_reply net cfg call r layer auth res t)
    unfolding store_reply store
    store_reply-Returns r layer auth res t b g (v, h) =
        let clock = net.now r.world in
        let ns = call.cache_name_server in
        let (c1, done1, v1, _) =
          safe_add_cached_authority_sound net.ip_string net.hash clock.1 r.cache res ns layer v b in
        let (c2, done2, v2, _) =
          safe_add_cached_answer_sound net.ip_string net.hash clock.1 r.cache call.q res ns layer
            call.cache_non_authoritative v b in
        elim (Bool-cases (
          not call.request_iteration
          && not (text_eq (to_lower call.q.name) layer)
          && not (text_eq auth layer)
          && not res.flags.authoritative)) [
            | inl e ↦
                at_once (record r { world = clock.0; cache = c1 })
                  (success (record res { answers = [] }) false t) _ (rw (e, done1) refl)
                  (
                    v1,
                    safe_add_cached_authority-HasGoodEntries P Q net.ip_string net.hash clock.1
                        r.cache ns v h c1 res _ layer b g done1,
                  )
                  (tt, g.1)
            | inr e ↦
                at_once (record r { world = clock.0; cache = c2 }) (success res false t) _
                  (rw (e, done2) refl)
                  (
                    v2,
                    safe_add_cached_answer-HasGoodEntries P Q net.ip_string net.hash clock.1 r.cache
                        ns v h c2 call.q res layer call.cache_non_authoritative b g done2,
                  )
                  g
          ]

    finish_wire-Returns :
        (r : Resolver W) (layer auth : Text) (t : List TraceStep) (got : W × WireReply M)
        → IsFine P Q got.1
        → r.should_validate_dnssec ≡ false
        → HasCache net P Q r
        → Returns
            (HasCache net P Q)
            (IsGoodResult P Q)
            (finish_wire net cfg call r layer auth t got)
    unfolding finish_wire accept_reply accept_result
    finish_wire-Returns r layer auth t (w, given) (fine, good) off v =
        let r1 : Resolver W = record r { world = w } in
        let other : Reply = record {
          result = given.result;
          is_cached = false;
          status = given.status;
          trace = t;
          error = none;
        } in
        elim (Bool-cases given.failed) [
          | inl f ↦
              at_once r1 (failure given.status t (some LookupError.lookup_failed)) _ (ground arith)
                v (tt, tt)
          | inr f ↦ elim (Option-cases given.result) [
            | inl e ↦ at_once r1 other _ (ground arith) v good
            | inr (res, e) ↦ elim (Bool-cases (safe_status given.status)) [
              | inl s ↦
                  Returns-cong _ (store_reply net cfg call r1 layer auth res t) (ground arith) (
                    store_reply-Returns r1 layer auth res t (fine res e)
                      (subst (IsGoodResult P Q) e good) v)
              | inr s ↦ at_once r1 other _ (ground arith) v good
            ]
          ]
        ]

    -- the name of the question with a dot at its end
    module _ (name : Text) (dotted : dot_name call.q.name ≡ some name) where
      abbrev asked : Question
      asked = record call.q { name = name }

      abbrev by : Protocol → W → W × WireReply M
      by p w = net.wire p w call.lookup_ctx asked call.name_server call.request_iteration

      by-IsFine : (p : Protocol) (w : W) → IsFine P Q (by p w).1
      by-IsFine p w = wire_fine p w call.lookup_ctx asked call.name_server call.request_iteration

      wire_by-some : (p : Protocol) (w : W) → wire_by net cfg call p w ≡ some (by p w)
      unfolding wire_by
      wire_by-some p w = rw dotted refl

      wire_udp-some :
          (info : ConnectionInfo) (w : W)
          → (got : W × WireReply M) × (wire_udp net cfg call info w ≡ some got) × IsFine P Q got.1
      unfolding wire_udp
      wire_udp-some info w =
          let (w1, given) = by Protocol.udp w in
          elim (Bool-cases (is_truncated given.status && info.has_tcp)) [
            | inl e ↦ (
              by Protocol.tcp w1,
              rw (wire_by-some Protocol.udp w, e, wire_by-some Protocol.tcp w1) refl,
              by-IsFine Protocol.tcp w1,
            )
            | inr e ↦
                ((w1, given), rw (wire_by-some Protocol.udp w, e) refl, by-IsFine Protocol.udp w)
          ]

      pub go_to_wire-Returns :
          (r : Resolver W) (layer auth : Text) (t : List TraceStep)
          → r.should_validate_dnssec ≡ false
          → HasCache net P Q r
          → Returns (HasCache net P Q) (IsGoodResult P Q) (go_to_wire net cfg call r layer auth t)
      unfolding go_to_wire
      go_to_wire-Returns r layer auth t off v =
          let conn = net.get_connection_info r.world call.name_server in
          let unreached : Reply = failure Status.error t (some LookupError.no_connection_info) in
          let sent = λ (p : Protocol).
            finish_wire-Returns r layer auth t (by p conn.0) (by-IsFine p conn.0) off v in
          elim (Option-cases conn.1) [
            | inl f ↦ at_once (record r { world = conn.0 }) unreached _ (ground arith) v (tt, tt)
            | inr (info, f) ↦ elim (Bool-cases cfg.dns_over_https) [
              | inl a ↦
                  Returns-cong _ (finish_wire net cfg call r layer auth t (by Protocol.doh conn.0))
                    (ground (arith, f, a, wire_by-some Protocol.doh conn.0)) (sent Protocol.doh)
              | inr a ↦ elim (Bool-cases cfg.dns_over_tls) [
                | inl b ↦
                    Returns-cong _
                      (finish_wire net cfg call r layer auth t (by Protocol.dot conn.0))
                      (ground (arith, f, a, b, wire_by-some Protocol.dot conn.0))
                      (sent Protocol.dot)
                | inr b ↦ elim (Bool-cases info.has_udp) [
                  | inl c ↦
                      let (got, e, fine) = wire_udp-some info conn.0 in
                      Returns-cong _ (finish_wire net cfg call r layer auth t got)
                        (ground (arith, f, a, b, c, e))
                        (finish_wire-Returns r layer auth t got fine off v)
                  | inr c ↦ elim (Bool-cases info.has_tcp) [
                    | inl d ↦
                        Returns-cong _
                          (finish_wire net cfg call r layer auth t (by Protocol.tcp conn.0))
                          (ground (arith, f, a, b, c, d, wire_by-some Protocol.tcp conn.0))
                          (sent Protocol.tcp)
                    | inr d ↦
                        at_once (record r { world = conn.0 }) unreached _
                          (ground (arith, f, a, b, c, d)) v (tt, tt)
                  ]
                ]
              ]
            ]
          ]
