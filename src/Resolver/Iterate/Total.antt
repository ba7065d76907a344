-- ===== src/Resolver/Iterate/Total.antt =====
-- When `iterativeLookup` of src/zdns/lookup.go returns, without the validation of DNSSEC.
use zdns.Prelude.{
  All, ◌==◌, ◌&&◌, ℕ, zero, suc, ◌+◌, ◌≤◌, ◌<◌, ◌≡◌, inl, inr, refl, Bool, true, false, not, ◌||◌,
  none, some, List, [], ◌∷◌, arith, ltb, Bool-cases, Option-cases, length, Text,
}
use mathlib.Core.Path.{subst}
use zdns.Names.{IsDottable}
use zdns.Cache.Kept.{IsGood, IsGoodResult}
use zdns.Records.{
  type_ds, Question, AnyAnswer, Status, SingleQueryResult, TraceStep, safe_status, is_status_answer,
}
use zdns.Records.NameServers.{NameServer}
use zdns.Cache.Build.{is_nil}
use zdns.Resolver.{Config, Resolver, LookupError, Reply, Network, failure}
use zdns.Resolver.Cached.Frame.{is_answered}
use zdns.Resolver.Cycle.{CycleCall}
use zdns.Resolver.Authorities.{
  Deeper, is_dnssec_record, is_iter_timeout, is_no_needed_glue, try_authorities,
  iterate_on_authorities,
}
use zdns.Resolver.Settled.{IsAnswer, IsSound, Settled, Settles, cycling_lookup-Settles}
use zdns.Resolver.Iterate.{
  is_timeout, drop_sections, add_step, tell_timeouts, follow_reply, iterate_step, iterate_from,
  iterative_lookup,
}
use zdns.Resolver.Iterate.Extracts.{IsServerNamed, DeeperSettles, extract_authority-Extracts}

-- the replies when the depth or the time is over
abbrev too_deep : List TraceStep → Reply
too_deep t = record {
  result = none;
  is_cached = false;
  status = Status.error;
  trace = t;
  error = some LookupError.max_depth_reached;
}

abbrev no_time : List TraceStep → Reply
no_time t = record {
  result = none;
  is_cached = false;
  status = Status.timeout;
  trace = t;
  error = none;
}

drop_sections-IsGood :
    (P Q : AnyAnswer → Type 0) (q : Question) (res : SingleQueryResult)
    → IsGood P Q res
    → IsGood P Q (drop_sections q res)
unfolding drop_sections
drop_sections-IsGood P Q q res good =
    elim (Bool-cases (not (is_nil res.answers) && not (q.type == type_ds))) [
      | inl e ↦ rw e (good.0, tt)
      | inr e ↦ rw e good
    ]

module _ (P : AnyAnswer → Type 0) {W C M : Type 0} (net : Network W C M) (cfg : Config)
    (sound : IsSound P IsServerNamed net) (b : Bool)
    (some_root : 0 < length cfg.root_name_servers) where
  -- a status that is told as another is no success
  tell_timeouts-answered :
      (w : W) (step ctx : C) (reply : Reply) (t : List TraceStep)
      → is_answered reply ≡ true
      → is_answered
          (record reply { status = (tell_timeouts net cfg w step ctx reply.status).1; trace = t })
        ≡ true
  unfolding tell_timeouts is_timeout safe_status
  tell_timeouts-answered w step ctx reply t a = elim (Bool-cases (is_timeout reply.status)) [
    | inr e ↦ rw (tell_timeouts, e) a
    | inl e ↦ elim (Bool-cases (net.has_expired w step).1) [
      | inr f ↦ rw (tell_timeouts, e, f) a
      | inl f ↦ elim (Bool-cases (net.has_expired (net.has_expired w step).0 ctx).1) [
        | inl g ↦ rw (tell_timeouts, e, f, g) a
        | inr g ↦ rw (tell_timeouts, e, f, g) refl
      ]
    ]
  ]

  module _ (deeper : Deeper W C) (settles : DeeperSettles P net cfg sound b some_root deeper)
      (q : Question) (dottable : IsDottable q.name) where
    try_authorities-Settles :
        (r : Resolver W) (ctx : C) (xs : List AnyAnswer) (result : SingleQueryResult) (layer : Text)
        (t : List TraceStep)
        → All IsServerNamed xs
        → Settled P IsServerNamed net b r
        → Settles P IsServerNamed net b (try_authorities net cfg deeper r ctx q xs result layer t)
    unfolding try_authorities
    try_authorities-Settles r ctx [] result layer t all s = (
      r,
      failure Status.serv_fail t (some LookupError.no_valid_name_servers),
      refl,
      s,
      (refl, (tt, tt)),
    )
    try_authorities-Settles r ctx (x ∷ xs) result layer t (named, all) s =
        let (w, expired) = net.has_expired r.world ctx in
        elim (Bool-cases (is_dnssec_record x)) [
          | inl d ↦
              let (r', reply, e, s', a) = try_authorities-Settles r ctx xs result layer t all s in
              (r', reply, rw (d, e) refl, s', a)
          | inr d ↦ elim (Bool-cases expired) [
            | inl p ↦ (
              record r { world = w },
              failure Status.timeout t none,
              rw (d, p) refl,
              s,
              (refl, (tt, tt)),
            )
            | inr p ↦
                let (r1, found, e, s1, has) =
                  extract_authority-Extracts P net cfg sound b some_root deeper settles
                    (record r { world = w }) ctx x layer result t named s in
                let (r3, reply3, k, s3, a3) =
                  try_authorities-Settles r1 ctx xs result layer found.trace all s1 in
                elim (Bool-cases (is_iter_timeout found.status)) [
                  | inl i ↦ (
                    r1,
                    failure Status.iter_timeout found.trace none,
                    rw (d, p, e, i) refl,
                    s1,
                    (refl, (tt, tt)),
                  )
                  | inr i ↦ elim (Bool-cases (safe_status found.status)) [
                    | inr f ↦ (r3, reply3, rw (d, p, e, i, f, k) refl, s3, a3)
                    | inl f ↦ elim (Option-cases found.name_server) [
                      | inl g ↦ absurd (ground (arith, has, f, g))
                      | inr (ns, g) ↦
                          let (r2, reply, l, s2, a2) =
                            settles r1 ctx q (ns ∷ []) found.layer found.trace (omega arith)
                              dottable s1 in
                          let (r4, reply4, m, s4, a4) =
                            try_authorities-Settles r2 ctx xs result layer reply.trace all s2 in
                          elim (Bool-cases (is_no_needed_glue reply.status)) [
                            | inl n ↦ (r4, reply4, rw (d, p, e, i, f, g, l, n, m) refl, s4, a4)
                            | inr n ↦ elim (Bool-cases (is_status_answer reply.status)) [
                              | inl o ↦ (r2, reply, rw (d, p, e, i, f, g, l, n, o) refl, s2, a2)
                              | inr o ↦ (r4, reply4, rw (d, p, e, i, f, g, l, n, o, m) refl, s4, a4)
                            ]
                          ]
                    ]
                  ]
                ]
          ]
        ]

    iterate_on_authorities-Settles :
        (r : Resolver W) (ctx : C) (result : SingleQueryResult) (layer : Text) (t : List TraceStep)
        → All IsServerNamed result.authorities
        → Settled P IsServerNamed net b r
        → Settles P IsServerNamed net b
            (iterate_on_authorities net cfg deeper r ctx q result layer t)
    unfolding iterate_on_authorities
    iterate_on_authorities-Settles r ctx result layer t all s =
        let (w, xs) = net.shuffle r.world result.authorities in
        let nothing : Reply = record {
          result = none;
          is_cached = false;
          status = Status.no_auth;
          trace = t;
          error = none;
        } in
        let (r', reply, e, s', a) =
          try_authorities-Settles (record r { world = w }) ctx xs result layer t
            (sound.shuffled r.world result.authorities all) s in
        elim (Bool-cases (is_nil result.authorities)) [
          | inl n ↦ (r, nothing, rw n refl, s, (refl, tt))
          | inr n ↦ (r', reply, rw (n, e) refl, s', a)
        ]

    follow_reply-Settles :
        (r : Resolver W) (ctx : C) (layer : Text) (reply : Reply)
        → Settled P IsServerNamed net b r
        → IsAnswer P IsServerNamed reply
        → Settles P IsServerNamed net b (follow_reply net cfg deeper r ctx q layer reply)
    unfolding follow_reply
    follow_reply-Settles r ctx layer reply s (answered, good) =
        elim (Bool-cases (safe_status reply.status)) [
          | inr f ↦ (r, reply, rw f refl, s, (answered, good))
          | inl f ↦ elim (Option-cases reply.error) [
            | inr (err, e) ↦ (r, reply, ground (arith, f, e), s, (answered, good))
            | inl e ↦ elim (Option-cases reply.result) [
              | inl g ↦ absurd (ground (arith, answered, f, g))
              | inr (res, g) ↦
                  let fine : IsGood P IsServerNamed res =
                    subst (IsGoodResult P IsServerNamed) g good in
                  elim (Bool-cases (not (is_nil res.answers) || res.flags.authoritative)) [
                    | inl h ↦ (
                      r,
                      record reply { result = some (drop_sections q res) },
                      ground (arith, f, e, g, h),
                      s,
                      (ground (arith, f), drop_sections-IsGood P IsServerNamed q res fine),
                    )
                    | inr h ↦ elim (Bool-cases (is_nil res.authorities)) [
                      | inl n ↦ (
                        r,
                        record reply {
                          status = Status.error;
                          error = some LookupError.no_answers_or_authorities;
                        },
                        ground (arith, f, e, g, h, n),
                        s,
                        (refl, good),
                      )
                      | inr n ↦
                          let (r', reply', k, s', a) =
                            iterate_on_authorities-Settles r ctx res layer reply.trace fine.1 s in
                          (r', reply', rw (f, e, g, h, k, n) refl, s', a)
                    ]
                  ]
            ]
          ]
        ]

  module _ (deeper : Deeper W C) (settles : DeeperSettles P net cfg sound b some_root deeper) where
    iterate_step-Settles :
        (depth : ℕ) → DeeperSettles P net cfg sound b some_root (iterate_step net cfg deeper depth)
    unfolding iterate_step
    iterate_step-Settles depth r ctx q servers layer t some_server dottable s =
        let (w, expired) = net.has_expired r.world ctx in
        let (w', step_ctx) = net.with_timeout w ctx cfg.iterative_timeout in
        let call : CycleCall C = record {
          ctx = step_ctx;
          q = q;
          name_servers = servers;
          layer = layer;
          recursion_desired = false;
        } in
        elim (Bool-cases (ltb cfg.max_depth depth)) [
          | inl d ↦ (r, too_deep t, rw (iterate_step, d) refl, s, (refl, tt))
          | inr d ↦ elim (Bool-cases expired) [
            | inl x ↦
                (record r { world = w }, no_time t, rw (iterate_step, d, x) refl, s, (refl, tt))
            | inr x ↦
                let (r1, reply, e, s1, a) =
                  cycling_lookup-Settles P IsServerNamed net cfg sound b call some_server dottable
                    (record r { world = w' }) t s in
                let trace = add_step net cfg q layer depth r1.retries_remaining reply in
                let told = tell_timeouts net cfg r1.world step_ctx ctx reply.status in
                let (r2, reply2, f, s2, a2) =
                  follow_reply-Settles deeper settles q dottable (record r1 { world = told.0 }) ctx
                    layer (record reply { status = told.1; trace = trace }) s1
                    (tell_timeouts-answered r1.world step_ctx ctx reply trace a.0, a.1) in
                (r2, reply2, rw (iterate_step, d, x, e) f, s2, a2)
          ]
        ]

  -- enough fuel for the depths that are left
  iterate_from-Settles :
      (fuel depth : ℕ)
      → suc (suc cfg.max_depth) ≤ suc fuel + depth
      → DeeperSettles P net cfg sound b some_root (iterate_from net cfg (suc fuel) depth)
  unfolding iterate_from
  iterate_from-Settles zero depth enough r ctx q servers layer t some_server dottable s =
      let d : ltb cfg.max_depth depth ≡ true = ground (arith, enough) in
      (r, too_deep t, rw (iterate_step, d) refl, s, (refl, tt))
  iterate_from-Settles (suc fuel) depth enough r ctx q servers layer t some_server dottable s =
      iterate_step-Settles (iterate_from net cfg (suc fuel) (depth + 1))
        (iterate_from-Settles fuel (depth + 1) (omega (arith, enough))) depth r ctx q servers layer
        t some_server dottable s

  -- If DNSSEC is not validated, the cache is valid, there is a name server to ask and a root name
  -- server, the network behaves as told, the name of the question is the root or does not end in a dot,
  -- and no record of the wire or of the cache names a server that cannot be asked for, an iterative
  -- lookup returns at every depth. It leaves such a cache, and the resolver as open as before, and its
  -- reply has a result if its status is a success.
  pub iterative_lookup-Settles :
      (depth : ℕ) (r : Resolver W) (ctx : C) (q : Question) (servers : List NameServer)
      (layer : Text) (t : List TraceStep)
      → 0 < length servers
      → IsDottable q.name
      → Settled P IsServerNamed net b r
      → Settles P IsServerNamed net b (iterative_lookup net cfg depth r ctx q servers layer t)
  unfolding iterative_lookup
  iterative_lookup-Settles depth = iterate_from-Settles (suc cfg.max_depth) depth (omega arith)
