-- ===== src/Resolver/Settled.antt =====
-- The resolver between the lookups of src/zdns/lookup.go, without the validation of DNSSEC, and
-- `cyclingLookup` on it.
use zdns.Prelude.{
  All, ℕ, zero, suc, ◌+◌, ◌-◌, ◌<◌, ◌≡◌, inl, inr, refl, ◌∙◌, Bool, true, false, Option, none, some,
  List, [], arith, Bool-cases, ◌==◌, length, Text,
}
use zdns.Records.{Question, AnyAnswer, Status, TraceStep, safe_status, is_status_retryable}
use zdns.Records.NameServers.{NameServer}
use zdns.Names.{IsDottable}
use zdns.Cache.Kept.{IsGoodResult}
use zdns.Resolver.{Config, Resolver, LookupError, Reply, Protocol, Network, failure}
use zdns.Resolver.Wire.Total.{IsUnjudged, HasCache}
use zdns.Resolver.Cached.{cached_lookup}
use zdns.Resolver.Cached.Total.{cached_lookup-Returns}
use zdns.Resolver.Cached.Frame.{is_answered, WireAnswers, cached_lookup-Framed}
use zdns.Resolver.Cycle.{CycleCall, is_direct, cycle, cycling_lookup}
use zdns.Resolver.Cycle.Outcome.{end_round}
use zdns.Resolver.Cycle.Total.{StartsBelow, get_random_non_queried_name_server-some}

-- What the lookups rely on: no result of the wire is already judged bogus, a reply of the wire that
-- says success without an error has a result, the records of a result are as told, a shuffle
-- has no other records, and `rand.Perm` starts with an index in range.
pub record IsSound {W C M : Type 0} (P Q : AnyAnswer → Type 0) (net : Network W C M) : Type 0 where
  pub unjudged :
      (p : Protocol) (w : W) (ctx : C) (q : Question) (ns : NameServer) (recursive : Bool)
      → IsUnjudged (net.wire p w ctx q ns recursive).1
  pub answers : WireAnswers true net
  pub good :
      (p : Protocol) (w : W) (ctx : C) (q : Question) (ns : NameServer) (recursive : Bool)
      → IsGoodResult P Q (net.wire p w ctx q ns recursive).1.result
  pub shuffled : (w : W) (xs : List AnyAnswer) → All Q xs → All Q (net.shuffle w xs).1
  pub perm_starts : (w : W) (n : ℕ) → 0 < n → StartsBelow n (net.perm w n).1

module _ (P Q : AnyAnswer → Type 0) where
  -- DNSSEC is not validated, the cache is valid, the records of its entries are as told, and the
  -- resolver is closed or not as told.
  abbrev pub Settled : {W C M : Type 0} → Network W C M → Bool → Resolver W → Type 0
  Settled net b r = (r.should_validate_dnssec ≡ false) × HasCache net P Q r × (r.is_closed ≡ b)

  -- A reply has a result if it says success, and the records of a result are as told.
  abbrev pub IsAnswer : Reply → Type 0
  IsAnswer reply = (is_answered reply ≡ true) × IsGoodResult P Q reply.result

  -- A lookup returns a settled resolver and such a reply.
  abbrev pub Settles :
      {W C M : Type 0} → Network W C M → Bool → Option (Resolver W × Reply) → Type 0
  Settles {W = W} net b m =
      (r' : Resolver W) × (reply : Reply) × (m ≡ some (r', reply))
      × Settled net b r'
      × IsAnswer reply

module _ (P Q : AnyAnswer → Type 0) {W C M : Type 0} (net : Network W C M) (cfg : Config)
    (sound : IsSound P Q net) (b : Bool) where
  cached_lookup-Settles :
      (r : Resolver W) (ctx : C) (q : Question) (ns : NameServer) (layer : Text)
      (iterate by_ns cna : Bool) (t : List TraceStep)
      → IsDottable q.name
      → Settled P Q net b r
      → Settles P Q net b (cached_lookup net cfg r ctx q ns layer iterate by_ns cna t)
  cached_lookup-Settles r ctx q ns layer iterate by_ns cna t dottable (off, v, closed) =
      let done =
        cached_lookup-Returns net cfg P Q
          (λ p w c q' ns' rec. (sound.unjudged p w c q' ns' rec, sound.good p w c q' ns' rec)) r ctx
          q ns layer iterate by_ns cna t dottable off v in
      let ((_, off1, _), closed1, answered) =
        cached_lookup-Framed net cfg true sound.answers r done.resolver ctx q ns layer iterate by_ns
          cna t done.reply off done.done in
      (
        done.resolver,
        done.reply,
        done.done,
        (off1 ∙ off, done.cache_valid, closed1 ∙ closed),
        (answered, done.result_good),
      )

  end_round-Settles :
      (r : Resolver W) (reply : Reply) (rest : Option (Resolver W × Reply))
      → Settled P Q net b r
      → is_answered reply ≡ true
      → IsGoodResult P Q reply.result
      → Settles P Q net b rest
      → Settles P Q net b (end_round r reply rest)
  end_round-Settles r reply rest s answered g next = elim (Bool-cases (safe_status reply.status)) [
    | inl x ↦ (r, reply, ground (arith, x), s, (answered, g))
    | inr x ↦ elim (Bool-cases (r.retries_remaining == 0)) [
      | inl z ↦ (
        r,
        record reply { error = some LookupError.out_of_retries },
        ground (arith, x, z),
        s,
        (ground (arith, x), g),
      )
      | inr z ↦ elim (Bool-cases (is_status_retryable reply.status)) [
        | inr n ↦ (r, reply, ground (arith, x, z, n), s, (answered, g))
        | inl y ↦
            let (r', reply', e, s', (answered', g')) = next in
            (r', reply', ground (arith, x, z, y, e), s', (answered', g'))
      ]
    ]
  ]

  module _ (call : CycleCall C) (some_server : 0 < length call.name_servers)
      (dottable : IsDottable call.q.name) where
    cycle-Settles :
        (fuel : ℕ) (r : Resolver W) (queried : List Text) (t : List TraceStep)
        → Settled P Q net b r
        → Settles P Q net b (cycle net cfg fuel call r queried t)
    unfolding cycle
    cycle-Settles zero r queried t s = (r, _, refl, s, (refl, (tt, tt)))
    cycle-Settles (suc fuel) r queried t s =
        let timed = net.has_expired r.world call.ctx in
        elim (Bool-cases timed.1) [
          | inl x ↦ (
            record r { world = timed.0 },
            failure Status.timeout t none,
            rw x refl,
            s,
            (refl, (tt, tt)),
          )
          | inr x ↦
              let ((w', ns, queried'), f) =
                get_random_non_queried_name_server-some net cfg sound.unjudged sound.perm_starts
                  timed.0 call.name_servers queried some_server in
              let direct = is_direct net cfg call in
              let (r1, reply1, g, s1, (answered, good)) =
                cached_lookup-Settles (record r { world = w' }) call.ctx call.q ns call.layer
                  call.recursion_desired direct direct t dottable s in
              let r2 : Resolver W = record r1 { retries_remaining = r1.retries_remaining - 1 } in
              let (r3, reply3, h, s3, (answered3, good3)) =
                end_round-Settles r1 reply1 (cycle net cfg fuel call r2 queried' reply1.trace) s1
                  answered good (cycle-Settles fuel r2 queried' reply1.trace s1) in
              (r3, reply3, rw (x, f, g) h, s3, (answered3, good3))
        ]

    pub cycling_lookup-Settles :
        (r : Resolver W) (t : List TraceStep)
        → Settled P Q net b r
        → Settles P Q net b (cycling_lookup net cfg call r t)
    unfolding cycling_lookup
    cycling_lookup-Settles r t s = cycle-Settles (r.retries_remaining + 1) r [] t s
