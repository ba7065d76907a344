-- ===== src/Cache/Write.antt =====
-- Writing an answer to the cache: what is refused, what is stored, and how it is read back.
use zdns.Prelude.{
  ℕ, ◌+◌, ◌*◌, ◌≤◌, ◌≡◌, ◌⊎◌, refl, ◌∙◌, Bool, true, false, not, ◌&&◌, ◌||◌, Option, none, some,
  List, [], ◌∷◌, ◌++◌, arith, All, if◌then◌else◌, inl, inr, Option-cases, Bool-cases, Text,
}
use zdns.Records.{Question, Answer, AnyAnswer, base_ans, SingleQueryResult, empty_result}
use zdns.Records.NameServers.{NameServer, show_name_server}
use zdns.Cache.Build.{
  CachedKey, CachedResult, is_nil, nothing_cached, is_bogus, has_poison, build_section,
  build_cached_result, is_cacheable_type, second,
}
use zdns.Cache.{Cache, safe_add_cached_answer, get_cached_results}
use zdns.Cache.Valid.{key_of, IsValid, holds, add_cached_answer-holds}
use zdns.Cache.Read.{AllFresh, IsFresh, contents}
use zdns.Cache.Hits.{get_cached_results_hit}
use zdns.Cache.Poison.{IsClean, has_poison_iff}

-- the records of a section that the cache keeps
abbrev pub cacheable : List AnyAnswer → List AnyAnswer
cacheable [] = []
cacheable (x ∷ xs) = elim (base_ans x) [
  | none ↦ cacheable xs
  | some a ↦ if is_cacheable_type a then x ∷ cacheable xs else cacheable xs
]

-- every record of the section lives for `m` seconds or more
abbrev pub LivesFor : ℕ → List AnyAnswer → Type 0
LivesFor m xs = All (λ x. (a : Answer) → base_ans x ≡ some a → m ≤ a.ttl) xs

contents-build_section :
    (t : ℕ) (xs : List AnyAnswer) → contents (build_section t xs) ≡ cacheable xs
unfolding build_section
contents-build_section t [] = refl
contents-build_section t (x ∷ xs) = ground (arith, contents-build_section t xs)

-- what is built at `t` is fresh until the time to live of its shortest record has passed
build_section-AllFresh :
    (t now m : ℕ) (xs : List AnyAnswer)
    → LivesFor m xs
    → now ≤ t + m * second
    → AllFresh now (build_section t xs)
unfolding build_section
build_section-AllFresh t now m [] h le = tt
build_section-AllFresh t now m (x ∷ xs) h le = elim (Option-cases (base_ans x)) [
  | inl e ↦ ground (arith, e, build_section-AllFresh t now m xs h.1 le)
  | inr (a, e) ↦ ground (arith, e, h.0 a e, build_section-AllFresh t now m xs h.1 le)
]

-- what a response must be to be stored
pub record Accepts (res : SingleQueryResult) (layer : Text) (cache_non_authoritative : Bool)
    : Type 0 where
  pub not_bogus : is_bogus res.dnssec_result ≡ false
  pub clean : All (IsClean layer) (res.answers ++ res.authorities ++ res.additionals)
  pub authoritative : (res.flags.authoritative || cache_non_authoritative) ≡ true
  pub kept :
      (is_nil (cacheable res.answers)
        && is_nil (cacheable res.authorities)
        && is_nil (cacheable res.additionals))
      ≡ false

is_nil-build_section :
    (t : ℕ) (xs : List AnyAnswer) → is_nil (build_section t xs) ≡ is_nil (cacheable xs)
unfolding build_section
is_nil-build_section t [] = refl
is_nil-build_section t (x ∷ xs) = ground (arith, is_nil-build_section t xs)

nothing_cached-build :
    (t : ℕ) (res : SingleQueryResult)
    → nothing_cached (build_cached_result t res) ≡ (
        is_nil (cacheable res.answers)
        && is_nil (cacheable res.authorities)
        && is_nil (cacheable res.additionals))
unfolding nothing_cached build_cached_result
nothing_cached-build t res = ground (
  arith,
  is_nil-build_section t res.answers,
  is_nil-build_section t res.authorities,
  is_nil-build_section t res.additionals,
)

module _ (ip_string : List ℕ → Text) (hash : CachedKey → ℕ) (t : ℕ) (s : Cache) (q : Question)
    (res : SingleQueryResult) (ns : Option NameServer) (layer : Text) (cna : Bool) where
  -- A bogus response panics.
  pub safe_add_cached_answer_bogus :
      is_bogus res.dnssec_result ≡ true
      → safe_add_cached_answer ip_string hash t s q res ns layer cna ≡ none
  unfolding safe_add_cached_answer
  safe_add_cached_answer_bogus h = ground arith

  -- A response with a record outside the layer, NSEC3 records excepted, changes nothing.
  pub safe_add_cached_answer_poison :
      is_bogus res.dnssec_result ≡ false
      → ¬ All (IsClean layer) (res.answers ++ res.authorities ++ res.additionals)
      → safe_add_cached_answer ip_string hash t s q res ns layer cna ≡ some s
  unfolding safe_add_cached_answer
  safe_add_cached_answer_poison h dirty =
      elim (Bool-cases (has_poison layer (res.answers ++ res.authorities ++ res.additionals))) [
        | inl e ↦ ground arith
        | inr e ↦
            absurd (
              dirty
                ((has_poison_iff layer (res.answers ++ res.authorities ++ res.additionals)).0 e))
      ]

  -- A response that is accepted is held under its question, with the expiry of each record.
  pub safe_add_cached_answer-holds :
      IsValid hash s
      → Accepts res layer cna
      → (s' : Cache) × (safe_add_cached_answer ip_string hash t s q res ns layer cna ≡ some s')
        × IsValid hash s'
        × (holds hash s' (key_of q (show_name_server ip_string ns) false)
            ≡ some (build_cached_result t res))
  unfolding safe_add_cached_answer
  safe_add_cached_answer-holds valid h =
      let (s', added, v, here, _) =
        add_cached_answer-holds hash s q (show_name_server ip_string ns) false valid
          (build_cached_result t res) in
      (
        s',
        ground (
          arith,
          h.not_bogus,
          h.authoritative,
          h.kept,
          nothing_cached-build t res,
          (has_poison_iff layer (res.answers ++ res.authorities ++ res.additionals)).1 h.clean,
          added,
        ),
        v,
        here,
      )

  -- An answer that is not bogus never panics. The cache stays valid, and each of its entries was there
  -- before or is what is stored of the response, every record of which is then clean.
  pub safe_add_cached_answer_sound :
      IsValid hash s
      → is_bogus res.dnssec_result ≡ false
      → (s' : Cache) × (safe_add_cached_answer ip_string hash t s q res ns layer cna ≡ some s')
        × IsValid hash s'
        × ((j : CachedKey) (w : CachedResult)
            → holds hash s' j ≡ some w
            → (holds hash s j ≡ some w)
              ⊎ ((j ≡ key_of q (show_name_server ip_string ns) false)
                  × (w ≡ build_cached_result t res)
                  × All (IsClean layer) (res.answers ++ res.authorities ++ res.additionals)))
  unfolding safe_add_cached_answer
  safe_add_cached_answer_sound v b =
      elim (Bool-cases (has_poison layer (res.answers ++ res.authorities ++ res.additionals))) [
        | inl e ↦ (s, ground arith, v, λ j w h. inl h)
        | inr clean ↦ elim (Bool-cases (not res.flags.authoritative && not cna)) [
          | inl e ↦ (s, ground arith, v, λ j w h. inl h)
          | inr e ↦ elim (Bool-cases (nothing_cached (build_cached_result t res))) [
            | inl z ↦ (s, ground arith, v, λ j w h. inl h)
            | inr z ↦
                let (s', added, v', here, old) =
                  add_cached_answer-holds hash s q (show_name_server ip_string ns) false v
                    (build_cached_result t res) in
                (
                  s',
                  ground (arith, added),
                  v',
                  λ j w h. elim (old j w h) [
                    | inl g ↦ inl g
                    | inr (p, r) ↦ inr (
                      p,
                      r,
                      (has_poison_iff layer (res.answers ++ res.authorities ++ res.additionals)).0
                          clean,
                    )
                  ],
                )
          ]
        ]
      ]

  -- Until the shortest time to live has passed, reading the question back gives the cacheable
  -- records of the response, in order, with its flags.
  pub read-after-write :
      (m now : ℕ)
      → IsValid hash s
      → Accepts res layer cna
      → LivesFor m res.answers
      → LivesFor m res.authorities
      → LivesFor m res.additionals
      → now ≤ t + m * second
      → (s' s'' : Cache) × (safe_add_cached_answer ip_string hash t s q res ns layer cna ≡ some s')
        × (get_cached_results ip_string hash now s' q ns
            ≡ some (
              s'',
              some (record empty_result {
                answers = cacheable res.answers;
                authorities = cacheable res.authorities;
                additionals = cacheable res.additionals;
                flags = res.flags;
                dnssec_result = res.dnssec_result;
              }),
              true,
            ))
  unfolding build_cached_result
  read-after-write m now valid h l1 l2 l3 le =
      let r = build_cached_result t res in
      let (s', added, v, here) = safe_add_cached_answer-holds valid h in
      let fresh : IsFresh now r = record {
        answers = build_section-AllFresh t now m res.answers l1 le;
        authorities = build_section-AllFresh t now m res.authorities l2 le;
        additionals = build_section-AllFresh t now m res.additionals l3 le;
      } in
      let (s'', hit, _, _) =
        get_cached_results_hit ip_string hash now s' q ns v r here fresh
          (nothing_cached-build t res ∙ h.kept) in
      (
        s',
        s'',
        added,
        hit
            ∙ ground (
              arith,
              contents-build_section t res.answers,
              contents-build_section t res.authorities,
              contents-build_section t res.additionals,
            ),
      )
