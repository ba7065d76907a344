-- ===== src/Cache/Build.antt =====
-- The parts of src/zdns/cache.go that keep no state: what is stored of a response and for how long,
-- and the tests that keep a response out of the cache.
use zdns.Prelude.{
  ℕ, ◌+◌, ◌*◌, Bool, true, false, not, ◌&&◌, ◌||◌, Option, none, some, List, [], ◌∷◌, ltb, ◌==◌,
  if◌then◌else◌, Text, codes, text_eq, to_lower, ℕ_discrete,
}
use zdns.Names.{name_is_beneath}
use zdns.Records.{
  Question, Answer, Kind, AnyAnswer, typed, base_ans, as_answer, DnsFlags, DnssecStatus,
  DnssecResult, SingleQueryResult, empty_result, type_a, type_ns, type_cname, type_aaaa, type_dname,
  type_ds, type_nsec, type_dnskey, type_nsec3,
}

pub record CachedKey : Type 0 where
  pub question : Question
  pub name_server : Text
  pub is_authority : Bool

unfoldable pub Question-discrete : Discrete Question
Question-discrete = hlevel ℕ_discrete

pub CachedKey-discrete : Discrete CachedKey
CachedKey-discrete = hlevel (ℕ_discrete, Question-discrete)

pub record TimedAnswer : Type 0 where
  pub answer : AnyAnswer
  pub expires_at : ℕ

pub record CachedResult : Type 0 where
  pub answers : List TimedAnswer
  pub authorities : List TimedAnswer
  pub additionals : List TimedAnswer
  pub flags : DnsFlags
  pub dnssec_result : Option DnssecResult

-- the entries that have not expired, and whether one has
unfoldable pub unexpired : ℕ → List TimedAnswer → List AnyAnswer × Bool
unexpired now [] = ([], false)
unexpired now (t ∷ ts) =
    let rest = unexpired now ts in
    if ltb t.expires_at now then (rest.0, true) else (t.answer ∷ rest.0, rest.1)

unfoldable pub is_cacheable_type : Answer → Bool
is_cacheable_type a =
    a.rr_type == type_a
    || a.rr_type == type_aaaa
    || a.rr_type == type_ns
    || a.rr_type == type_dname
    || a.rr_type == type_cname
    || a.rr_type == type_ds
    || a.rr_type == type_dnskey
    || a.rr_type == type_nsec
    || a.rr_type == type_nsec3

abbrev pub second : ℕ
second = 1_000_000_000

-- `getExpirationForSafeAnswer`, with the loop that keeps what it returns
unfoldable pub build_section : ℕ → List AnyAnswer → List TimedAnswer
unfolding base_ans is_cacheable_type
build_section now [] = []
build_section now (x ∷ xs) =
    let rest = build_section now xs in
    elim (base_ans x) [
      | none ↦ rest
      | some a ↦
          if is_cacheable_type a
          then record { answer = x; expires_at = now + a.ttl * second } ∷ rest
          else rest
    ]

unfoldable pub build_cached_result : ℕ → SingleQueryResult → CachedResult
unfolding build_section
build_cached_result now res = record {
  answers = build_section now res.answers;
  authorities = build_section now res.authorities;
  additionals = build_section now res.additionals;
  flags = res.flags;
  dnssec_result = res.dnssec_result;
}

abbrev pub is_nil {ℓ} : {A : Type ℓ} → List A → Bool
is_nil [] = true
is_nil (x ∷ xs) = false

unfoldable pub nothing_cached : CachedResult → Bool
nothing_cached r = is_nil r.answers && is_nil r.authorities && is_nil r.additionals

-- a record that names something outside the layer
unfoldable pub is_poison : Text → AnyAnswer → Bool
is_poison layer x = elim (base_ans x) [
  | none ↦ false
  | some a ↦ not (name_is_beneath a.name layer).0 && not (text_eq a.type (codes "NSEC3"))
]

-- the loops over the sections look for the first record of that sort
unfoldable pub has_poison : Text → List AnyAnswer → Bool
unfolding is_poison
has_poison layer [] = false
has_poison layer (x ∷ xs) = is_poison layer x || has_poison layer xs

-- `res.DNSSECResult != nil && res.DNSSECResult.Status == DNSSECBogus`
unfoldable pub is_bogus : Option DnssecResult → Bool
is_bogus none = false
is_bogus (some r) = elim r.status [
  | DnssecStatus.bogus ↦ true
  | DnssecStatus.secure ↦ false
  | DnssecStatus.insecure ↦ false
  | DnssecStatus.indeterminate ↦ false
]

-- The name of the authorities that are plain answers, in lower case: `none` if there are two.
unfoldable pub authority_name : Text → List AnyAnswer → Option Text
unfolding as_answer
authority_name name [] = some name
authority_name name (x ∷ xs) = elim (as_answer x) [
  | none ↦ authority_name name xs
  | some a ↦
      if is_nil name
      then authority_name (to_lower a.name) xs
      else if text_eq name (to_lower a.name)
      then authority_name name xs
      else none
]

-- `case DSAnswer, NSECAnswer, NSEC3Answer`
unfoldable pub is_delegation_record : AnyAnswer → Bool
is_delegation_record (typed Kind.ds a rest) = true
is_delegation_record (typed Kind.nsec a rest) = true
is_delegation_record (typed Kind.nsec3 a rest) = true
is_delegation_record _ = false

unfoldable pub delegation_records : List AnyAnswer → List AnyAnswer
unfolding is_delegation_record
delegation_records [] = []
delegation_records (x ∷ xs) =
    let rest = delegation_records xs in if is_delegation_record x then x ∷ rest else rest

unfoldable pub other_records : List AnyAnswer → List AnyAnswer
unfolding is_delegation_record
other_records [] = []
other_records (x ∷ xs) =
    let rest = other_records xs in if is_delegation_record x then rest else x ∷ rest

unfoldable pub make_dnssec_result : DnssecResult
make_dnssec_result = record {
  status = DnssecStatus.indeterminate;
  reason = [];
  dses = [];
  dnskeys = [];
  answers = [];
  additionals = [];
  authorities = [];
}

-- `new(SingleQueryResult)` with the entries that have not expired, and whether one has
unfoldable pub live_result : ℕ → CachedResult → SingleQueryResult × Bool
unfolding unexpired
live_result now r =
    let (answers, e1) = unexpired now r.answers in
    let (authorities, e2) = unexpired now r.authorities in
    let (additionals, e3) = unexpired now r.additionals in
    (
      record empty_result {
        answers = answers;
        authorities = authorities;
        additionals = additionals;
        flags = r.flags;
        dnssec_result = r.dnssec_result;
      },
      e1 || e2 || e3,
    )

-- the results of `getCachedResult`
pub record CacheRead : Type 0 where
  pub retv : Option SingleQueryResult
  pub is_found : Bool
  pub partially_expired : Bool
