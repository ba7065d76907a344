-- ===== src/Resolver/Iterate/Extracts.antt =====
-- `iterateOnAuthorities` of src/zdns/lookup.go up to the name server that it takes from an authority,
-- without the validation of DNSSEC.
use zdns.Prelude.{
  ◌<◌, ◌≡◌, inl, inr, refl, Bool, true, false, not, ◌||◌, Option, none, some, List, [], arith,
  Bool-cases, Option-cases, length, Text, text_eq, codes, trim_suffix,
}
use zdns.Names.{dot, name_is_beneath}
use mathlib.Core.Path.{subst}
use zdns.Names.{IsDottable}
use zdns.Records.{
  Question, AnyAnswer, as_answer, Status, SingleQueryResult, TraceStep, safe_status, class_inet,
}
use zdns.Records.NameServers.{NameServer, IpVersionMode, IterationIpPreference}
use zdns.Lookup.Glue.{find_glue, check_glue_helper, first_type, is_dual, check_glue}
use zdns.Resolver.{with_own_retries, Config, Resolver, Network}
use zdns.Resolver.Authorities.{
  after_own_retries, Deeper, Extracted, find_address, is_no_glue_or_timeout, address_type,
  server_of, read_address, look_up_server, extract_authority,
}
use zdns.Resolver.Settled.{IsSound, Settled, Settles}

no_glue_unsafe :
    (status : Status) → is_no_glue_or_timeout status ≡ true → safe_status status ≡ false
unfolding is_no_glue_or_timeout safe_status
no_glue_unsafe status e = ground (arith, e)

abbrev has_result : Option SingleQueryResult → Status → Bool
has_result res status = not (safe_status status) || elim res [ none ↦ false | some r ↦ true ]

check_glue_helper-has_result :
    (server type : Text) (result : SingleQueryResult)
    → has_result (check_glue_helper server type result).0 (check_glue_helper server type result).1
      ≡ true
unfolding check_glue_helper safe_status
check_glue_helper-has_result server type result =
    elim (Option-cases (find_glue server type result.additionals)) [
      | inl e ↦ rw (check_glue_helper, e) refl
      | inr (a, e) ↦ rw (check_glue_helper, e) refl
    ]

check_glue-has_result :
    (server : Text) (result : SingleQueryResult) (mode : IpVersionMode)
    (preference : IterationIpPreference)
    → has_result
        (check_glue server result mode preference).0
        (check_glue server result mode preference).1
      ≡ true
unfolding check_glue
check_glue-has_result server result mode preference =
    let type = first_type mode preference in
    let first = check_glue_helper-has_result server type result in
    elim (Bool-cases (safe_status (check_glue_helper server type result).1 || not (is_dual mode))) [
      | inl e ↦ rw (check_glue, e) first
      | inr e ↦ elim (Bool-cases (text_eq type (codes "A"))) [
        | inl f ↦ rw (check_glue, e, f) (check_glue_helper-has_result server (codes "AAAA") result)
        | inr f ↦ rw (check_glue, e, f) (check_glue_helper-has_result server (codes "A") result)
      ]
    ]

-- A plain record names a server that can be asked for, once its final dot is removed.
abbrev pub IsServerNamed : AnyAnswer → Type 0
IsServerNamed x = elim (as_answer x) [
  | none ↦ Unit
  | some a ↦ IsDottable (trim_suffix a.answer dot)
]

module _ (P : AnyAnswer → Type 0) {W C M : Type 0} (net : Network W C M) (cfg : Config)
    (sound : IsSound P IsServerNamed net) (b : Bool)
    (some_root : 0 < length cfg.root_name_servers) where
  -- A lookup one level deeper settles, if it has a server to ask.
  abbrev pub DeeperSettles : Deeper W C → Type 0
  DeeperSettles deeper =
      (r : Resolver W) (ctx : C) (q : Question) (servers : List NameServer) (layer : Text)
      (t : List TraceStep)
      → 0 < length servers
      → IsDottable q.name
      → Settled P IsServerNamed net b r
      → Settles P IsServerNamed net b (deeper r ctx q servers layer t)

  -- what is extracted has a name server if its status is a success
  abbrev has_server : Extracted → Bool
  has_server found =
      not (safe_status found.status) || elim found.name_server [ none ↦ false | some ns ↦ true ]

  read_address-some :
      (server layer : Text) (res : Option SingleQueryResult) (status : Status) (t : List TraceStep)
      → has_result res status ≡ true
      → (found : Extracted) × (read_address net cfg server layer res status t ≡ some found)
        × (has_server found ≡ true)
  unfolding read_address
  read_address-some server layer res status t h =
      let failed : Extracted = record {
        name_server = none;
        status = Status.serv_fail;
        layer = layer;
        trace = t;
      } in
      elim (Bool-cases (is_no_glue_or_timeout status)) [
        | inl e ↦ (
          record { name_server = none; status = status; layer = []; trace = t },
          rw e refl,
          ground (arith, no_glue_unsafe status e),
        )
        | inr e ↦ elim (Bool-cases (safe_status status)) [
          | inr s ↦ (failed, rw (e, s) refl, refl)
          | inl s ↦ elim (Option-cases res) [
            | inl f ↦ absurd (ground (arith, h, s, f))
            | inr (r, f) ↦ elim (Option-cases (find_address cfg.ip_version_mode r.answers)) [
              | inl g ↦ (failed, rw (e, s, f, g) refl, refl)
              | inr (a, g) ↦ (
                record {
                  name_server = some (server_of net cfg server a);
                  status = Status.no_error;
                  layer = layer;
                  trace = t;
                },
                rw (e, s, f, g) refl,
                refl,
              )
            ]
          ]
        ]
      ]

  -- a name server is extracted, or not, with a settled resolver
  abbrev Extracts : Option (Resolver W × Extracted) → Type 0
  Extracts m =
      (r' : Resolver W) × (found : Extracted) × (m ≡ some (r', found))
      × Settled P IsServerNamed net b r'
      × (has_server found ≡ true)

  module _ (deeper : Deeper W C) (settles : DeeperSettles deeper) where
    look_up_server-Extracts :
        (r : Resolver W) (ctx : C) (server layer : Text) (t : List TraceStep)
        → IsDottable server
        → Settled P IsServerNamed net b r
        → Extracts (look_up_server net cfg deeper r ctx server layer t)
    unfolding look_up_server
    look_up_server-Extracts r ctx server layer t dottable (off, v, closed) =
        let (r', reply, e, (_, v', closed'), answered) =
          settles (record (with_own_retries r) { should_validate_dnssec = false }) ctx
            (record {
              type = address_type cfg.ip_version_mode cfg.iteration_ip_preference;
              class = class_inet;
              name = server;
            })
            cfg.root_name_servers dot t some_root dottable (refl, v, closed) in
        let (found, f, has) =
          read_address-some server layer reply.result reply.status reply.trace answered.0 in
        (after_own_retries net cfg r r', found, rw (e, f) refl, (off, v', closed'), has)

    pub extract_authority-Extracts :
        (r : Resolver W) (ctx : C) (x : AnyAnswer) (layer : Text) (result : SingleQueryResult)
        (t : List TraceStep)
        → IsServerNamed x
        → Settled P IsServerNamed net b r
        → Extracts (extract_authority net cfg deeper r ctx x layer result t)
    unfolding extract_authority
    extract_authority-Extracts r ctx x layer result t named s = elim (Option-cases (as_answer x)) [
      | inl e ↦ (
        r,
        record { name_server = none; status = Status.form_err; layer = layer; trace = t },
        rw (extract_authority, e) refl,
        s,
        refl,
      )
      | inr (a, e) ↦
          let (inside, layer') = name_is_beneath a.name layer in
          let server = trim_suffix a.answer dot in
          let (glue, status) =
            check_glue server result cfg.ip_version_mode cfg.iteration_ip_preference in
          elim (Bool-cases inside) [
            | inr f ↦ (
              r,
              record { name_server = none; status = Status.auth_fail; layer = layer'; trace = t },
              rw (extract_authority, e, f) refl,
              s,
              refl,
            )
            | inl f ↦ elim (Bool-cases (safe_status status)) [
              | inl g ↦
                  let (found, h, has) = read_address-some server layer' glue status t (
                    check_glue-has_result server result cfg.ip_version_mode
                      cfg.iteration_ip_preference) in
                  (r, found, ground (arith, e, f, g, h), s, has)
              | inr g ↦
                  let dottable : IsDottable server =
                    subst
                      (λ o. elim o [
                        | none ↦ Unit
                        | some a' ↦ IsDottable (trim_suffix a'.answer dot)
                      ])
                      e named in
                  let (r', found, h, s', has) =
                    look_up_server-Extracts r ctx server layer' t dottable s in
                  (r', found, rw (extract_authority, e, f, g, h) refl, s', has)
            ]
          ]
    ]
