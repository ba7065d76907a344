-- ===== src/Tests/Validators.antt =====
-- The theorems on the DNSSEC validator at concrete inputs: a root zone with one key, whose DNSKEY set it
-- signs.
use zdns.Prelude.{
  ℕ, ◌≡◌, ◌≢◌, refl, true, false, none, some, List, [], ◌∷◌, Among, codes, text_eq, ℕ_discrete,
}
use zdns.Records.{
  AnyAnswer, Status, DnssecStatus, DnssecResult, DnssecPerSetResult, type_cname, TraceStep,
  type_dnskey, class_inet,
}
use zdns.Resolver.{Resolver, Network, failure}
use zdns.Validator.{
  RrHeader, Dnskey, Ds, Rrsig, Rr, Msg, Validating, LookUp, with_validator, Fetched, found, TagMap,
  DnsLibrary,
}
use zdns.Validator.Keys.{Delegation, fetch_ds_records}
use zdns.Validator.Sections.{validate_rrsig, validate_section, split_rrsets_and_sigs}
use zdns.Validator.Message.{verdict, validate}
use zdns.Validator.Signed.{IsVerified, validate_rrsig-IsVerified}
use zdns.Validator.Judged.{AreJudged, validate_section-AreJudged}
use zdns.Validator.Faults.{validate_expired, validate_rrsig_trace}
use zdns.Validator.Verdict.{IsTrusted, validate-status, validate-secure}
use zdns.Resolver.Following.{lookup}
use zdns.Tests.Data.{cfg, test_hash, test_ip_string, stocked, name_server}

abbrev root_header : RrHeader
root_header = record { name = codes "."; rr_type = type_dnskey; class = class_inet }

abbrev root_key : Dnskey
root_key = record { header = root_header; flags = 257; rest = [] }

abbrev root_delegation : Ds
root_delegation = record { key_tag = 7; digest_type = 2; digest = codes "ab"; rest = [] }

abbrev root_signature : Rrsig
root_signature = record {
  header = record root_header { rr_type = 46 };
  type_covered = type_dnskey;
  signer_name = codes ".";
  key_tag = 7;
  rest = [];
}

abbrev lib : DnsLibrary
lib = record {
  key_tag = λ k. 7;
  to_ds = λ k d. some (record root_delegation { digest = codes "AB" });
  verify = λ s k rrs. none;
  is_valid_at = λ s t. true;
  covers = λ n t. false;
  matches = λ n t. false;
  canonical_name = λ t. t;
  root_ds = (7, root_delegation) ∷ [];
  dnskey_of = λ a t. root_key;
  ds_of = λ a t. root_delegation;
  nsec_of = λ a t. record { name = []; type_bit_map = [] };
  nsec3_of = λ a t. record { flags = 0; type_bit_map = []; rest = [] };
  parse_rrsig = λ s. AnyAnswer.opaque s.rest;
  parse_ds = λ d. AnyAnswer.opaque d.digest;
  parse_dnskey = λ k. AnyAnswer.opaque k.rest;
  show_rr = λ rr. [];
  show_error = λ e. [];
  set_order = λ m. m;
  key_order = λ m. m;
  ds_order = λ l. l;
  dnskey_order = λ l. l;
}

key_order_keeps : (m : TagMap Dnskey) (e : ℕ × Dnskey) → Among e m → Among e m
key_order_keeps m e a = a

abbrev no_look_up : LookUp ℕ
no_look_up r q t = none

abbrev clock : Validating ℕ → Validating ℕ × ℕ
clock w = (w, 9)

abbrev validating : Resolver (Validating ℕ)
validating = record {
  world = record {
    outside = 0;
    validator = record {
      status = DnssecStatus.secure;
      reason = [];
      msg = none;
      name_server = none;
      ds = [];
      dnskeys = [];
    };
  };
  cache = stocked;
  retries_remaining = 3;
  own_retries = none;
  pending_queries = [];
  should_validate_dnssec = true;
  last_used_external_name_server = none;
  is_closed = false;
}

abbrev root_set : List Rr
root_set = Rr.dnskey root_key ∷ []

abbrev root_msg : Msg
root_msg = record {
  answer = Rr.dnskey root_key ∷ Rr.rrsig root_signature ∷ [];
  ns = [];
  extra = [];
  authoritative = true;
}

signed_run :
    (r' : Resolver (Validating ℕ)) × (t' : List TraceStep) × (validate_rrsig lib no_look_up clock
        type_dnskey root_set
        (root_signature ∷ [])
        validating
        []
      ≡ some (r', found root_signature, t'))
unfolding validate_rrsig text_eq
signed_run = (_, _, refl)

validate_rrsig-IsVerified_example :
    IsVerified lib no_look_up type_dnskey root_set (root_signature ∷ []) root_signature
validate_rrsig-IsVerified_example =
    validate_rrsig-IsVerified lib no_look_up clock key_order_keeps type_dnskey root_set
      (root_signature ∷ []) validating signed_run.0 [] signed_run.1 root_signature signed_run.2

validate_rrsig_trace_example : signed_run.1 ≡ []
validate_rrsig_trace_example =
    validate_rrsig_trace lib no_look_up clock root_set (root_signature ∷ []) validating signed_run.0
      [] signed_run.1 root_signature signed_run.2

section_run :
    (r' : Resolver (Validating ℕ)) × (xs : List DnssecPerSetResult) × (t' : List TraceStep)
    × (validate_section lib no_look_up clock root_msg.answer validating [] ≡ some (r', xs, t'))
unfolding validate_section text_eq ℕ_discrete
section_run = (_, _, _, refl)

validate_section-AreJudged_example :
    AreJudged lib no_look_up
      (split_rrsets_and_sigs root_msg.answer).rr_sigs
      (split_rrsets_and_sigs root_msg.answer).rr_sets
      section_run.1
validate_section-AreJudged_example =
    validate_section-AreJudged lib no_look_up clock key_order_keeps root_msg.answer validating
      section_run.0 [] section_run.2 section_run.1 section_run.3

message_run :
    (r' : Resolver (Validating ℕ)) × (res : DnssecResult) × (t' : List TraceStep) × (validate lib
        no_look_up clock validating
        (codes ".")
        root_msg
        name_server
        []
      ≡ some (r', res, t'))
    × (res.status ≡ DnssecStatus.secure)
unfolding validate text_eq ℕ_discrete
message_run = (_, _, _, refl, refl)

validate-status_example :
    (message_run.1.status ≡ message_run.0.world.validator.status)
    × (validating.world.validator.status ≢ DnssecStatus.secure
        → (message_run.0 ≡ validating)
          × (message_run.1 ≡ verdict DnssecStatus.secure [])
          × (message_run.2 ≡ []))
validate-status_example =
    validate-status lib no_look_up clock validating message_run.0 (codes ".") root_msg name_server
      [] message_run.2 message_run.1 message_run.3

validate-secure_example :
    (validating.world.validator.status ≡ DnssecStatus.secure)
    × (r1 : Resolver (Validating ℕ)) × (t1 : List TraceStep) × (fetched : Fetched Delegation)
    × (fetch_ds_records lib no_look_up validating (codes ".") [] ≡ some (r1, fetched, t1))
    × IsTrusted lib no_look_up clock key_order_keeps root_msg fetched
validate-secure_example =
    validate-secure lib no_look_up clock key_order_keeps validating message_run.0 (codes ".")
      root_msg name_server [] message_run.2 message_run.1 message_run.3 message_run.4

-- A lookup for the keys of a zone that leaves its own, authoritative message in the validator.
abbrev other_msg : Msg
other_msg = record { answer = []; ns = []; extra = []; authoritative = true }

abbrev meddling : LookUp ℕ
meddling r q t = some (
  with_validator r (record r.world.validator { msg = some other_msg }),
  failure Status.serv_fail t none,
)

-- a referral with a signed set in its answers, and more to validate
abbrev referral_msg : Msg
referral_msg = record {
  answer =
      Rr.other (record root_header { rr_type = type_cname }) []
      ∷ Rr.rrsig (record root_signature { type_covered = type_cname; signer_name = codes "org" })
      ∷ [];
  ns = root_set;
  extra = root_set;
  authoritative = false;
}

abbrev holding : Resolver (Validating ℕ)
holding = with_validator validating (record validating.world.validator { msg = some referral_msg })

meddled_run :
    (r1 : Resolver (Validating ℕ)) × (answers : List DnssecPerSetResult) × (t1 : List TraceStep)
    × (validate_section lib meddling clock referral_msg.answer holding [] ≡ some (r1, answers, t1))
    × (r1.world.validator.msg ≡ some other_msg)
unfolding validate_section text_eq ℕ_discrete
meddled_run = (_, _, _, refl, refl)

-- a network on which every context has expired
abbrev late : Network (Validating ℕ) ℕ Msg
late = record {
  ip_string = test_ip_string;
  parse_ip = λ t. none;
  hash = test_hash;
  now = clock;
  background = 0;
  with_timeout = λ w ctx d. (w, ctx);
  has_expired = λ w ctx. (w, true);
  intn = λ w n. (w, 0);
  perm = λ w n. (w, 0 ∷ []);
  shuffle = λ w xs. (w, xs);
  is_blacklisted = λ t. some false;
  get_connection_info = λ w ns. (w, none);
  wire = λ p w ctx q ns recursive.
      (w, record { result = none; raw = root_msg; status = Status.timeout; failed = false });
  validate = λ r layer raw ns trace. none;
}

validate_expired_example :
    validate lib
      (λ s q trace. lookup late cfg s 0 q cfg.root_name_servers true trace)
      clock
      validating
      (codes "org")
      root_msg
      name_server
      []
    ≡ none
unfolding text_eq
validate_expired_example =
    validate_expired lib late cfg 0 true clock validating (codes "org") root_msg name_server [] refl
      refl refl
