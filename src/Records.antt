-- ===== src/Records.antt =====
-- The data of src/zdns/qa.go, types.go, conf.go, answers.go and dnssec_types.go: questions, answers,
-- results, name servers and statuses.
pub mod NameServers
use zdns.Prelude.{ℕ, Bool, true, false, Option, none, some, List, [], Text, codes}

-- `Status` of conf.go: its constants, and the strings of the other return codes
pub data Status : Type 0 where
  no_error form_err serv_fail nx_domain refused truncated : Status
  error auth_fail no_record blacklisted no_output no_answer illegal_input : Status
  timeout iter_timeout no_auth no_needed_glue circular : Status
  other : Text → Status

-- the string that a status is
unfoldable pub status_text : Status → Text
status_text Status.no_error = codes "NOERROR"
status_text Status.form_err = codes "FORMERR"
status_text Status.serv_fail = codes "SERVFAIL"
status_text Status.nx_domain = codes "NXDOMAIN"
status_text Status.refused = codes "REFUSED"
status_text Status.truncated = codes "TRUNCATED"
status_text Status.error = codes "ERROR"
status_text Status.auth_fail = codes "AUTHFAIL"
status_text Status.no_record = codes "NORECORD"
status_text Status.blacklisted = codes "BLACKLIST"
status_text Status.no_output = codes "NO_OUTPUT"
status_text Status.no_answer = codes "NO_ANSWER"
status_text Status.illegal_input = codes "ILLEGAL_INPUT"
status_text Status.timeout = codes "TIMEOUT"
status_text Status.iter_timeout = codes "ITERATIVE_TIMEOUT"
status_text Status.no_auth = codes "NOAUTH"
status_text Status.no_needed_glue = codes "NONEEDEDGLUE"
status_text Status.circular = codes "CIRCULAR"
status_text (Status.other t) = t

unfoldable pub is_status_retryable : Status → Bool
is_status_retryable Status.serv_fail = true
is_status_retryable Status.nx_domain = true
is_status_retryable Status.refused = true
is_status_retryable Status.truncated = true
is_status_retryable Status.error = true
is_status_retryable Status.timeout = true
is_status_retryable Status.iter_timeout = true
is_status_retryable _ = false

unfoldable pub is_status_answer : Status → Bool
is_status_answer Status.no_error = true
is_status_answer Status.nx_domain = true
is_status_answer _ = false

-- `s == StatusNoError`
unfoldable pub safe_status : Status → Bool
safe_status Status.no_error = true
safe_status _ = false

pub record DnsFlags : Type 0 where
  pub response : Bool
  pub opcode : ℕ
  pub authoritative : Bool
  pub truncated : Bool
  pub recursion_desired : Bool
  pub recursion_available : Bool
  pub authenticated : Bool
  pub checking_disabled : Bool
  pub error_code : ℕ

pub record Question : Type 0 where
  pub type : ℕ
  pub class : ℕ
  pub name : Text

pub record Answer : Type 0 where
  pub ttl : ℕ
  pub type : Text
  pub rr_type : ℕ
  pub class : Text
  pub rr_class : ℕ
  pub name : Text
  pub answer : Text

-- the record types that embed an `Answer`, with their method `BaseAns`
pub data Kind : Type 0 where
  afsdb amtrelay apl caa cert csync dnskey ds gpos hinfo hip ipseckey loc minfo naptr : Kind
  nsec nsec3 nsec3param nxt pref px rkey rp rrsig smimea soa srv sshfp svcb talink tkey : Kind
  tlsa uri zonemd : Kind

-- A value of a section of a response. A typed record has its embedded `Answer` and its own fields,
-- which no modelled function reads, as one text. What has no `BaseAns` is opaque.
pub data AnyAnswer : Type 0 where
  answer : Answer → AnyAnswer
  typed : Kind → Answer → Text → AnyAnswer
  opaque : Text → AnyAnswer

-- `a.(WithBaseAnswer)` and `BaseAns`
unfoldable pub base_ans : AnyAnswer → Option Answer
base_ans (AnyAnswer.answer a) = some a
base_ans (typed k a rest) = some a
base_ans (opaque t) = none

-- `a.(Answer)`
unfoldable pub as_answer : AnyAnswer → Option Answer
as_answer (AnyAnswer.answer a) = some a
as_answer (typed k a rest) = none
as_answer (opaque t) = none

pub data DnssecStatus : Type 0 where
  secure insecure bogus indeterminate : DnssecStatus

pub record DnssecPerSetResult : Type 0 where
  pub rrset : Question
  pub status : DnssecStatus
  pub signature : Option AnyAnswer
  pub error : Text

pub record DnssecResult : Type 0 where
  pub status : DnssecStatus
  pub reason : Text
  pub dses : List AnyAnswer
  pub dnskeys : List AnyAnswer
  pub answers : List DnssecPerSetResult
  pub additionals : List DnssecPerSetResult
  pub authorities : List DnssecPerSetResult

pub record SingleQueryResult : Type 0 where
  pub answers : List AnyAnswer
  pub additionals : List AnyAnswer
  pub authorities : List AnyAnswer
  pub protocol : Text
  pub resolver : Text
  pub flags : DnsFlags
  pub dnssec_result : Option DnssecResult
  pub tls_server_handshake : Option Text

-- the values of Go's `DNSFlags{}` and `SingleQueryResult{}`
abbrev pub no_flags : DnsFlags
no_flags = record {
  response = false;
  opcode = 0;
  authoritative = false;
  truncated = false;
  recursion_desired = false;
  recursion_available = false;
  authenticated = false;
  checking_disabled = false;
  error_code = 0;
}

abbrev pub empty_result : SingleQueryResult
empty_result = record {
  answers = [];
  additionals = [];
  authorities = [];
  protocol = [];
  resolver = [];
  flags = no_flags;
  dnssec_result = none;
  tls_server_handshake = none;
}

pub record TraceStep : Type 0 where
  pub result : SingleQueryResult
  pub dns_type : ℕ
  pub dns_class : ℕ
  pub name : Text
  pub name_server : Text
  pub depth : ℕ
  pub layer : Text
  pub cached : Bool
  pub try : ℕ

-- the numbers of the record types and classes that the program names
abbrev pub type_a : ℕ
type_a = 1

abbrev pub type_ns : ℕ
type_ns = 2

abbrev pub type_cname : ℕ
type_cname = 5

abbrev pub type_ptr : ℕ
type_ptr = 12

abbrev pub type_mx : ℕ
type_mx = 15

abbrev pub type_aaaa : ℕ
type_aaaa = 28

abbrev pub type_dname : ℕ
type_dname = 39

abbrev pub type_ds : ℕ
type_ds = 43

abbrev pub type_rrsig : ℕ
type_rrsig = 46

abbrev pub type_nsec : ℕ
type_nsec = 47

abbrev pub type_dnskey : ℕ
type_dnskey = 48

abbrev pub type_nsec3 : ℕ
type_nsec3 = 50

abbrev pub type_nsec3param : ℕ
type_nsec3param = 51

abbrev pub class_inet : ℕ
class_inet = 1
