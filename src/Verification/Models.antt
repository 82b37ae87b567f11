-- ===== src/Verification/Models.antt =====
-- verification_runtime/models.py, and what it reads of process_runtime/models.py.
use imece_ide.Base.{
  ℕ, ◌+◌, String, Bool, true, false, not, ◌&&◌, ◌||◌, ltb, leb, ◌==◌, if◌then◌else◌, str_eq, Option,
  none, some, List, [], ◌∷◌, length, any, Result, ok, err, ◌>>◌, guard, refuse, is_stable_id,
  is_blank, text_length, has_nul, verification_input, drop_nul,
}
use imece_ide.Json.{ℤ, pos, negsuc}

pub data VerificationStatus : Type 0 where
  pass fail timeout error : VerificationStatus

-- Membership in a set of statuses.
abbrev pub same_status : VerificationStatus → VerificationStatus → Bool
same_status VerificationStatus.pass VerificationStatus.pass = true
same_status VerificationStatus.fail VerificationStatus.fail = true
same_status VerificationStatus.timeout VerificationStatus.timeout = true
same_status VerificationStatus.error VerificationStatus.error = true
same_status _ _ = false

-- The fields of ProcessRequest and ProcessResult that a verification reads.
pub record ProcessRequest : Type 0 where
  pub argv : List String
  pub timeout_ms : ℕ

pub record ProcessResult : Type 0 where
  pub exit_code : Option ℤ
  pub timed_out : Bool
  pub stdout : String
  pub stderr : String

pub record VerificationCheck : Type 0 where
  pub check_id : String
  pub name : String
  pub request : ProcessRequest
  pub pass_exit_codes : List ℤ
  pub error_exit_codes : List ℤ

abbrev pub int_eq : ℤ → ℤ → Bool
int_eq (pos a) (pos b) = a == b
int_eq (negsuc a) (negsuc b) = a == b
int_eq _ _ = false

-- code in codes
unfoldable pub has_code : ℤ → List ℤ → Bool
has_code code codes = any (int_eq code) codes

-- _name
unfoldable pub is_name : String → Bool
is_name s = not (is_blank s) && leb (text_length s) 512

abbrev is_empty {ℓ} : {A : Type ℓ} → List A → Bool
is_empty [] = true
is_empty (_ ∷ _) = false

-- VerificationCheck.__post_init__
unfoldable pub validate_check : VerificationCheck → Result (Unit {0})
validate_check c = do
  guard (is_stable_id c.check_id) verification_input
  guard (is_name c.name) verification_input
  refuse (is_empty c.pass_exit_codes) verification_input
  refuse (any (λ code. has_code code c.error_exit_codes) c.pass_exit_codes) verification_input

pub record VerificationPlan : Type 0 where
  pub plan_id : String
  pub checks : List VerificationCheck

unfoldable pub has_id : String → List VerificationCheck → Bool
has_id id checks = any (λ c. str_eq c.check_id id) checks

unfoldable pub unique_ids : List VerificationCheck → Bool
unique_ids [] = true
unique_ids (c ∷ checks) = not (has_id c.check_id checks) && unique_ids checks

unfoldable pub total_timeout : List VerificationCheck → ℕ
total_timeout [] = 0
total_timeout (c ∷ checks) = c.request.timeout_ms + total_timeout checks

abbrev pub max_checks : ℕ
max_checks = 16

abbrev pub max_total_timeout_ms : ℕ
max_total_timeout_ms = 1800000

-- VerificationPlan.__post_init__
unfoldable pub validate_plan : VerificationPlan → Result (Unit {0})
validate_plan p = do
  guard (is_stable_id p.plan_id) verification_input
  refuse (is_empty p.checks) verification_input
  refuse (ltb max_checks (length p.checks)) verification_input
  guard (unique_ids p.checks) verification_input
  refuse (ltb max_total_timeout_ms (total_timeout p.checks)) verification_input

pub record VerificationCheckResult : Type 0 where
  pub check_id : String
  pub name : String
  pub status : VerificationStatus
  pub process_result : Option ProcessResult
  pub error_type : Option String
  pub error_message : Option String

abbrev is_some {ℓ} : {A : Type ℓ} → Option A → Bool
is_some (some _) = true
is_some none = false

unfoldable pub is_error_type : Option String → Bool
is_error_type none = false
is_error_type (some s) = not (str_eq s "") && leb (text_length s) 256 && not (has_nul s)

unfoldable pub is_error_message : Option String → Bool
is_error_message none = false
is_error_message (some s) = leb (text_length s) 2000

unfoldable pub clean_message : Option String → Option String
clean_message none = none
clean_message (some s) = some (drop_nul s)

-- VerificationCheckResult.__post_init__, which gives the value it stores.
unfoldable pub check_evidence : VerificationCheckResult → Result VerificationCheckResult
check_evidence r =
    let no_fields = refuse (is_some r.error_type || is_some r.error_message) verification_input in
    elim r.process_result [
      | some p ↦ elim r.status [
        | VerificationStatus.timeout ↦ guard p.timed_out verification_input >> no_fields >> ok r
        | _ ↦ refuse p.timed_out verification_input >> no_fields >> ok r
      ]
      | none ↦ elim r.status [
        | VerificationStatus.error ↦
            guard (is_error_type r.error_type && is_error_message r.error_message)
              verification_input
            >> ok (record r { error_message = clean_message r.error_message })
        | _ ↦ err verification_input
      ]
    ]

unfoldable pub make_result : VerificationCheckResult → Result VerificationCheckResult
make_result r = do
  guard (is_stable_id r.check_id) verification_input
  guard (is_name r.name) verification_input
  check_evidence r

pub record VerificationReport : Type 0 where
  pub verification_id : String
  pub plan_id : String
  pub results : List VerificationCheckResult
  pub duration_ms : ℕ

-- VerificationReport.__post_init__
unfoldable pub make_report : VerificationReport → Result VerificationReport
make_report r = do
  guard (is_stable_id r.verification_id) verification_input
  guard (is_stable_id r.plan_id) verification_input
  refuse (is_empty r.results) verification_input
  ok r

abbrev pub has_status : VerificationStatus → List VerificationCheckResult → Bool
has_status st results = any (λ r. same_status st r.status) results

-- VerificationReport.status
unfoldable pub report_status : VerificationReport → VerificationStatus
report_status r =
    if has_status VerificationStatus.error r.results
    then VerificationStatus.error
    else if has_status VerificationStatus.timeout r.results
    then VerificationStatus.timeout
    else if has_status VerificationStatus.fail r.results
    then VerificationStatus.fail
    else VerificationStatus.pass
