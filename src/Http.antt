-- ===== src/Http.antt =====
-- interceptor/http_interceptor.go: what stands around the handler of a request, `Aspect` and
-- `CheckNil`.
pub mod Requests
pub mod Controller
pub mod Fields
pub mod Nil
pub mod Complete
pub mod Asked
pub mod Served
pub mod Answers
use touchstone.Base.{
  ℤ, pos, negsuc, Str, Bytes, codes, List, [], ◌∷◌, Option, none, some, ◌⊎◌, inl, inr, Outcome, ok,
  err, Error, Action, pure, lift, handle, bind,
}
use touchstone.Services.Validate.{new_code_error}

abbrev pub http_ok_response_code : ℤ
http_ok_response_code = pos 0

abbrev pub http_read_body_error_code : ℤ
http_read_body_error_code = negsuc 0

abbrev pub http_wrong_format_error_code : ℤ
http_wrong_format_error_code = negsuc 1

abbrev pub http_service_error_code : ℤ
http_service_error_code = negsuc 2

abbrev pub err_parameters_code : ℤ
err_parameters_code = negsuc 6

-- A `reflect.Value` by its kind, as far as the check goes: other kinds have nothing below.
mutual
  pub data Value : Type 0 where
    nil_ptr : Value
    ptr : Value → Value
    struct : Values → Value
    slice : Values → Value
    other : Value

  pub data Values : Type 0 where
    end : Values
    field : Value → Values → Values

abbrev pub missing : Error
missing = new_code_error err_parameters_code (codes "required fields are missing")

-- `if err != nil` with an error of its own.
abbrev pub or_missing : Outcome (Unit {0}) → Outcome (Unit {0})
or_missing (ok a) = ok a
or_missing (err e) = err missing
or_missing r = r

unfoldable mutual
  pub do_check_nil_recursion : Value → Outcome (Unit {0})
  do_check_nil_recursion nil_ptr = err missing
  do_check_nil_recursion (ptr v) = or_missing (do_check_nil_recursion v)
  do_check_nil_recursion (struct vs) = check_nil_values vs
  do_check_nil_recursion (slice vs) = check_nil_values vs
  do_check_nil_recursion other = ok tt

  pub check_nil_values : Values → Outcome (Unit {0})
  check_nil_values end = ok tt
  check_nil_values (field v vs) =
      bind (or_missing (do_check_nil_recursion v)) λ _. check_nil_values vs

-- `HttpJsonResponse`
pub record HttpJsonResponse (A : Type 0) : Type 0 where
  pub code : ℤ
  pub msg : Str
  pub result : Option A

module _ {A : Type 0} where
  abbrev pub new_ok_http_json_response : A → HttpJsonResponse A
  new_ok_http_json_response a = record { code = http_ok_response_code; msg = []; result = some a }

  abbrev pub new_err_http_json_response : ℤ → Str → HttpJsonResponse A
  new_err_http_json_response code msg = record { code = code; msg = msg; result = none }

  -- `codeErr, ok := err.(*util.CodeError)`
  unfoldable pub error_response : Error → HttpJsonResponse A
  error_response e = elim e.code [
    | none ↦ new_err_http_json_response http_service_error_code e.text
    | some c ↦ new_err_http_json_response c e.text
  ]

-- The handler of requests of type `Q` that `Aspect` makes: of a handler, the body that
-- `NewHttpReqBody` gives, `json.Unmarshal` into it, and what reflection shows of it. The body comes
-- as `ioutil.ReadAll` gives it. The result is what is written.
module _ {S Q A : Type 0} (unmarshal : Bytes → Q → Error ⊎ Q) (value_of : Q → Value) where
  unfoldable pub answer_of : (Q → Action S A) → Q → Action S (HttpJsonResponse A)
  unfolding error_response
  answer_of handle_func q =
      handle (handle_func q) (λ a. pure (new_ok_http_json_response a))
        (λ e. pure (error_response e))

  unfoldable pub checked : (Q → Action S A) → Q → Action S (HttpJsonResponse A)
  unfolding answer_of do_check_nil_recursion
  checked handle_func q =
      handle (lift (do_check_nil_recursion (value_of q))) (λ _. answer_of handle_func q)
        (λ e. pure (new_err_http_json_response http_wrong_format_error_code e.text))

  -- What follows `json.Unmarshal`.
  unfoldable pub parsed : (Q → Action S A) → Error ⊎ Q → Action S (HttpJsonResponse A)
  unfolding checked
  parsed handle_func (inl e) = pure (new_err_http_json_response http_wrong_format_error_code e.text)
  parsed handle_func (inr q) = checked handle_func q

  unfoldable pub aspect : (Q → Action S A) → Q → Error ⊎ Bytes → Action S (HttpJsonResponse A)
  unfolding parsed
  aspect handle_func new_body (inl e) =
      pure (new_err_http_json_response http_read_body_error_code e.text)
  aspect handle_func new_body (inr bytes) = parsed handle_func (unmarshal bytes new_body)
