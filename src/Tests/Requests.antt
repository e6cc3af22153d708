-- ===== src/Tests/Requests.antt =====
-- Requests of HTTP clients.
use touchstone.Base.{◌≡◌, refl, pos, Bytes, codes, [], ◌∷◌, some, ◌⊎◌, inr, ok, err, Error}
use touchstone.Services.Env.{Env}
use touchstone.Services.Validate.{new_code_error}
use touchstone.Http.{
  HttpJsonResponse, new_err_http_json_response, err_parameters_code, http_wrong_format_error_code,
  do_check_nil_recursion,
}
use touchstone.Http.Requests.{Route, gettxinventory, getaddrutxos, Body, value_of}
use touchstone.Http.Controller.{Call, to_call, serve}
use touchstone.Http.Nil.{to_call-checked}
use touchstone.Http.Answers.{IsAnswered, serve-answers}
use touchstone.Tests.Store.{State, test_env, out_100, in_100, out_60}

abbrev env : Env State
env = test_env (out_100 ∷ in_100 ∷ out_60 ∷ []) []

abbrev whole : Body getaddrutxos
unfolding Body
whole = record {
  addr = some (codes "a");
  badge_code = some (codes "b");
  offset = pos 0;
  limit = pos 10;
}

to_call-checked_example :
    ((call : Call) × (to_call getaddrutxos whole ≡ ok call))
    ⊎ (to_call getaddrutxos whole
        ≡ err (new_code_error err_parameters_code (codes "Amount2Burn < 0")))
unfolding value_of Body whole do_check_nil_recursion
to_call-checked_example = to_call-checked getaddrutxos whole refl

-- A body that sets no field.
abbrev set_nothing : (r : Route) → Bytes → Body r → Error ⊎ Body r
set_nothing r bytes q = inr q

-- A request without pointers, for the inventory of a transaction.
serve-answers_example :
    IsAnswered env 3 set_nothing gettxinventory
      (inr (codes "{}"))
      tt
      (serve env 3 set_nothing gettxinventory (inr (codes "{}")) tt)
serve-answers_example = serve-answers env 3 set_nothing gettxinventory (inr (codes "{}")) tt

refused_run : serve env 3 set_nothing getaddrutxos (inr (codes "{}")) tt ≡ (
  ok (
      new_err_http_json_response http_wrong_format_error_code
        (codes "required fields are missing")),
  tt,
)
unfolding serve touchstone.Http.aspect value_of touchstone.Http.Requests.new_http_req_body
refused_run = refl
