-- ===== src/Http/Answers.antt =====
-- How each request is answered.
use touchstone.Base.{
  ℕ, ◌≡◌, refl, ap, ℤ, pos, negsuc, Str, Bytes, codes, ◌⊎◌, inl, inr, Option, none, some, [],
  Outcome, ok, err, panic, hang, Error, Action, pure, resume,
}
use touchstone.Services.Env.{Env}
use touchstone.Http.{
  HttpJsonResponse, new_ok_http_json_response, error_response, do_check_nil_recursion, answer_of,
  checked, parsed, aspect, missing,
}
use touchstone.Http.Requests.{Route, Body, new_http_req_body, value_of}
use touchstone.Http.Controller.{Answer, handle_request, serve}
use touchstone.Http.Nil.{do_check_nil_recursion-cases}
use touchstone.Http.Complete.{to_call-passes}
use touchstone.Http.Asked.{Asks, IsNegative}
use touchstone.Http.Served.{handle_request-Asks, Asks-to_call}

-- An error is written, with no data, and the state is as it was.
abbrev pub IsError : {S : Type 0} → ℤ → Str → S → Outcome (HttpJsonResponse Answer) × S → Type 0
IsError code msg s v = v ≡ (ok (record { code = code; msg = msg; result = none }), s)

-- The code of an error of the server: its own, or -3.
abbrev pub IsCodeOf : Option ℤ → ℤ → Type 0
IsCodeOf none code = code ≡ negsuc 2
IsCodeOf (some c) code = code ≡ c

-- How what the server does is written: data with the code 0, an error with its code and its text
-- and no data, and nothing where it does not return.
abbrev pub IsWritten :
    {S : Type 0} → Outcome Answer × S → Outcome (HttpJsonResponse Answer) × S → Type 0
IsWritten (ok a, s) v = v ≡ (ok (record { code = pos 0; msg = []; result = some a }), s)
IsWritten (err e, s) v = (code : ℤ) × IsCodeOf e.code code × IsError code e.text s v
IsWritten (panic, s) v = v ≡ (panic, s)
IsWritten (hang, s) v = v ≡ (hang, s)

module _ {S : Type 0} (env : Env S) (fuel : ℕ)
    (unmarshal : (r : Route) → Bytes → Body r → Error ⊎ Body r) where
  -- A request of a route is refused, since it lacks a field or is a payment with a negative amount
  -- to burn, or the server does what it asks.
  abbrev pub IsHandled : (r : Route) → Body r → S → Outcome (HttpJsonResponse Answer) × S → Type 0
  IsHandled r q s v =
      (¬ ((m : Action S Answer) × Asks env fuel r q m)
        × IsError (negsuc 1) (codes "required fields are missing") s v)
      ⊎ (IsNegative env fuel r q × IsError (negsuc 6) (codes "Amount2Burn < 0") s v)
      ⊎ ((m : Action S Answer) × Asks env fuel r q m × IsWritten (m s) v)

  -- A body was not read, or is not the JSON of a request of the route, or its request is handled.
  abbrev pub IsAnswered :
      (r : Route) → Error ⊎ Bytes → S → Outcome (HttpJsonResponse Answer) × S → Type 0
  IsAnswered r body s v =
      ((e : Error) × (body ≡ inl e) × IsError (negsuc 0) e.text s v)
      ⊎ ((bytes : Bytes) × (body ≡ inr bytes)
          × (((e : Error) × (unmarshal r bytes (new_http_req_body r) ≡ inl e)
                × IsError (negsuc 1) e.text s v)
              ⊎ ((q : Body r) × (unmarshal r bytes (new_http_req_body r) ≡ inr q)
                  × IsHandled r q s v)))

  -- What `answer_of` makes of the handler's result.
  answered : Outcome Answer × S → Outcome (HttpJsonResponse Answer) × S
  unfolding error_response
  answered = resume (λ a. pure (new_ok_http_json_response a)) (λ e. pure (error_response e))

  answered-IsWritten : (v : Outcome Answer × S) → IsWritten v (answered v)
  unfolding answered error_response
  answered-IsWritten (ok a, s) = refl
  answered-IsWritten (err e, s) = error_written e s e.code refl
    where
      error_written :
          (e : Error) (s : S) (c : Option ℤ)
          → e.code ≡ c
          → (code : ℤ) × IsCodeOf e.code code × IsError code e.text s (pure (error_response e) s)
      error_written e s none h = rw (h, error_response) (negsuc 2, refl, refl)
      error_written e s (some c) h = rw (h, error_response) (c, refl, refl)
  answered-IsWritten (panic, s) = refl
  answered-IsWritten (hang, s) = refl

  answer_of-IsHandled :
      (r : Route) (q : Body r) (s : S)
      → do_check_nil_recursion (value_of r q) ≡ ok tt
      → IsHandled r q s (answer_of (unmarshal r) (value_of r) (handle_request env fuel r) q s)
  unfolding answered answer_of error_response
  answer_of-IsHandled r q s h = elim (handle_request-Asks env fuel r q h) [
    | inl asks ↦ inr (
        inr (handle_request env fuel r q, asks, answered-IsWritten (handle_request env fuel r q s)))
    | inr (negative, e) ↦ inr (inl (negative, ap (λ m. answered (m s)) e))
  ]

  parsed-IsAnswered :
      (r : Route) (bytes : Bytes) (u : Error ⊎ Body r) (s : S)
      → unmarshal r bytes (new_http_req_body r) ≡ u
      → IsAnswered r
          (inr bytes)
          s
          (parsed (unmarshal r) (value_of r) (handle_request env fuel r) u s)
  unfolding parsed checked
  parsed-IsAnswered r bytes (inl e) s h = inr (bytes, refl, inl (e, h, refl))
  parsed-IsAnswered r bytes (inr q) s h = inr (
    bytes,
    refl,
    inr (
      q,
      h,
      elim (do_check_nil_recursion-cases (value_of r q)) [
        | inl passed ↦ rw passed (answer_of-IsHandled r q s passed)
        | inr refused ↦ inl (lacks_field refused, rw refused refl)
      ],
    ),
  )
    where
      lacks_field :
          do_check_nil_recursion (value_of r q) ≡ err missing
          → ¬ ((m : Action S Answer) × Asks env fuel r q m)
      lacks_field refused (m, asks) =
          let (call, made) = Asks-to_call env fuel r q m asks in
          let passed = to_call-passes r q call made in cc

  -- Every request on every route is answered in one of five ways. Four write an error, with its
  -- text, and leave the state as it was: -1 where the body is not read, -2 where it is not the JSON
  -- of a request of the route, -2 where the request can ask nothing of the server, since it lacks a
  -- field, and -7 for a payment with a negative amount to burn. Else
  -- the server does what the route's request asks with the values of its fields, and what that
  -- returns is written with the code 0, its error with the error's code, or -3, and its text. A
  -- panic can only come out of what the server does.
  pub serve-answers :
      (r : Route) (body : Error ⊎ Bytes) (s : S)
      → IsAnswered r body s (serve env fuel unmarshal r body s)
  unfolding serve aspect
  serve-answers r (inl e) s = inl (e, refl, refl)
  serve-answers r (inr bytes) s =
      parsed-IsAnswered r bytes (unmarshal r bytes (new_http_req_body r)) s refl
