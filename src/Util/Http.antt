-- ===== src/Util/Http.antt =====
-- util/http_util.go: a request of HTTP, over the library that sends it.
use touchstone.Base.{Str, Bytes, codes, List, [], ◌∷◌, Outcome, Action, lift, ◌>>=◌}

abbrev pub http_method_post : Str
http_method_post = codes "POST"

abbrev pub http_method_get : Str
http_method_get = codes "GET"

abbrev pub http_content_type : Str
http_content_type = codes "Content-Type"

-- What is used of `net/http` and `ioutil`.
pub record Net (S : Type 0) : Type 1 where
  pub Request : Type 0
  pub Response : Type 0
  -- `http.NewRequest(method, url, body)`
  pub new_request : Str → Str → Bytes → Outcome Request
  -- `request.Header.Add(key, value)`
  pub add_header : Str → Str → Request → Request
  -- `httpClient.Do(request)`
  pub send : Request → Action S Response
  -- `ioutil.ReadAll(resp.Body)`
  pub read_all : Response → Action S Bytes
  -- `resp.Body.Close()`
  pub close_body : Response → S → S

module _ {S : Type 0} (net : Net S) where
  open net use {Request, Response, new_request, add_header, send, read_all, close_body}

  -- The loop over the headers, in the order in which the map gives them.
  unfoldable pub add_headers : List (Str × Str) → Request → Request
  add_headers [] request = request
  add_headers ((key, value) ∷ headers) request = add_headers headers (add_header key value request)

  -- What follows the answer: its body is closed however reading it ends.
  unfoldable pub read_and_close : Response → Action S Bytes
  read_and_close response s = let (body, s') = read_all response s in (body, close_body response s')

  module _ {R : Type 0} (marshal : R → Outcome Bytes) where
    unfoldable pub http_request : Str → Str → List (Str × Str) → R → Action S Bytes
    unfolding add_headers read_and_close
    http_request method url headers req_body = do
      content ← lift (marshal req_body)
      request ← lift (new_request method url content)
      response ← send (add_headers headers request)
      read_and_close response

    unfoldable pub http_post : Str → List (Str × Str) → R → Action S Bytes
    unfolding http_request
    http_post = http_request http_method_post

    unfoldable pub http_get : Str → List (Str × Str) → R → Action S Bytes
    unfolding http_request
    http_get = http_request http_method_get
