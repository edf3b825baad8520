-- ===== src/Osc/Exchange.antt =====
-- cnf/osc/client.py: what a request that gives an answer has sent.
use open_stack_cnf.Prelude.{String, Option, none, some, List, ◌∷◌, ◌≡◌, refl, ◌∙◌, ap}
use open_stack_cnf.Prelude.Dict.{Dict}
use open_stack_cnf.Effect.Exceptions.{Exception, ok}
use open_stack_cnf.Effect.Env.{Json}
use open_stack_cnf.Effect.Action.{lift}
use open_stack_cnf.Effect.Laws.{>>=-eq-ok, >>=-of-ok}
use open_stack_cnf.Osc.{
  Method, Request, Reply, Remote, url, headers, ask_token, send, raise_for_status, exchange,
}

-- The request of an exchange, with the token that it carries.
abbrev pub request_with : String → String → Method → String → Dict String → Option Json → Request
request_with token endpoint method path params json = record {
  method = method;
  url = url endpoint path;
  headers = headers token;
  params = params;
  json = json;
}

-- One request was sent, at a path of the API with the token of the session, and its reply was not
-- refused.
abbrev pub IsAnswered : Remote → String → List Request → List Request → Type 0
IsAnswered remote endpoint sent sent' =
    (token : String) × (method : Method) × (path : String) × (params : Dict String) × (json : Option
      Json)
    × (reply : Reply) × (sent' ≡ request_with token endpoint method path params json ∷ sent)
    × (remote.get_token sent ≡ ok token)
    × (remote.send sent (request_with token endpoint method path params json) ≡ ok reply)
    × (reply.refused ≡ none)

not_refused :
    (refused : Option Exception) (s : List Request)
    → (raise_for_status refused s).0 ≡ ok tt
    → (refused ≡ none) × ((raise_for_status refused s).1 ≡ s)
not_refused none s h = (refl, refl)
not_refused (some e) s h = cc

module _ (remote : Remote) (endpoint : String) where
  pub exchange-value :
      (method : Method) (path : String) (params : Dict String) (json : Option Json)
      (s : List Request) {j : Json}
      → (exchange remote endpoint method path params json s).0 ≡ ok j
      → IsAnswered remote endpoint s (exchange remote endpoint method path params json s).1
  unfolding exchange
  exchange-value method path params json s h =
      let (token, p, h1) = >>=-eq-ok (ask_token remote endpoint) _ s h in
      let r = request_with token endpoint method path params json in
      let (reply, q, h2) = >>=-eq-ok (send remote endpoint r) _ s h1 in
      let (_, t, _) = >>=-eq-ok (raise_for_status reply.refused) _ (r ∷ s) h2 in
      let (sound, same) = not_refused reply.refused (r ∷ s) t in
      let run =
        >>=-of-ok (ask_token remote endpoint) _ s p
        ∙ >>=-of-ok (send remote endpoint r) _ s q
        ∙ >>=-of-ok (raise_for_status reply.refused) (λ _. lift reply.json) (r ∷ s) t in
      (token, method, path, params, json, reply, ap (λ x. x.1) run ∙ same, p, q, sound)
