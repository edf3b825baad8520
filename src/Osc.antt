-- ===== src/Osc.antt =====
-- cnf/osc/client.py: the client of the REST API that the commands of the command line use. A command
-- is a program of its own: its state is the requests that it has sent, the latest first.
pub mod Table
pub mod Commands
pub mod Exchange
pub mod Fitting
pub mod Columns
pub mod Answers
pub mod Rows
pub mod Reading
use open_stack_cnf.Prelude.{
  String, ◌⧺◌, Bool, Option, none, some, List, [], ◌∷◌, if◌then◌else◌, ◌&&◌, ◌==◌,
}
use open_stack_cnf.Prelude.Dict.{Dict}
use open_stack_cnf.Prelude.Text.{strip_slashes}
use open_stack_cnf.Effect.Exceptions.{Exception, Result, ok, err, external}
use open_stack_cnf.Effect.Env.{Json}
use open_stack_cnf.Effect.Action.{Action, pure, raise, lift, ◌>>=◌, ◌>>◌}

pub data Method : Type 0 where
  get_method post_method : Method

-- A request of `httpx`; the timeout is 30 for every request.
pub record Request : Type 0 where
  pub method : Method
  pub url : String
  pub headers : Dict String
  pub params : Dict String
  pub json : Option Json

-- A response: what `raise_for_status` raises, and what `json` returns or raises.
pub record Reply : Type 0 where
  pub refused : Option Exception
  pub json : Result Json

-- What is outside of a command: the Keystone session, the server and the JSON parser.
pub record Remote : Type 0 where
  pub get_token : List Request → Result String
  pub send : List Request → Request → Result Reply
  pub json_loads : String → Result Json

-- The field `endpoint` of a `CnfClient` that is made with an endpoint.
abbrev pub new_client : String → String
new_client endpoint = strip_slashes endpoint

-- `make_client` of cnf/osc/plugin.py: the endpoint of the service in the catalog, by service type,
-- region and interface; the catalog may have none.
unfoldable pub make_client :
    (String → String → String → Option String) → String → String → Result String
make_client catalog region interface = elim (catalog "cnf" region interface) [
  | none ↦ err (external "AttributeError: NoneType")
  | some endpoint ↦ ok (new_client endpoint)
]

-- `_url`
abbrev pub url : String → String → String
url endpoint path = endpoint ⧺ "/v1" ⧺ path

-- `_headers`
abbrev pub headers : String → Dict String
headers token = ("X-Auth-Token", token) ∷ ("Content-Type", "application/json") ∷ []

abbrev pub raise_for_status : Option Exception → Action (List Request) (Unit {0})
raise_for_status none = pure tt
raise_for_status (some e) = raise e

module _ (remote : Remote) (endpoint : String) where
  abbrev pub ask_token : Action (List Request) String
  ask_token sent = (remote.get_token sent, sent)

  abbrev pub send : Request → Action (List Request) Reply
  send r sent = (remote.send sent r, r ∷ sent)

  -- The bodies of `get` and `post`, which differ in the method and in what is sent.
  unfoldable pub exchange : Method → String → Dict String → Option Json → Action (List Request) Json
  exchange method path params json = do
    token ← ask_token
    let r : Request = record {
      method = method;
      url = url endpoint path;
      headers = headers token;
      params = params;
      json = json;
    }
    reply ← send r
    raise_for_status reply.refused
    lift reply.json

  unfoldable pub get : String → Dict String → Action (List Request) Json
  unfolding exchange
  get path params = exchange get_method path params none

  unfoldable pub post : String → Json → Action (List Request) Json
  unfolding exchange
  post path json = exchange post_method path [] (some json)
