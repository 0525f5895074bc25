-- ===== src/Example/Routes.antt =====
-- The routes of examples/minimal/main.go: which handler answers which request. The mux of net/http picks
-- the pattern; it redirects a path that is not clean, and such paths are not modelled.
pub mod Steps
use Prim.Native.String.{◌++◌ as join}
use google_photos_picker.Base.{
  ℕ, String, ◌≡◌, ◌≢◌, refl, sym, ap, ◌∙◌, Bool, true, false, ◌&&◌, Option, none, some, List, [],
  ◌∷◌, StringMap, ◌==◌, if◌then◌else◌, ◌⊎◌, inl, inr, eq_refl, eq_iff, arith, Bool-cases,
}
use text.Mathlib.Text.{starts_with}
use google_photos_picker.Base.Strings.{
  trim_prefix, has_suffix, trim_suffix, trim_prefix-append, has_suffix-append, trim_suffix-append,
}
use google_photos_picker.Errors.{Error, other}
use google_photos_picker.Exec.{Result, ok, err, Context}
use google_photos_picker.System.{System}
use google_photos_picker.OAuth.{Oauth2}
use google_photos_picker.Http.{Body}
use google_photos_picker.Stores.{Metadata}
use google_photos_picker.Picker.{Readers}
use google_photos_picker.Client.{World}
use google_photos_picker.Handlers.{
  Incoming, Reply, failure, Handlers, query_value, connect, callback, get_status, delete_tokens,
  create_session, poll_session, post_import, get_import_status, unauthorized,
}

pub record HttpRequest (X : Type 0) : Type 0 where
  pub context : Context X
  pub method : String
  pub path : String
  pub query : StringMap String
  pub body : Option Body

-- `resolveUser`
unfoldable pub resolve_user : StringMap String → Result String
resolve_user query =
    let uid = query_value query "user" in
    if uid == "" then err (other "missing ?user= parameter") else ok uid

-- The patterns that are registered; the path that is one of them but for its last slash, to which the mux
-- redirects; and no pattern at all.
pub data Route : Type 0 where
  to_connect to_callback to_status to_disconnect to_sessions to_session to_import to_health
        redirected nowhere :
      Route

unfoldable pub route : String → Route
route path =
    if path == "/connect"
    then to_connect
    else if path == "/callback"
    then to_callback
    else if path == "/status"
    then to_status
    else if path == "/disconnect"
    then to_disconnect
    else if path == "/sessions"
    then to_sessions
    else if path == "/health"
    then to_health
    else if starts_with path "/sessions/"
    then to_session
    else if starts_with path "/imports/"
    then to_import
    else if path == "/imports"
    then redirected
    else nowhere

-- What the handler of `/sessions/` does with a request.
pub data SessionCall : Type 0 where
  import_of poll_of : String → SessionCall
  not_allowed : SessionCall

unfoldable pub session_call : String → String → SessionCall
session_call method request_path =
    let path = trim_prefix request_path "/sessions/" in
    let session_id = trim_suffix path "/import" in
    if has_suffix path "/import" && method == "POST"
    then import_of session_id
    else if method == "GET"
    then poll_of session_id
    else not_allowed

-- A POST to /sessions/<id>/import starts the import of that session, and a GET of /sessions/<id>/import polls
-- it, whatever the id.
pub session_call-import :
    (id : String)
    → (session_call "POST" (join "/sessions/" (join id "/import")) ≡ import_of id)
      × (session_call "GET" (join "/sessions/" (join id "/import")) ≡ poll_of id)
unfolding session_call
session_call-import id =
    rw
      (
        trim_prefix-append "/sessions/" (join id "/import"),
        has_suffix-append id "/import",
        trim_suffix-append id "/import",
      )
      (refl, refl)

pub data Answer : Type 0 where
  replied : Reply → Answer
  healthy : Answer  -- 200 and "ok"
  moved : String → Answer  -- a redirection to this path

module _ {T J X : Type 0} (sys : System X) (lib : Oauth2 X) (readers : Readers) (h : Handlers T J X)
    (envelope : List ℕ → Result Metadata) where
  -- The request as the handlers read it, with what the route extracts as its id.
  abbrev pub incoming : HttpRequest X → String → Incoming X
  incoming r id = record {
    context = r.context;
    user = resolve_user r.query;
    id = id;
    query = r.query;
    body = r.body;
  }

  abbrev pub session_answer : SessionCall → HttpRequest X → World T J X → Reply × World T J X
  session_answer (import_of id) r w = post_import sys lib readers h envelope (incoming r id) w
  session_answer (poll_of id) r w = poll_session sys lib readers h (incoming r id) w
  session_answer not_allowed r w = (failure 405 "method not allowed", w)

  -- The handler of `/sessions/`.
  unfoldable pub session_route : HttpRequest X → World T J X → Reply × World T J X
  session_route r w = session_answer (session_call r.method r.path) r w

  -- The handler of `/imports/`.
  unfoldable pub import_route : HttpRequest X → World T J X → Reply × World T J X
  import_route r w =
      let job_id = trim_suffix (trim_prefix r.path "/imports/") "/" in
      get_import_status sys lib readers h (incoming r job_id) w

  abbrev answered : Reply × World T J X → Answer × World T J X
  answered (reply, w) = (replied reply, w)

  unfoldable pub handle : Route → HttpRequest X → World T J X → Answer × World T J X
  handle to_connect r w = answered (connect sys lib readers h (incoming r "") w)
  handle to_callback r w = answered (callback sys lib readers h (incoming r "") w)
  handle to_status r w = answered (get_status sys lib readers h (incoming r "") w)
  handle to_disconnect r w = answered (delete_tokens sys lib readers h (incoming r "") w)
  handle to_sessions r w = answered (create_session sys lib readers h (incoming r "") w)
  handle to_session r w = answered (session_route r w)
  handle to_import r w = answered (import_route r w)
  handle to_health r w = (healthy, w)
  handle redirected r w = (moved "/imports/", w)
  handle nowhere r w = (replied (failure 404 "404 page not found"), w)

  unfoldable pub dispatch : HttpRequest X → World T J X → Answer × World T J X
  dispatch r w = handle (route r.path) r w

  -- The requests, one after another.
  unfoldable pub serve_all : List (HttpRequest X) → World T J X → World T J X
  serve_all [] w = w
  serve_all (r ∷ rs) w = serve_all rs (dispatch r w).1
