-- ===== src/Example/Routes/Steps.antt =====
-- What a request does to the server of examples/minimal/main.go, in steps of the library's own.
use google_photos_picker.Base.{ℤ, ℕ, String, ◌≡◌, ◌≢◌, refl, ap, ◌∙◌, List, [], ◌∷◌, eq_iff}
use google_photos_picker.Errors.{other}
use google_photos_picker.Exec.{Result, err}
use google_photos_picker.System.{System}
use google_photos_picker.OAuth.{Oauth2}
use google_photos_picker.Stores.{Metadata}
use google_photos_picker.Picker.{Readers}
use google_photos_picker.Client.{World}
use google_photos_picker.Handlers.{Handlers, Reply, callback, query_value}
use google_photos_picker.Handlers.Access.{
  Operation, connecting, reading, disconnecting, creating, polling, looking, importing, serve,
  serve-unauthorized,
}
use google_photos_picker.Service.{Event, served, called_back, after_event, run}
use google_photos_picker.Example.Routes.{
  HttpRequest, resolve_user, Route, to_connect, to_callback, to_status, to_disconnect, to_sessions,
  to_session, to_import, to_health, redirected, nowhere, route, SessionCall, import_of, poll_of,
  not_allowed, session_call, incoming, session_route, session_answer, import_route, handle,
  dispatch, serve_all,
}

module _ {T J X : Type 0} (sys : System X) (lib : Oauth2 X) (readers : Readers) (h : Handlers T J X)
    (envelope : List ℕ → Result Metadata) where
  -- What a request does: an operation for a user, the callback, or nothing.
  data Does (r : HttpRequest X) (w w' : World T J X) : Type 0 where
    operates :
        (op : Operation sys lib readers h) (id : String)
        → w' ≡ (serve sys lib readers h op (incoming sys lib readers h envelope r id) w).1
        → Does r w w'
    calls_back :
        route r.path ≡ to_callback
        → w' ≡ (callback sys lib readers h (incoming sys lib readers h envelope r "") w).1
        → Does r w w'
    nothing : w' ≡ w → Does r w w'

  module _ (r : HttpRequest X) (w : World T J X) where
    session_answer-Does :
        (call : SessionCall) → Does r w (session_answer sys lib readers h envelope call r w).1
    unfolding serve
    session_answer-Does (import_of id) = operates (importing envelope) id refl
    session_answer-Does (poll_of id) = operates polling id refl
    session_answer-Does not_allowed = nothing refl

    handle-Does :
        (to : Route) → route r.path ≡ to → Does r w (handle sys lib readers h envelope to r w).1
    unfolding handle serve session_route import_route
    handle-Does to_connect at = operates connecting "" refl
    handle-Does to_callback at = calls_back at refl
    handle-Does to_status at = operates reading "" refl
    handle-Does to_disconnect at = operates disconnecting "" refl
    handle-Does to_sessions at = operates creating "" refl
    handle-Does to_session at = session_answer-Does (session_call r.method r.path)
    handle-Does to_import at = operates looking _ refl
    handle-Does to_health at = nothing refl
    handle-Does redirected at = nothing refl
    handle-Does nowhere at = nothing refl

    dispatch-Does : Does r w (dispatch sys lib readers h envelope r w).1
    unfolding dispatch
    dispatch-Does = handle-Does (route r.path) refl

    -- A request that names no user changes nothing, on any path but the callback's: no store, no state, no call
    -- to Google or to the database.
    pub dispatch-nobody :
        query_value r.query "user" ≡ ""
        → route r.path ≢ to_callback
        → (dispatch sys lib readers h envelope r w).1 ≡ w
    unfolding resolve_user
    dispatch-nobody missing elsewhere = go _ dispatch-Does
      where
        nobody : resolve_user r.query ≡ err (other "missing ?user= parameter")
        nobody = rw ((eq_iff (query_value r.query "user") "").1 missing) refl

        go : (w' : World T J X) → Does r w w' → w' ≡ w
        go w' (operates op id e) =
            e
            ∙ ap (λ (o : Reply × World T J X). o.1)
                (serve-unauthorized sys lib readers h op (incoming sys lib readers h envelope r id)
                  _ w nobody)
        go w' (calls_back at e) = absurd (elsewhere at)
        go w' (nothing e) = e

  -- Whatever requests come in, the server takes steps of the library's own: what the requests do to its
  -- world is what some run of operations for users and callbacks does.
  serve_all-run :
      (poll_interval job_timeout : ℤ) (rs : List (HttpRequest X)) (w : World T J X)
      → (es : List (Event sys lib readers h poll_interval job_timeout)) × (serve_all sys lib readers
            h envelope rs w
          ≡ run sys lib readers h poll_interval job_timeout es w)
  unfolding serve_all run after_event
  serve_all-run poll_interval job_timeout [] w = ([], refl)
  serve_all-run poll_interval job_timeout (r ∷ rs) w =
      let w' = (dispatch sys lib readers h envelope r w).1 in
      let (es, later) = serve_all-run poll_interval job_timeout rs w' in
      go w' (dispatch-Does r w) es later
    where
      go :
          (w' : World T J X)
          → Does r w w'
          → (es : List (Event sys lib readers h poll_interval job_timeout))
          → serve_all sys lib readers h envelope rs w'
            ≡ run sys lib readers h poll_interval job_timeout es w'
          → (es : List (Event sys lib readers h poll_interval job_timeout)) × (serve_all sys lib
                readers h envelope rs w'
              ≡ run sys lib readers h poll_interval job_timeout es w)
      go w' (operates op id e) es later = (
        served op (incoming sys lib readers h envelope r id) ∷ es,
        later ∙ ap (run sys lib readers h poll_interval job_timeout es) e,
      )
      go w' (calls_back at e) es later = (
        called_back (incoming sys lib readers h envelope r "") ∷ es,
        later ∙ ap (run sys lib readers h poll_interval job_timeout es) e,
      )
      go w' (nothing e) es later =
          (es, later ∙ ap (run sys lib readers h poll_interval job_timeout es) e)
