-- ===== src/Service/Keeping.antt =====
-- The rule for what every event keeps.
use google_photos_picker.Base.{ℤ, ℕ, String, ◌≡◌, List, [], ◌∷◌, Bool, some, inl, inr}
use google_photos_picker.Exec.{ok, Context, Result-cases}
use google_photos_picker.System.{System}
use google_photos_picker.OAuth.{Oauth2}
use google_photos_picker.StateStore.{StateStore, consume, gc_tick, close}
use google_photos_picker.Stores.Keeping.{TokensKeep, SavesKeep, ImportsKeep, QueueKeeps}
use google_photos_picker.Picker.{Readers}
use google_photos_picker.Client.{World, close_client}
use google_photos_picker.Client.Effects.{
  Kept, IssuesKeep, on_tokens-Keeps, on_imports-Keeps, access_token-Keeps,
}
use google_photos_picker.Picker.Effects.{
  list_session_media_items-Keeps, download_media_item-Keeps, delete_picker_session-Keeps,
}
use google_photos_picker.Exec.Invariants.{Keeps, OnStore}
use google_photos_picker.Handlers.{Incoming, Handlers}
use google_photos_picker.Handlers.Access.{Operation, connecting, serve, serve-unauthorized}
use google_photos_picker.Handlers.Effects.{serve-Kept, callback-Kept}
use google_photos_picker.Worker.{authorize}
use google_photos_picker.Worker.Effects.{drain_once-Kept}
use google_photos_picker.Service.{
  Call, claims, lists, downloads, totals, succeeds, fails, completes, gives_up, deletes, after_call,
  worker, Event, served, called_back, drained, called, swept, revoked, closed, elapsed, after_event,
  run, revoke_latest,
}

-- The operations that read or clean the states of the dance keep R.
pub record StatesKeep (R : StateStore → Type 0) : Type 0 where
  pub consumes : (state : String) (now : ℕ) (s : StateStore) → R s → R (consume state now s).1
  pub sweeps : (chose_stop : Bool) (now : ℕ) (s : StateStore) → R s → R (gc_tick chose_stop now s)
  pub closes : (s : StateStore) → R s → R (close s)

module _ {T J X : Type 0} (R : StateStore → Type 0) (sys : System X) (lib : Oauth2 X)
    (readers : Readers) (h : Handlers T J X) (poll_interval job_timeout : ℤ) where
  -- A new state, where the event issues one, keeps R.
  abbrev pub IssuesWell : Event sys lib readers h poll_interval job_timeout → Type 0
  IssuesWell (served op r) =
      (user_id : String) → r.user ≡ ok user_id → op ≡ connecting → IssuesKeep R user_id
  IssuesWell _ = Unit

  abbrev pub IssueWell : List (Event sys lib readers h poll_interval job_timeout) → Type 0
  IssueWell [] = Unit
  IssueWell (e ∷ es) = IssuesWell e × IssueWell es

module _ {T J X : Type 0} (P : T → Type 0) (Q : J → Type 0) (R : StateStore → Type 0)
    (sys : System X) (lib : Oauth2 X) (readers : Readers) (h : Handlers T J X)
    (poll_interval job_timeout : ℤ)
    (tokens : (user_id : String) → TokensKeep P h.client.tokens user_id)
    (imports : (user_id : String) → ImportsKeep Q h.client.imports user_id)
    (queue : QueueKeeps Q h.client.imports) (states : StatesKeep R)
    (saves : (state user_id : String) (now : ℕ) (s : StateStore)
      → R s
      → (consume state now s).0 ≡ some user_id
      → SavesKeep P h.client.tokens user_id) where
  served-Kept :
      (op : Operation sys lib readers h) (r : Incoming X) (w : World T J X)
      → IssuesWell R sys lib readers h poll_interval job_timeout (served op r)
      → Kept P Q R w
      → Kept P Q R (serve sys lib readers h op r w).1
  served-Kept op r w issues k = elim (Result-cases r.user) [
    | inl (user_id, known) ↦
        serve-Kept P Q R sys lib readers h r user_id known (tokens user_id) (imports user_id) op w
          (issues user_id known) k
    | inr (e, unknown) ↦ rw (serve-unauthorized sys lib readers h op r e w unknown) k
  ]

  authorized :
      (ctx : Context X) (user_id : String)
      → Keeps (OnStore P) (
          authorize sys lib readers
            (worker sys lib readers h poll_interval job_timeout)
            ctx
            user_id)
  authorized ctx user_id =
      access_token-Keeps P Q R sys lib readers h.client user_id (tokens user_id) ctx

  after_call-Kept :
      (c : Call sys lib readers h poll_interval job_timeout) (w : World T J X)
      → Kept P Q R w
      → Kept P Q R (after_call sys lib readers h poll_interval job_timeout c w)
  unfolding after_call
  after_call-Kept (claims ctx) w k = (on_imports-Keeps P Q R (queue.claims ctx)).at w k
  after_call-Kept (lists pages ctx user_id session_id) w k =
      (on_tokens-Keeps P Q R (
          list_session_media_items-Keeps P readers h.client.http_client _ ctx user_id
            (authorized ctx user_id) pages session_id)).at
        w k
  after_call-Kept (downloads ctx user_id item) w k =
      (on_tokens-Keeps P Q R (
          download_media_item-Keeps P readers h.client.http_client _ ctx user_id
            (authorized ctx user_id) item h.client.download_cap h.client.max_decoded_bytes)).at
        w k
  after_call-Kept (totals ctx id n) w k =
      (on_imports-Keeps P Q R ((queue.jobs id).totals ctx n)).at w k
  after_call-Kept (succeeds ctx id saved_id) w k =
      (on_imports-Keeps P Q R ((queue.jobs id).successes ctx saved_id)).at w k
  after_call-Kept (fails ctx id) w k =
      (on_imports-Keeps P Q R ((queue.jobs id).failures ctx)).at w k
  after_call-Kept (completes ctx id) w k =
      (on_imports-Keeps P Q R ((queue.jobs id).finishes ctx)).at w k
  after_call-Kept (gives_up ctx id message) w k =
      (on_imports-Keeps P Q R ((queue.jobs id).give_ups ctx message)).at w k
  after_call-Kept (deletes ctx user_id session_id) w k =
      (on_tokens-Keeps P Q R (
          delete_picker_session-Keeps P readers h.client.http_client _ ctx user_id
            (authorized ctx user_id) session_id)).at
        w k

  pub after_event-Kept :
      (e : Event sys lib readers h poll_interval job_timeout) (w : World T J X)
      → IssuesWell R sys lib readers h poll_interval job_timeout e
      → Kept P Q R w
      → Kept P Q R (after_event sys lib readers h poll_interval job_timeout e w)
  unfolding after_event close_client
  after_event-Kept (served op r) w issues k = served-Kept op r w issues k
  after_event-Kept (called_back r) w issues (p, q, s) =
      callback-Kept P Q R sys lib readers h r w
        (λ user_id known. saves _ user_id (sys.now w.env) w.states s known)
        (states.consumes _ (sys.now w.env) w.states s) (p, q, s)
  after_event-Kept (drained jobs pages ctx) w issues k =
      drain_once-Kept P Q R sys lib readers (worker sys lib readers h poll_interval job_timeout)
        tokens queue pages ctx jobs w k
  after_event-Kept (called c) w issues k = after_call-Kept c w k
  after_event-Kept (swept b) w issues (p, q, s) = (p, q, states.sweeps b (sys.now w.env) w.states s)
  after_event-Kept revoked w issues k = go w.revoking
    where
      go :
          (l : List String)
          → Kept P Q R (revoke_latest sys lib readers h poll_interval job_timeout l w)
      go [] = k
      go (_ ∷ _) = k
  after_event-Kept closed w issues (p, q, s) = (p, q, states.closes w.states s)
  after_event-Kept (elapsed f) w issues k = k

  pub run-Kept :
      (es : List (Event sys lib readers h poll_interval job_timeout)) (w : World T J X)
      → IssueWell R sys lib readers h poll_interval job_timeout es
      → Kept P Q R w
      → Kept P Q R (run sys lib readers h poll_interval job_timeout es w)
  unfolding run
  run-Kept [] w issues k = k
  run-Kept (e ∷ es) w (now, later) k =
      run-Kept es (after_event sys lib readers h poll_interval job_timeout e w) later
        (after_event-Kept e w now k)
