-- ===== src/Handlers/Effects.antt =====
-- What the handlers keep of the two stores, from what the operations of the request's user keep.
use google_photos_picker.Base.{ℕ, String, ◌≡◌, refl, Bool, true, false, some, List, ◌==◌, ◌||◌}
use google_photos_picker.Exec.{Result, ok, err}
use google_photos_picker.System.{System}
use google_photos_picker.StateStore.{StateStore}
use google_photos_picker.OAuth.{Oauth2}
use google_photos_picker.Stores.{Metadata}
use google_photos_picker.Stores.Keeping.{SavesKeep, TokensKeep, ImportsKeep}
use google_photos_picker.Picker.{Readers}
use google_photos_picker.Client.{World}
use google_photos_picker.Client.Consent.{redeemed}
use google_photos_picker.Client.Effects.{
  Kept, IssuesKeep, consent_url-Keeps, complete_consent-Kept, disconnect-Keeps, status-Keeps,
  create_picker_session-Keeps, poll_picker_session-Keeps, start_import-Keeps, get_import-Keeps,
}
use google_photos_picker.Handlers.{
  Incoming, Handlers, connect, get_status, delete_tokens, create_session, poll_session, post_import,
  get_import_status, callback, query_value, start_import_metadata,
}
use google_photos_picker.Handlers.Access.{
  Operation, connecting, reading, disconnecting, creating, polling, looking, importing, serve,
}

module _ {T J X : Type 0} (P : T → Type 0) (Q : J → Type 0) (R : StateStore → Type 0)
    (sys : System X) (lib : Oauth2 X) (readers : Readers) (h : Handlers T J X)
    (r : Incoming X) where
  module _ (user_id : String) (known : r.user ≡ ok user_id)
      (tokens : TokensKeep P h.client.tokens user_id)
      (imports : ImportsKeep Q h.client.imports user_id) where
    polling-Kept :
        (w : World T J X) → Kept P Q R w → Kept P Q R (poll_session sys lib readers h r w).1
    unfolding poll_session
    polling-Kept w pq = go (r.id == "") refl
      where
        go : (b : Bool) → (r.id == "") ≡ b → Kept P Q R (poll_session sys lib readers h r w).1
        go true e = rw (known, e) pq
        go false e =
            rw (known, e)
              ((poll_picker_session-Keeps P Q R sys lib readers h.client user_id tokens r.context
                  r.id).at
                w pq)

    looking-Kept :
        (w : World T J X) → Kept P Q R w → Kept P Q R (get_import_status sys lib readers h r w).1
    unfolding get_import_status
    looking-Kept w pq = go (r.id == "") refl
      where
        go : (b : Bool) → (r.id == "") ≡ b → Kept P Q R (get_import_status sys lib readers h r w).1
        go true e = rw (known, e) pq
        go false e =
            rw (known, e)
              ((get_import-Keeps P Q R sys lib readers h.client user_id imports r.context r.id).at w
                pq)

    importing-Kept :
        (envelope : List ℕ → Result Metadata) (w : World T J X)
        → Kept P Q R w
        → Kept P Q R (post_import sys lib readers h envelope r w).1
    unfolding post_import
    importing-Kept envelope w pq =
        go (r.id == "") refl
          (start_import_metadata envelope h.max_metadata_bytes h.max_metadata_keys r.body) refl
      where
        go :
            (b : Bool)
            → (r.id == "") ≡ b
            → (m : Result Metadata)
            → start_import_metadata envelope h.max_metadata_bytes h.max_metadata_keys r.body ≡ m
            → Kept P Q R (post_import sys lib readers h envelope r w).1
        go true e m f = rw (known, e) pq
        go false e (err _) f = rw (known, e, f) pq
        go false e (ok meta) f =
            rw (known, e, f)
              ((start_import-Keeps P Q R sys lib readers h.client user_id imports r.context r.id
                  meta).at
                w pq)

    -- A request of the user, through any of the operations of the surface but the callback.
    pub serve-Kept :
        (op : Operation sys lib readers h) (w : World T J X)
        → (op ≡ connecting → IssuesKeep R user_id)
        → Kept P Q R w
        → Kept P Q R (serve sys lib readers h op r w).1
    unfolding serve connect get_status delete_tokens create_session
    serve-Kept connecting w issues pq =
        rw known ((consent_url-Keeps P Q R sys lib readers h.client user_id (issues refl)).at w pq)
    serve-Kept reading w _ pq =
        rw known ((status-Keeps P Q R sys lib readers h.client user_id tokens r.context).at w pq)
    serve-Kept disconnecting w _ pq =
        rw known
          ((disconnect-Keeps P Q R sys lib readers h.client user_id tokens r.context).at w pq)
    serve-Kept creating w _ pq = rw known (
        (create_picker_session-Keeps P Q R sys lib readers h.client user_id tokens r.context).at w
          pq)
    serve-Kept polling w _ pq = polling-Kept w pq
    serve-Kept looking w _ pq = looking-Kept w pq
    serve-Kept (importing envelope) w _ pq = importing-Kept envelope w pq

  -- A callback saves tokens for the user of its state alone.
  pub callback-Kept :
      (w : World T J X)
      → ((user_id : String)
          → (redeemed sys lib readers h.client r.context
              (query_value r.query "state")
              (query_value r.query "code")
              w).0
            ≡ some user_id
          → SavesKeep P h.client.tokens user_id)
      → R
          (redeemed sys lib readers h.client r.context
            (query_value r.query "state")
            (query_value r.query "code")
            w).1
      → Kept P Q R w
      → Kept P Q R (callback sys lib readers h r w).1
  unfolding callback
  callback-Kept w keep spent pq =
      go (query_value r.query "error" == "") refl
        (query_value r.query "code" == "" || query_value r.query "state" == "") refl
    where
      go :
          (b : Bool)
          → (query_value r.query "error" == "") ≡ b
          → (d : Bool) → (query_value r.query "code" == "" || query_value r.query "state" == "") ≡ d
          → Kept P Q R (callback sys lib readers h r w).1
      go false e d f = rw e pq
      go true e true f = rw (e, f) pq
      go true e false f =
          rw (e, f)
            (complete_consent-Kept P Q R sys lib readers h.client r.context
              (query_value r.query "state") (query_value r.query "code") w keep spent pq)
