-- ===== src/Client.antt =====
-- client.go: the client, its constructor, the OAuth dance, the refresh of access tokens, and picker
-- sessions. Its mutable state is `World`; a method is a step on it. Logging is left out.
mod State
pub mod Consent
pub mod Disconnecting
pub mod Access
pub mod Sessions
pub mod Building
pub mod Effects
mod Tests
unfoldable pub use State.*
use Prim.Native.String.{◌++◌ as join}
use google_photos_picker.Base.{
  ℕ, ◌+◌, ◌*◌, ◌^◌, String, Bool, true, false, not, ◌&&◌, Option, none, some, List, [], ◌∷◌, ◌==◌,
  eqb, ltb, leb, if◌then◌else◌, second, ℤ, pos, negsuc,
}
use google_photos_picker.Errors.{
  Error, sentinel, no_tokens, not_connected, invalid_state, invalid_config, wrap, detail, is,
}
use google_photos_picker.Exec.{
  Result, ok, err, Exec, Context, pure, fail, lift, attempt, gets, outside, wrapping, branch,
  continue, map_error, ◌>>=◌, ◌>>◌,
}
use google_photos_picker.System.{System, with_timeout}
use google_photos_picker.StateStore.{StateStore, new_state_store, create, consume, close}
use google_photos_picker.Stores.{
  TokenRecord, TokenStatus, TokenStore, ImportJob, ImportStore, Metadata,
}
use google_photos_picker.OAuth.{OauthConfig, Token, Oauth2, granted_scopes}
use google_photos_picker.Http.{Request, HttpClient}
use google_photos_picker.Http.Query.{encode_values}
use google_photos_picker.Sink.{PhotoSink}
use google_photos_picker.Picker.{
  Authorizer, PickerSession as SessionResource, Readers, api_base, google_json,
}

-- `Client.Close`
unfoldable pub close_client : {T J X : Type 0} → World T J X → World T J X
unfolding close
close_client w = record w { states = close w.states }

pub record PickerSession : Type 0 where
  pub session_id : String
  pub picker_uri : String

pub data SessionPhase : Type 0 where
  pending ready expired : SessionPhase

-- `if errors.Is(err, ErrNoTokens)`
abbrev loaded_error : Error → Error
loaded_error e = if is e no_tokens then sentinel not_connected else e

-- A token that is still good for more than a minute.
abbrev pub is_fresh : ℕ → TokenRecord → Bool
is_fresh now rec =
    not (rec.access_token == "")
    && not (eqb rec.expires_at 0)
    && ltb (now + 60 * second) rec.expires_at

-- `mapNotConnected`
unfoldable pub map_not_connected : Error → Error
map_not_connected e =
    if is e no_tokens
    then sentinel not_connected
    else if is e not_connected
    then sentinel not_connected
    else e

module _ {T J X : Type 0} (sys : System X) (lib : Oauth2 X) (readers : Readers)
    (c : Client T J X) where
  -- `ConsentURL`, which returns the address and the state.
  unfoldable pub consent_url : String → Exec (World T J X) (String × String)
  unfolding create
  consent_url user_id = do
    state ← on_states (create sys user_id)
    pure (lib.auth_code_url c.oauth state, state)

  abbrev consumed : String → World T J X → Result String × World T J X
  consumed state w =
      let (found, s) = consume state (sys.now w.env) w.states in
      elim found [
        | none ↦ (err (sentinel invalid_state), record w { states = s })
        | some user_id ↦ (ok user_id, record w { states = s })
      ]

  abbrev pub granted_record : String → Token → TokenRecord
  granted_record user_id tok = record {
    user_id = user_id;
    refresh_token = tok.refresh_token;
    access_token = tok.access_token;
    expires_at = tok.expiry;
    scopes = granted_scopes tok c.oauth.scopes;
  }

  -- `CompleteConsent`
  unfoldable pub complete_consent : Context X → String → String → Exec (World T J X) String
  complete_consent ctx state code = do
    user_id ← consumed state
    tok ← wrapping (wrap "oauth exchange") (on_env (lib.exchange c.oauth ctx code))
    wrapping (wrap "save tokens") (on_tokens (c.tokens.save ctx (granted_record user_id tok)))
    pure user_id

  -- `Status`
  unfoldable pub status : Context X → String → Exec (World T J X) TokenStatus
  status ctx user_id = on_tokens (c.tokens.status ctx user_id)

  abbrev pub start_revoking : String → World T J X → World T J X
  start_revoking refresh w =
      if refresh == "" then w else record w { revoking = refresh ∷ w.revoking }

  abbrev pub deleted : Result String → World T J X → Result (Unit {0}) × World T J X
  deleted (ok refresh) w = (ok tt, start_revoking refresh w)
  deleted (err e) w = if is e no_tokens then (ok tt, w) else (err e, w)

  -- `Disconnect`
  unfoldable pub disconnect : Context X → String → Exec (World T J X) (Unit {0})
  disconnect ctx user_id w = let (r, w') = on_tokens (c.tokens.delete ctx user_id) w in deleted r w'

  -- What `revokeAtGoogle` sends.
  abbrev pub revoke_request : String → Request
  revoke_request token = record {
    method = "POST";
    url = revoke_url;
    headers = ("Content-Type", "application/x-www-form-urlencoded") ∷ [];
    body = some (encode_values (("token", token) ∷ []));
  }

  -- `context.Background()`
  abbrev background : Context X
  background x = none

  abbrev sent_revocation : Option String → String → X → X
  sent_revocation (some text) token x = x
  sent_revocation none token x =
      (c.http_client.do_request (with_timeout sys background (sys.now x) (10 * second))
        (revoke_request token) x).1

  -- `revokeAtGoogle`: its outcome is only logged.
  unfoldable pub revoke_at_google : String → X → X
  revoke_at_google token x = sent_revocation (readers.request_error "POST" revoke_url) token x

  abbrev pub refreshed : Context X → String → TokenRecord → Exec (T × X) String
  refreshed ctx user_id rec = do
    fresh ← wrapping (wrap "refresh token") (outside (lib.refresh c.oauth ctx rec.refresh_token))
    wrapping (wrap "persist refreshed token")
        (c.tokens.update_access ctx user_id fresh.access_token fresh.expiry)
    pure fresh.access_token

  abbrev pub usable : Context X → String → TokenRecord → Exec (T × X) String
  usable ctx user_id rec (t, x) =
      branch (is_fresh (c.now x) rec) (pure rec.access_token) (refreshed ctx user_id rec) (t, x)

  -- `accessToken`
  unfoldable pub access_token : Context X → String → Exec (T × X) String
  access_token ctx user_id = do
    rec ← wrapping loaded_error (c.tokens.load ctx user_id)
    usable ctx user_id rec

  -- `authorizer`
  abbrev pub authorizer : Authorizer T X
  authorizer = access_token

  abbrev pub session_of : SessionResource → PickerSession
  session_of sess = record { session_id = sess.id; picker_uri = sess.picker_uri }

  -- `CreatePickerSession`
  unfoldable pub create_picker_session : Context X → String → Exec (World T J X) PickerSession
  unfolding google_json access_token map_not_connected
  create_picker_session ctx user_id = do
    sess ← wrapping map_not_connected (
        on_tokens (
          google_json readers c.http_client authorizer readers.session ctx user_id "POST"
            (join api_base "/sessions") (some "{}")))
    pure (session_of sess)

  abbrev passed : Option ℕ → ℕ → SessionPhase
  passed none now = pending
  passed (some deadline) now = if not (ltb now deadline) then expired else pending

  -- `sessionPhase` at time `now`.
  unfoldable pub session_phase : ℕ → SessionResource → SessionPhase
  session_phase now s =
      if s.media_items_set
      then ready
      else if s.expire_time == ""
      then pending
      else passed (readers.rfc3339 s.expire_time) now

  -- `PollPickerSession`
  unfoldable pub poll_picker_session : Context X → String → String → Exec (World T J X) SessionPhase
  unfolding google_json access_token map_not_connected session_phase
  poll_picker_session ctx user_id session_id = do
    sess ← wrapping map_not_connected (
        on_tokens (
          google_json readers c.http_client authorizer readers.session ctx user_id "GET"
            (join api_base (join "/sessions/" session_id)) none))
    w ← gets (λ w. w)
    pure (session_phase (c.now w.env) sess)

  -- `StartImport`
  unfoldable pub start_import : Context X → String → String → Metadata → Exec (World T J X) String
  start_import ctx user_id session_id meta =
      on_imports (c.imports.create_job ctx user_id session_id meta)

  -- `GetImport`
  unfoldable pub get_import : Context X → String → String → Exec (World T J X) ImportJob
  get_import ctx user_id job_id = on_imports (c.imports.get ctx user_id job_id)
