-- ===== src/Handlers.antt =====
-- handlers.go: the HTTP surface. A handler takes a request and the client's world to a reply and the new
-- world. The resolver of users and the extractors of ids are the consumer's code, and parameters.
-- Logging is left out.
mod Messages
pub mod Access
pub mod Limits
pub mod Imports
pub mod Replies
pub mod Effects
mod Tests
unfoldable pub use Messages.*
use Prim.Native.String.{◌++◌ as join}
use google_photos_picker.Base.{
  ℕ, ◌*◌, ◌^◌, String, Bool, true, false, ◌||◌, Option, none, some, List, [], ◌∷◌, StringMap,
  lookup, length, ◌==◌, eqb, ltb, if◌then◌else◌, decimal, ℤ, pos, to_ℕ, ltb_ℤ, increment,
}
use google_photos_picker.Errors.{Error, other, not_connected, invalid_state, job_not_found, is}
use google_photos_picker.Exec.{Result, ok, err, Exec, Context}
use google_photos_picker.System.{System}
use google_photos_picker.Stores.{
  ImportStatus, pending, running, complete, failed, ImportJob, Metadata, TokenStatus,
}
use google_photos_picker.OAuth.{Oauth2}
use google_photos_picker.StateStore.{consume}
use google_photos_picker.Http.{Body, read_limited}
use google_photos_picker.Picker.{Readers}
use google_photos_picker.Callback.{CallbackPage, CallbackData, render_callback}
use google_photos_picker.Client.{
  Client, World, PickerSession, SessionPhase, required, consent_url, complete_consent, status,
  disconnect, create_picker_session, poll_picker_session, start_import, get_import,
}

module _ {T J X : Type 0} (sys : System X) (lib : Oauth2 X) (readers : Readers)
    (h : Handlers T J X) where
  -- `userID, err := h.resolve(r)`, and the reply where there is none.
  abbrev pub with_user :
      Incoming X → (String → World T J X → Reply × World T J X) → World T J X → Reply × World T J X
  with_user r serve w = elim r.user [ err e ↦ (unauthorized, w) | ok user_id ↦ serve user_id w ]

  -- The id of the request, and the reply where it is empty.
  abbrev pub with_id :
      Incoming X → String → (World T J X → Reply × World T J X) → World T J X → Reply × World T J X
  with_id r message serve w = if r.id == "" then (failure 400 message, w) else serve w

  -- `Connect`
  unfoldable pub connect : Incoming X → World T J X → Reply × World T J X
  unfolding consent_url
  connect r = with_user r λ user_id w.
      let (res, w') = consent_url sys lib readers h.client user_id w in
      (
        reply_to res (λ (a : String × String). json (("consentUrl", text a.0) ∷ []))
            (failing 500 "failed to create state"),
        w',
      )

  abbrev pub callback_page : Bool → String → Reply
  callback_page success message =
      page h.callback.html_template (render_callback h.callback success message)

  abbrev pub consent_failed : Error → Reply
  consent_failed e =
      if is e invalid_state
      then callback_page false "Invalid or expired state."
      else callback_page false "Token exchange failed."

  -- `Callback`
  unfoldable pub callback : Incoming X → World T J X → Reply × World T J X
  unfolding complete_consent consume render_callback
  callback r w =
      let refused = query_value r.query "error" in
      let code = query_value r.query "code" in
      let state = query_value r.query "state" in
      if refused == ""
      then (if code == "" || state == ""
          then (callback_page false "Missing code or state in callback.", w)
          else (let (res, w') = complete_consent sys lib readers h.client r.context state code w in
              (reply_to res (λ user_id. callback_page true "") consent_failed, w')))
      else (callback_page false (join "Google consent was cancelled or failed: " refused), w)

  -- `Status`
  unfoldable pub get_status : Incoming X → World T J X → Reply × World T J X
  unfolding status
  get_status r = with_user r λ user_id w.
      let (res, w') = status sys lib readers h.client r.context user_id w in
      (
        reply_to res
            (λ (st : TokenStatus).
              json (("connected", flag st.connected) ∷ ("scopes", texts st.scopes) ∷ []))
            (failing 500 "failed to look up status"),
        w',
      )

  -- `Disconnect`
  unfoldable pub delete_tokens : Incoming X → World T J X → Reply × World T J X
  unfolding disconnect
  delete_tokens r = with_user r λ user_id w.
      let (res, w') = disconnect sys lib readers h.client r.context user_id w in
      (reply_to res (λ (u : Unit {0}). no_content) (failing 500 "failed to disconnect"), w')

  -- `CreateSession`
  unfoldable pub create_session : Incoming X → World T J X → Reply × World T J X
  unfolding create_picker_session google_error
  create_session r = with_user r λ user_id w.
      let (res, w') = create_picker_session sys lib readers h.client r.context user_id w in
      (
        reply_to res
            (λ (s : PickerSession).
              json (("sessionId", text s.session_id) ∷ ("pickerUri", text s.picker_uri) ∷ []))
            google_error,
        w',
      )

  -- `PollSession`
  unfoldable pub poll_session : Incoming X → World T J X → Reply × World T J X
  unfolding poll_picker_session google_error
  poll_session r = with_user r λ user_id. with_id r "missing session id" λ w.
      let (res, w') = poll_picker_session sys lib readers h.client r.context user_id r.id w in
      (reply_to res (λ phase. json (("status", text (phase_text phase)) ∷ [])) google_error, w')

  abbrev pub job_created : Result String → Reply
  job_created res =
      reply_to res (λ id. json (("importJobId", text id) ∷ []))
        (failing 500 "failed to create import job")

  -- `StartImport`; `envelope` is json.Unmarshal of the body.
  unfoldable pub post_import :
      (List ℕ → Result Metadata) → Incoming X → World T J X → Reply × World T J X
  unfolding start_import start_import_metadata
  post_import envelope r = with_user r λ user_id. with_id r "missing session id" λ w.
      elim (start_import_metadata envelope h.max_metadata_bytes h.max_metadata_keys r.body) [
        | err e ↦ (failure 400 "{\"error\":\"invalid metadata\"}", w)
        | ok meta ↦
            let (res, w') = start_import sys lib readers h.client r.context user_id r.id meta w in
            (job_created res, w')
      ]

  abbrev pub lookup_failed : Error → Reply
  lookup_failed e =
      if is e job_not_found then failure 404 "not found" else failure 500 "failed to look up job"

  -- `GetImport`
  unfoldable pub get_import_status : Incoming X → World T J X → Reply × World T J X
  unfolding get_import job_json
  get_import_status r = with_user r λ user_id. with_id r "missing job id" λ w.
      let (res, w') = get_import sys lib readers h.client r.context user_id r.id w in
      (reply_to res (λ job. json (job_json job)) lookup_failed, w')
