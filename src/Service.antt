-- ===== src/Service.antt =====
-- A server that is built on this library: the handlers, the callback, the worker on the same client, the
-- sweeper of states and the goroutines that revoke tokens, one after another in any order. The worker is
-- there whole, and call by call.
pub mod Isolation
pub mod Keeping
pub mod Renewing
pub mod Consenting
pub mod Soundness
mod Tests
use google_photos_picker.Base.{ℤ, ℕ, zero, suc, Bool, String, List, [], ◌∷◌}
use google_photos_picker.Exec.{Context}
use google_photos_picker.System.{System}
use google_photos_picker.OAuth.{Oauth2}
use google_photos_picker.StateStore.{gc_tick}
use google_photos_picker.Picker.{
  MediaItem, Readers, list_session_media_items, download_media_item, delete_picker_session,
}
use google_photos_picker.Client.{World, on_tokens, on_imports, close_client, revoke_at_google}
use google_photos_picker.Handlers.{Incoming, Handlers, callback}
use google_photos_picker.Handlers.Access.{Operation, serve}
use google_photos_picker.Worker.{Worker, authorize, run_tick}

module _ {T J X : Type 0} (sys : System X) (lib : Oauth2 X) (readers : Readers) (h : Handlers T J X)
    (poll_interval job_timeout : ℤ) where
  -- The worker shares the client of the handlers.
  abbrev pub worker : Worker T J X
  worker = record { client = h.client; poll_interval = poll_interval; job_timeout = job_timeout }

  -- One call of the worker to a store or to Google, by itself: the calls of a worker, or of several, come
  -- in any order between all else. A call of the sink is time that passes.
  pub data Call : Type 0 where
    claims : Context X → Call
    lists : ℕ → Context X → String → String → Call
    downloads : Context X → String → MediaItem → Call
    totals : Context X → String → ℕ → Call
    succeeds : Context X → String → String → Call
    fails : Context X → String → Call
    completes : Context X → String → Call
    gives_up : Context X → String → String → Call
    deletes : Context X → String → String → Call

  unfoldable pub after_call : Call → World T J X → World T J X
  after_call (claims ctx) w = (on_imports (h.client.imports.claim_next_pending ctx) w).1
  after_call (lists pages ctx user_id session_id) w =
      (on_tokens
        (list_session_media_items readers h.client.http_client (authorize sys lib readers worker)
          pages ctx user_id session_id)
        w).1
  after_call (downloads ctx user_id item) w =
      (on_tokens
        (download_media_item readers h.client.http_client (authorize sys lib readers worker) ctx
          user_id item h.client.download_cap h.client.max_decoded_bytes)
        w).1
  after_call (totals ctx id n) w = (on_imports (h.client.imports.set_total ctx id n) w).1
  after_call (succeeds ctx id saved_id) w =
      (on_imports (h.client.imports.record_item_success ctx id saved_id) w).1
  after_call (fails ctx id) w = (on_imports (h.client.imports.record_item_failure ctx id) w).1
  after_call (completes ctx id) w = (on_imports (h.client.imports.mark_complete ctx id) w).1
  after_call (gives_up ctx id message) w =
      (on_imports (h.client.imports.mark_failed ctx id message) w).1
  after_call (deletes ctx user_id session_id) w =
      (on_tokens
        (delete_picker_session readers h.client.http_client (authorize sys lib readers worker) ctx
          user_id session_id)
        w).1

  pub data Event : Type 0 where
    served : Operation sys lib readers h → Incoming X → Event
    called_back : Incoming X → Event
    drained : ℕ → ℕ → Context X → Event  -- a tick of the worker, whole, with its fuel
    called : Call → Event
    swept : Bool → Event  -- a tick of the sweeper, with the choice of `select`
    revoked : Event  -- the goroutine of the latest disconnection runs
    closed : Event
    elapsed : (X → X) → Event  -- what happens outside

  abbrev pub revoke_latest : List String → World T J X → World T J X
  revoke_latest [] w = w
  revoke_latest (token ∷ rest) w = record w {
    revoking = rest;
    env = revoke_at_google sys lib readers h.client token w.env;
  }

  unfoldable pub after_event : Event → World T J X → World T J X
  unfolding serve callback gc_tick close_client revoke_at_google
  after_event (served op r) w = (serve sys lib readers h op r w).1
  after_event (called_back r) w = (callback sys lib readers h r w).1
  after_event (drained jobs pages ctx) w = run_tick sys lib readers worker jobs pages ctx w
  after_event (called c) w = after_call c w
  after_event (swept chose_stop) w = record w {
    states = gc_tick chose_stop (sys.now w.env) w.states;
  }
  after_event revoked w = revoke_latest w.revoking w
  after_event closed w = close_client w
  after_event (elapsed f) w = record w { env = f w.env }

  unfoldable pub run : List Event → World T J X → World T J X
  unfolding after_event
  run [] w = w
  run (e ∷ es) w = run es (after_event e w)
