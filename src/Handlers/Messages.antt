-- ===== src/Handlers/Messages.antt =====
-- handlers.go: what a handler reads of a request and what it replies, the constructor, and the metadata of
-- an import request.
use Prim.Native.String.{◌++◌ as join}
use google_photos_picker.Base.{
  ℕ, ◌*◌, ◌^◌, String, Bool, Option, none, some, List, [], ◌∷◌, StringMap, lookup, length, ◌==◌,
  if◌then◌else◌, decimal, ℤ, pos, to_ℕ, ltb_ℤ, increment,
}
use google_photos_picker.Errors.{Error, other, not_connected, is}
use google_photos_picker.Exec.{Result, ok, err, Context}
use google_photos_picker.Stores.{
  ImportStatus, pending, running, complete, failed, ImportJob, Metadata,
}
use google_photos_picker.Http.{Body, read_limited}
use google_photos_picker.Callback.{CallbackPage, CallbackData}
use google_photos_picker.Client.{Client, SessionPhase, required}

abbrev pub default_max_metadata_bytes : ℤ
default_max_metadata_bytes = pos (4 * 2 ^ 10)

abbrev pub default_max_metadata_keys : ℤ
default_max_metadata_keys = pos 32

-- What a handler reads of an http.Request.
pub record Incoming (X : Type 0) : Type 0 where
  pub context : Context X
  pub user : Result String  -- what the consumer's UserIDResolver makes of the request
  pub id : String  -- what the consumer's extractor of a session or job id makes of it
  pub query : StringMap String  -- the first value of each key
  pub body : Option Body

-- `url.Values.Get`
abbrev pub query_value : StringMap String → String → String
query_value q k = elim (lookup k q) [ none ↦ "" | some v ↦ v ]

-- A value as `writeJSON` encodes it; a nil slice is `null`.
pub data Json : Type 0 where
  text : String → Json
  flag : Bool → Json
  number : ℕ → Json
  texts : Option (List String) → Json

pub data Reply : Type 0 where
  failure : ℕ → String → Reply  -- http.Error: a status and a text
  json : List (String × Json) → Reply  -- 200, application/json
  no_content : Reply  -- 204
  page : Option String → CallbackData → Reply  -- 200, text/html, a template and its data

pub record HandlersConfig (T J X : Type 0) : Type 0 where
  pub client : Option (Client T J X)
  pub resolves : Bool  -- ResolveUserID is not nil
  pub callback : CallbackPage
  pub max_metadata_bytes : ℤ
  pub max_metadata_keys : ℤ

pub record Handlers (T J X : Type 0) : Type 0 where
  pub client : Client T J X
  pub callback : CallbackPage
  pub max_metadata_bytes : ℤ
  pub max_metadata_keys : ℤ

-- `if n <= 0 { n = d }`
abbrev pub positive_or : ℤ → ℤ → ℤ
positive_or n d = if ltb_ℤ (pos 0) n then n else d

-- `NewHandlers`
unfoldable pub new_handlers : {T J X : Type 0} → HandlersConfig T J X → Result (Handlers T J X)
new_handlers cfg = elim cfg.client [
  | none ↦ err (required "Client is required")
  | some client ↦
      if cfg.resolves
      then ok (record {
        client = client;
        callback = cfg.callback;
        max_metadata_bytes = positive_or cfg.max_metadata_bytes default_max_metadata_bytes;
        max_metadata_keys = positive_or cfg.max_metadata_keys default_max_metadata_keys;
      })
      else err (required "ResolveUserID is required")
]

-- `writeGoogleError`
unfoldable pub google_error : Error → Reply
google_error e =
    if is e not_connected
    then failure 428 "{\"error\":\"google_not_connected\"}"
    else failure 502 "failed to talk to Google"

abbrev pub unauthorized : Reply
unauthorized = failure 401 "unauthorized"

-- The reply to what a client's method returned.
abbrev pub reply_to : {A : Type 0} → Result A → (A → Reply) → (Error → Reply) → Reply
reply_to (ok a) good bad = good a
reply_to (err e) good bad = bad e

abbrev pub failing : ℕ → String → Error → Reply
failing code message e = failure code message

abbrev pub phase_text : SessionPhase → String
phase_text SessionPhase.pending = "pending"
phase_text SessionPhase.ready = "ready"
phase_text SessionPhase.expired = "expired"

abbrev pub status_text : ImportStatus → String
status_text pending = "pending"
status_text running = "running"
status_text complete = "complete"
status_text failed = "failed"

-- `json:"error,omitempty"`
abbrev pub error_field : String → List (String × Json)
error_field e = if e == "" then [] else ("error", text e) ∷ []

-- The JSON form of an `ImportJob`, by the tags of its fields.
unfoldable pub job_json : ImportJob → List (String × Json)
job_json job =
    ("id", text job.id)
    ∷ ("status", text (status_text job.status))
    ∷ ("total", number job.total_items)
    ∷ ("completed", number job.completed_items)
    ∷ ("failed", number job.failed_items)
    ∷ ("savedIds", texts (some job.saved_ids))
    ∷ error_field job.error

abbrev pub keys_checked : ℤ → Result Metadata → Result Metadata
keys_checked most (err e) = err e
keys_checked most (ok none) = ok none
keys_checked most (ok (some m)) =
    if ltb_ℤ most (pos (length m))
    then err (other (join "metadata exceeds " (join (decimal (to_ℕ most)) " keys")))
    else ok (some m)

-- `decodeStartImportMetadata` once the bytes are read; `envelope` is json.Unmarshal.
unfoldable pub decode_metadata : (List ℕ → Result Metadata) → ℤ → ℤ → List ℕ → Result Metadata
decode_metadata envelope max_bytes max_keys [] = ok none
decode_metadata envelope max_bytes max_keys (b ∷ bs) =
    if ltb_ℤ max_bytes (pos (length (b ∷ bs)))
    then err (other (join "metadata exceeds " (join (decimal (to_ℕ max_bytes)) " bytes")))
    else keys_checked max_keys (envelope (b ∷ bs))

-- `decodeStartImportMetadata`
unfoldable pub start_import_metadata :
    (List ℕ → Result Metadata) → ℤ → ℤ → Option Body → Result Metadata
unfolding read_limited decode_metadata increment
start_import_metadata envelope max_bytes max_keys none = ok none
start_import_metadata envelope max_bytes max_keys (some body) =
    elim (read_limited (increment max_bytes) body) [
      | err e ↦ err e
      | ok bytes ↦ decode_metadata envelope max_bytes max_keys bytes
    ]
