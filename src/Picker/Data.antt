-- ===== src/Picker/Data.antt =====
-- picker.go: the resources of the Picker API, and the requests that are sent to it.
use Prim.Native.String.{◌++◌ as join}
use google_photos_picker.Base.{
  ℕ, ◌*◌, String, Bool, false, Option, none, some, List, [], ◌∷◌, length, ◌==◌, if◌then◌else◌, ℤ,
  to_int64, ltb_ℤ,
}
use google_photos_picker.Exec.{Result, Exec, Context}
use google_photos_picker.Http.{Request, Body}
use google_photos_picker.Http.Query.{encode_values}
use google_photos_picker.Sink.{DownloadedPhoto}

abbrev pub api_base : String
api_base = "https://photospicker.googleapis.com/v1"

abbrev pub Authorizer : Type 0 → Type 0 → Type 0
Authorizer T X = Context X → String → Exec (T × X) String

pub record PickerSession : Type 0 where
  pub id : String
  pub picker_uri : String
  pub media_items_set : Bool
  pub expire_time : String

pub record MediaFile : Type 0 where
  pub base_url : String
  pub mime_type : String
  pub filename : String

pub record MediaItem : Type 0 where
  pub id : String
  pub media_file : MediaFile

pub record ListMediaItemsResponse : Type 0 where
  pub media_items : List MediaItem
  pub next_page_token : String

-- The readers of Go's standard library that the program calls, as they are: what they make of a
-- method and an address, of bytes and of a text.
pub record Readers : Type 0 where
  pub request_error : String → String → Option String  -- http.NewRequestWithContext
  pub text_of : List ℕ → String  -- string(bytes)
  pub session : Body → Result PickerSession  -- json.Decoder
  pub page : Body → Result ListMediaItemsResponse  -- json.Decoder
  pub dimensions : List ℕ → Option (ℕ × ℕ)  -- image.DecodeConfig, width and height
  pub rfc3339 : String → Option ℕ  -- time.Parse

abbrev pub content_type : Option String → List (String × String)
content_type none = []
content_type (some _) = ("Content-Type", "application/json") ∷ []

-- The request that `googleRequest` sends.
abbrev pub authorized : String → String → String → Option String → Request
authorized access method url body = record {
  method = method;
  url = url;
  headers = ("Authorization", join "Bearer " access) ∷ content_type body;
  body = body;
}

abbrev pub page_params : String → String → List (String × String)
page_params session_id token =
    if token == ""
    then ("pageSize", "100") ∷ ("sessionId", session_id) ∷ []
    else ("pageSize", "100") ∷ ("pageToken", token) ∷ ("sessionId", session_id) ∷ []

abbrev pub page_url : String → String → String
page_url session_id token =
    join api_base (join "/mediaItems?" (encode_values (page_params session_id token)))

abbrev pub exceeds : ℤ → Option (ℕ × ℕ) → Bool
exceeds max_decoded none = false
exceeds max_decoded (some (width, height)) = ltb_ℤ max_decoded (to_int64 (width * height * 4))

abbrev pub photo_of : MediaItem → List ℕ → DownloadedPhoto
photo_of item bytes = record {
  google_media_id = item.id;
  filename = item.media_file.filename;
  mime_type = item.media_file.mime_type;
  size = length bytes;
  bytes = bytes;
  job_metadata = none;
}
