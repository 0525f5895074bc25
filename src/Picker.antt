-- ===== src/Picker.antt =====
-- picker.go: authenticated requests to Google, the pages of a session's items, and the download of an
-- item under two caps. `T` is the state of the token store, which the authorizer may refresh.
mod Data
pub mod Transport
pub mod Download
pub mod Listing
pub mod Ending
pub mod Effects
pub mod Provenance
mod Tests
unfoldable pub use Data.*
use Prim.Native.String.{◌++◌ as join}
use google_photos_picker.Base.{
  ℕ, zero, suc, ◌*◌, String, Bool, true, false, ◌&&◌, Option, none, some, List, [], ◌∷◌, ◌++◌,
  length, ◌==◌, if◌then◌else◌, decimal, ℤ, pos, to_int64, ltb_ℤ, increment,
}
use google_photos_picker.Errors.{Error, sentinel, other, wrap, download_too_big, photo_too_large}
use google_photos_picker.Exec.{
  Result, ok, err, Exec, Context, pure, fail, lift, outside, wrapping, branch, ◌>>=◌, ◌>>◌,
}
use google_photos_picker.Http.{
  Request, Body, Response, HttpClient, read_limited, read_excerpt, is_failure,
}
use google_photos_picker.Http.Query.{encode_values}
use google_photos_picker.Sink.{DownloadedPhoto}

module _ (readers : Readers) where
  -- fmt.Errorf("%s %s: %d: %s", …), with 512 bytes of the body at most.
  abbrev pub status_error : String → String → Response → Error
  status_error method url r = other (
      join method (
        join " " (
          join url (
            join ": "
              (join (decimal r.status) (join ": " (readers.text_of (read_excerpt 512 r.body))))))))

  abbrev accept : {S : Type 0} → String → String → Response → Exec S Response
  accept method url r s = if is_failure r then (err (status_error method url r), s) else (ok r, s)

  abbrev well_formed : {S : Type 0} → String → String → Exec S (Unit {0})
  well_formed method url s = elim (readers.request_error method url) [
    | none ↦ (ok tt, s)
    | some text ↦ (err (other text), s)
  ]

  module _ {T X : Type 0} (hc : HttpClient X) (auth : Authorizer T X) where
    -- `googleRequest`
    unfoldable pub google_request :
        Context X → String → String → String → Option String → Exec (T × X) Response
    google_request ctx user_id method url body = do
      access ← auth ctx user_id
      well_formed method url
      resp ← outside (hc.do_request ctx (authorized access method url body))
      accept method url resp

    -- `googleJSON`; without an `out`, the reader gives `ok tt`.
    unfoldable pub google_json :
        {A : Type 0}
        → (Body → Result A)
        → Context X
        → String
        → String
        → String
        → Option String
        → Exec (T × X) A
    unfolding google_request
    google_json read ctx user_id method url body = do
      resp ← google_request ctx user_id method url body
      lift (read resp.body)

    -- One round of the loop of `listSessionMediaItems`: the request for a page.
    unfoldable pub fetch_page :
        Context X → String → String → String → Exec (T × X) ListMediaItemsResponse
    unfolding google_json
    fetch_page ctx user_id session_id token =
        google_json readers.page ctx user_id "GET" (page_url session_id token) none

    -- The loop, with the items so far and the token of the next page; `none` when the fuel ran out.
    unfoldable pub list_pages :
        ℕ
        → Context X
        → String
        → String
        → List MediaItem
        → String
        → Exec (T × X) (Option (List MediaItem))
    unfolding fetch_page
    list_pages zero ctx user_id session_id out token = pure none
    list_pages (suc fuel) ctx user_id session_id out token = do
      page ← fetch_page ctx user_id session_id token
      let items = out ++ page.media_items
      let rest = list_pages fuel ctx user_id session_id items page.next_page_token
      branch (page.next_page_token == "") (pure (some items)) rest

    -- `listSessionMediaItems`
    unfoldable pub list_session_media_items :
        ℕ → Context X → String → String → Exec (T × X) (Option (List MediaItem))
    unfolding list_pages
    list_session_media_items fuel ctx user_id session_id =
        list_pages fuel ctx user_id session_id [] ""

    -- `deletePickerSession`
    unfoldable pub delete_picker_session : Context X → String → String → Exec (T × X) (Unit {0})
    unfolding google_json
    delete_picker_session ctx user_id session_id =
        google_json (λ body. ok tt) ctx user_id "DELETE"
          (join api_base (join "/sessions/" session_id)) none

  -- `downloadMediaItem` once the bytes are read.
  unfoldable pub check_bytes : ℤ → ℤ → MediaItem → List ℕ → Result DownloadedPhoto
  check_bytes max_bytes max_decoded item bytes =
      if ltb_ℤ max_bytes (pos (length bytes))
      then err (sentinel download_too_big)
      else if ltb_ℤ (pos 0) max_decoded && exceeds max_decoded (readers.dimensions bytes)
      then err (sentinel photo_too_large)
      else ok (photo_of item bytes)

  -- `downloadMediaItem` once there is a response.
  unfoldable pub read_photo : ℤ → ℤ → MediaItem → Body → Result DownloadedPhoto
  read_photo max_bytes max_decoded item body = elim (read_limited (increment max_bytes) body) [
    | err e ↦ err (wrap "read body" e)
    | ok bytes ↦ check_bytes max_bytes max_decoded item bytes
  ]

  -- `downloadMediaItem`
  unfoldable pub download_media_item :
      {T X : Type 0}
      → HttpClient X
      → Authorizer T X
      → Context X
      → String
      → MediaItem
      → ℤ
      → ℤ
      → Exec (T × X) DownloadedPhoto
  unfolding google_request read_photo read_limited check_bytes increment
  download_media_item hc auth ctx user_id item max_bytes max_decoded = do
    resp ←
        wrapping (wrap "download")
          (google_request hc auth ctx user_id "GET" (join item.media_file.base_url "=d") none)
    lift (read_photo max_bytes max_decoded item resp.body)
