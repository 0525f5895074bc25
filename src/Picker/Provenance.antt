-- ===== src/Picker/Provenance.antt =====
-- What a photo that was downloaded (picker.go) says of itself: it is the item's, with some bytes.
use Prim.Native.String.{◌++◌ as join}
use google_photos_picker.Base.{
  ℕ, String, ◌≡◌, refl, sym, ◌∙◌, Bool, true, false, ◌&&◌, none, List, length, ℤ, pos, ltb_ℤ,
  increment,
}
use google_photos_picker.Errors.{wrap, sentinel, download_too_big, photo_too_large}
use google_photos_picker.Exec.{Result, ok, err, Context, wrapping, lift}
use google_photos_picker.Exec.Inversion.{bind_ok, ok_inj, ok≢err}
use google_photos_picker.Http.{Body, HttpClient, Response, read_limited}
use google_photos_picker.Sink.{DownloadedPhoto}
use google_photos_picker.Picker.{
  Authorizer, MediaItem, Readers, photo_of, exceeds, check_bytes, read_photo, google_request,
  download_media_item,
}

module _ (readers : Readers) (item : MediaItem) (max_bytes max_decoded : ℤ)
    (photo : DownloadedPhoto) where
  check_bytes-photo_of :
      (bytes : List ℕ)
      → check_bytes readers max_bytes max_decoded item bytes ≡ ok photo
      → photo_of item bytes ≡ photo
  unfolding check_bytes
  check_bytes-photo_of bytes h =
      go (ltb_ℤ max_bytes (pos (length bytes))) refl
        (ltb_ℤ (pos 0) max_decoded && exceeds max_decoded (readers.dimensions bytes)) refl
    where
      go :
          (a : Bool)
          → ltb_ℤ max_bytes (pos (length bytes)) ≡ a
          → (b : Bool)
          → (ltb_ℤ (pos 0) max_decoded && exceeds max_decoded (readers.dimensions bytes)) ≡ b
          → photo_of item bytes ≡ photo
      go true e b f =
          let bad : check_bytes readers max_bytes max_decoded item bytes
              ≡ err (sentinel download_too_big) =
            rw (check_bytes, e) refl in
          absurd (ok≢err (sym h ∙ bad))
      go false e true f =
          let bad : check_bytes readers max_bytes max_decoded item bytes
              ≡ err (sentinel photo_too_large) =
            rw (check_bytes, e, f) refl in
          absurd (ok≢err (sym h ∙ bad))
      go false e false f =
          let made : check_bytes readers max_bytes max_decoded item bytes
              ≡ ok (photo_of item bytes) =
            rw (check_bytes, e, f) refl in
          ok_inj (sym made ∙ h)

  read_photo-photo_of :
      (body : Body)
      → read_photo readers max_bytes max_decoded item body ≡ ok photo
      → (bytes : List ℕ) × (photo_of item bytes ≡ photo)
  unfolding read_photo
  read_photo-photo_of body h = go (read_limited (increment max_bytes) body) refl
    where
      go :
          (r : Result (List ℕ))
          → read_limited (increment max_bytes) body ≡ r
          → (bytes : List ℕ) × (photo_of item bytes ≡ photo)
      go (ok bytes) e =
          let same : read_photo readers max_bytes max_decoded item body
              ≡ check_bytes readers max_bytes max_decoded item bytes =
            rw (read_photo, e) refl in
          (bytes, check_bytes-photo_of bytes (sym same ∙ h))
      go (err n) e =
          let bad : read_photo readers max_bytes max_decoded item body ≡ err (wrap "read body" n) =
            rw (read_photo, e) refl in
          absurd (ok≢err (sym h ∙ bad))

-- A download that succeeds gives a photo of its item, with the item's id, name and type.
pub download_media_item-photo_of :
    {T X : Type 0} (readers : Readers) (hc : HttpClient X) (auth : Authorizer T X) (ctx : Context X)
    (user_id : String) (item : MediaItem) (max_bytes max_decoded : ℤ) (w : T × X)
    (photo : DownloadedPhoto)
    → (download_media_item readers hc auth ctx user_id item max_bytes max_decoded w).0 ≡ ok photo
    → (bytes : List ℕ) × (photo_of item bytes ≡ photo)
unfolding download_media_item
download_media_item-photo_of {X = X} readers hc auth ctx user_id item max_bytes max_decoded w photo
      h =
    let (resp, _, read) =
      bind_ok
        (wrapping (wrap "download") (
          google_request readers hc auth ctx user_id "GET" (join item.media_file.base_url "=d")
            none))
        (λ (resp : Response). lift (read_photo readers max_bytes max_decoded item resp.body)) w
        photo h in
    read_photo-photo_of readers item max_bytes max_decoded photo resp.body read
