-- ===== src/Picker/Effects.antt =====
-- What the calls of picker.go do to the token store: nothing but what the authorizer does.
use google_photos_picker.Base.{
  ℕ, zero, suc, String, Option, none, some, List, [], ℤ, Bool, true, false, ◌≡◌, refl,
}
use google_photos_picker.Exec.{Result, Context}
use google_photos_picker.Exec.Invariants.{
  Keeps, OnStore, pure-Keeps, lift-Keeps, wrapping-Keeps, branch-Keeps, outside-Keeps, bind-Keeps,
}
use google_photos_picker.Http.{Body, Response, HttpClient, is_failure}
use google_photos_picker.Picker.{
  Authorizer, MediaItem, Readers, page_url, authorized, accept, well_formed, google_request,
  google_json, fetch_page, list_pages, list_session_media_items, delete_picker_session,
  download_media_item,
}

module _ {ℓ} {T X : Type 0} (P : T → Type ℓ) (readers : Readers) (hc : HttpClient X)
    (auth : Authorizer T X) (ctx : Context X) (user_id : String)
    (keep : Keeps (OnStore P) (auth ctx user_id)) where
  well_formed-Keeps :
      (method url : String) → Keeps (OnStore {X = X} P) (well_formed readers method url)
  well_formed-Keeps method url = record {
    at = λ w p. go w p (readers.request_error method url) refl;
  }
    where
      go :
          (w : T × X)
          → P w.0
          → (r : Option String) → readers.request_error method url ≡ r
          → P (well_formed readers method url w).1.0
      go w p none e = rw (e, well_formed) p
      go w p (some t) e = rw (e, well_formed) p

  accept-Keeps :
      (method url : String) (resp : Response)
      → Keeps (OnStore {X = X} P) (accept readers method url resp)
  accept-Keeps method url resp = record { at = λ w p. go w p (is_failure resp) refl }
    where
      go :
          (w : T × X)
          → P w.0
          → (b : Bool) → is_failure resp ≡ b
          → P (accept readers method url resp w).1.0
      go w p true e = rw (e, accept) p
      go w p false e = rw (e, accept) p

  pub google_request-Keeps :
      (method url : String) (body : Option String)
      → Keeps (OnStore P) (google_request readers hc auth ctx user_id method url body)
  unfolding google_request
  google_request-Keeps method url body = bind-Keeps _ keep λ access.
      bind-Keeps _ (well_formed-Keeps method url) λ _.
        bind-Keeps _ (outside-Keeps P (hc.do_request ctx (authorized access method url body)))
          λ resp. accept-Keeps method url resp

  pub google_json-Keeps :
      {A : Type 0} (read : Body → Result A) (method url : String) (body : Option String)
      → Keeps (OnStore P) (google_json readers hc auth read ctx user_id method url body)
  unfolding google_json
  google_json-Keeps read method url body =
      bind-Keeps _ (google_request-Keeps method url body) λ resp. lift-Keeps _ _

  list_pages-Keeps :
      (fuel : ℕ) (session_id : String) (out : List MediaItem) (token : String)
      → Keeps (OnStore P) (list_pages readers hc auth fuel ctx user_id session_id out token)
  unfolding list_pages fetch_page
  list_pages-Keeps zero session_id out token = pure-Keeps _ _
  list_pages-Keeps (suc fuel) session_id out token =
      bind-Keeps _ (google_json-Keeps readers.page "GET" (page_url session_id token) none)
        λ page. branch-Keeps _ _ _ _ (pure-Keeps _ _) (list_pages-Keeps fuel session_id _ _)

  pub list_session_media_items-Keeps :
      (fuel : ℕ) (session_id : String)
      → Keeps (OnStore P) (list_session_media_items readers hc auth fuel ctx user_id session_id)
  unfolding list_session_media_items
  list_session_media_items-Keeps fuel session_id = list_pages-Keeps fuel session_id [] ""

  pub delete_picker_session-Keeps :
      (session_id : String)
      → Keeps (OnStore P) (delete_picker_session readers hc auth ctx user_id session_id)
  unfolding delete_picker_session
  delete_picker_session-Keeps session_id = google_json-Keeps _ "DELETE" _ none

  pub download_media_item-Keeps :
      (item : MediaItem) (max_bytes max_decoded : ℤ)
      → Keeps
          (OnStore P)
          (download_media_item readers hc auth ctx user_id item max_bytes max_decoded)
  unfolding download_media_item
  download_media_item-Keeps item max_bytes max_decoded =
      bind-Keeps _ (wrapping-Keeps _ _ (google_request-Keeps "GET" _ none)) λ resp. lift-Keeps _ _
