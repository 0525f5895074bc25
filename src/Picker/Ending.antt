-- ===== src/Picker/Ending.antt =====
-- The loop of `listSessionMediaItems` has no bound of its own: the server decides how many pages there
-- are. Here it meets the deadline of a job's context.
use google_photos_picker.Base.{
  ℕ, zero, suc, ◌+◌, ◌≤◌, ◌<◌, String, ◌≡◌, ◌≢◌, sym, ◌∙◌, ap, Option, none, some, List, [], ◌++◌,
  ◌==◌, eq_iff, Option-cases, Bool-cases, inl, inr, leb, arith,
}
use google_photos_picker.Errors.{Error}
use google_photos_picker.Exec.{Result, ok, err, Exec, Context, Result-cases, with_state}
use google_photos_picker.System.{System, with_timeout, deadline_exceeded}
use google_photos_picker.Http.{Request, Response, HttpClient}
use google_photos_picker.Picker.{
  Authorizer, MediaItem, ListMediaItemsResponse, Readers, fetch_page, authorized, page_url,
  list_pages, list_session_media_items,
}
use google_photos_picker.Picker.Transport.{google_json_ok}
use google_photos_picker.Picker.Listing.{pages_last, pages_more, pages_err}

-- What net/http documents of a context that is done, and that a call takes time: the clock of the
-- process never runs back, and moves on at least a nanosecond in a request.
pub record TakesTime {T X : Type 0} (sys : System X) (hc : HttpClient X) (auth : Authorizer T X)
    : Type 0 where
  pub done_fails :
      (ctx : Context X) (req : Request) (x : X) (text : String)
      → ctx x ≡ some text
      → (e : Error) × ((hc.do_request ctx req x).0 ≡ err e)
  pub request_takes :
      (ctx : Context X) (req : Request) (x : X) → sys.now x < sys.now (hc.do_request ctx req x).1
  pub auth_takes :
      (ctx : Context X) (user_id : String) (w : T × X)
      → sys.now w.1 ≤ sys.now (auth ctx user_id w).1.1

module _ {T X : Type 0} (sys : System X) (readers : Readers) (hc : HttpClient X)
    (auth : Authorizer T X) (time : TakesTime sys hc auth) (outer : Context X) (start timeout : ℕ)
    (user_id session_id : String) where
  abbrev ctx : Context X
  ctx = with_timeout sys outer start timeout

  abbrev fetch : String → Exec (T × X) ListMediaItemsResponse
  fetch = fetch_page readers hc auth ctx user_id session_id

  abbrev pages : ℕ → List MediaItem → String → Exec (T × X) (Option (List MediaItem))
  pages fuel out token = list_pages readers hc auth fuel ctx user_id session_id out token

  ctx-done : (x : X) → start + timeout ≤ sys.now x → (text : String) × (ctx x ≡ some text)
  unfolding with_timeout
  ctx-done x late = elim (Option-cases (outer x)) [
    | inl live ↦ (deadline_exceeded, ground arith)
    | inr (text, gone) ↦ (text, ground arith)
  ]

  -- A request that is answered was sent before the deadline.
  in_time :
      (req : Request) (x : X) (resp : Response)
      → (hc.do_request ctx req x).0 ≡ ok resp
      → sys.now x < start + timeout
  in_time req x resp came = elim (Bool-cases (leb (start + timeout) (sys.now x))) [
    | inl late ↦
        let (text, done) = ctx-done x (ground arith) in
        let (e, failed) = time.done_fails ctx req x text done in cc (came, failed)
    | inr early ↦ ground arith
  ]

  -- A page that arrives was asked for before the deadline, and took time.
  fetch_takes :
      (token : String) (w v : T × X) (page : ListMediaItemsResponse)
      → fetch token w ≡ (ok page, v)
      → (sys.now w.1 < start + timeout) × (sys.now w.1 < sys.now v.1)
  unfolding fetch_page
  fetch_takes token w v page h =
      let (resp, a, _) =
        google_json_ok readers hc auth ctx user_id "GET" (page_url session_id token) none
          readers.page w page v h in
      let req = authorized a.access "GET" (page_url session_id token) none in
      let x = (auth ctx user_id w).1.1 in
      let early = in_time req x resp a.answered in
      let moved : sys.now v.1 ≡ sys.now (hc.do_request ctx req x).1 =
        ap (λ (u : T × X). sys.now u.1) a.world_eq in
      omega (arith, early, moved, time.auth_takes ctx user_id w, time.request_takes ctx req x)

  pages-ne-none :
      (fuel : ℕ) (out : List MediaItem) (token : String) (w : T × X)
      → 0 < fuel
      → start + timeout < sys.now w.1 + fuel
      → (pages fuel out token w).0 ≢ ok none
  pages-ne-none zero out token w some_fuel enough h = absurd (omega arith)
  pages-ne-none (suc fuel) out token w some_fuel enough h = elim (Result-cases (fetch token w).0) [
    | inr (e, failed) ↦
        let ended =
          pages_err readers hc auth ctx user_id session_id fuel out token w (fetch token w).1 e
            (with_state (fetch token w) (err e) failed) in
        let same : err e ≡ ok none =
          sym (ap (λ (o : Result (Option (List MediaItem)) × (T × X)). o.0) ended) ∙ h in
        cc same
    | inl (page, found) ↦
        let v = (fetch token w).1 in
        let e = with_state (fetch token w) (ok page) found in
        elim (Bool-cases (page.next_page_token == "")) [
          | inl done ↦
              let ended =
                pages_last readers hc auth ctx user_id session_id fuel out token w v page e
                  ((eq_iff _ _).0 done) in
              let same : ok (some (out ++ page.media_items)) ≡ ok none =
                sym (ap (λ (o : Result (Option (List MediaItem)) × (T × X)). o.0) ended) ∙ h in
              cc same
          | inr next ↦
              let takes = fetch_takes token w v page e in
              let went =
                pages_more readers hc auth ctx user_id session_id fuel out token w v page e
                  (λ same. cc (next, (eq_iff _ _).1 same)) in
              pages-ne-none fuel (out ++ page.media_items) page.next_page_token v
                (omega (arith, takes)) (omega (arith, takes))
                (sym (ap (λ (o : Result (Option (List MediaItem)) × (T × X)). o.0) went) ∙ h)
        ]
  ]

  -- Where each request takes time and fails under a context that is done: under a context with a deadline,
  -- the listing ends with more fuel than there are nanoseconds to the deadline: it returns the items or an
  -- error, whatever pages the server sends, and even if it never sends a last one.
  pub list_session_media_items_ends :
      (fuel : ℕ) (w : T × X)
      → 0 < fuel
      → start + timeout < sys.now w.1 + fuel
      → (list_session_media_items readers hc auth fuel ctx user_id session_id w).0 ≢ ok none
  unfolding list_session_media_items
  list_session_media_items_ends fuel w some_fuel enough =
      pages-ne-none fuel [] "" w some_fuel enough
