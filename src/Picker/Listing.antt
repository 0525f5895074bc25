-- ===== src/Picker/Listing.antt =====
-- `listSessionMediaItems` against its specification: the chain of a session's pages.
use mathlib.Core.Bool.{false≢true}
use mathlib.Core.List.{append_assoc}
use google_photos_picker.Base.{
  ℕ, zero, suc, String, ◌≡◌, ◌≢◌, ◌↔◌, refl, sym, ◌∙◌, subst, false, Option, none, some, List, [],
  ◌++◌, ◌==◌, eq_iff, Bool-cases, inl, inr, arith,
}
use google_photos_picker.Errors.{Error}
use google_photos_picker.Exec.{ok, err, Exec, Context, Result-cases, with_state}
use google_photos_picker.Http.{HttpClient}
use google_photos_picker.Picker.{
  Authorizer, MediaItem, ListMediaItemsResponse, Readers, fetch_page, list_pages,
  list_session_media_items,
}

pub ne_test : (s : String) → s ≢ "" → (s == "") ≡ false
ne_test s h = ground (arith, eq_iff s "")

module _ (readers : Readers) {T X : Type 0} (hc : HttpClient X) (auth : Authorizer T X)
    (ctx : Context X) (user_id session_id : String) where
  abbrev pub fetch : String → Exec (T × X) ListMediaItemsResponse
  fetch = fetch_page readers hc auth ctx user_id session_id

  abbrev pub pages : ℕ → List MediaItem → String → Exec (T × X) (Option (List MediaItem))
  pages fuel out token = list_pages readers hc auth fuel ctx user_id session_id out token

  -- From the page of this token on, fetched one after the other, the session has these items, and the
  -- world is then the last one. The page with no next token is the last.
  pub data Chain : String → T × X → List MediaItem → T × X → Type 0 where
    last :
        {token : String} {w w' : T × X} {items : List MediaItem} (page : ListMediaItemsResponse)
        → fetch token w ≡ (ok page, w')
        → page.next_page_token ≡ ""
        → items ≡ page.media_items
        → Chain token w items w'
    more :
        {token : String} {w w' : T × X} {items : List MediaItem} (page : ListMediaItemsResponse)
        (v : T × X) (rest : List MediaItem)
        → fetch token w ≡ (ok page, v)
        → page.next_page_token ≢ ""
        → Chain page.next_page_token v rest w'
        → items ≡ page.media_items ++ rest
        → Chain token w items w'

  pub pages_zero :
      (out : List MediaItem) (token : String) (w : T × X) → pages 0 out token w ≡ (ok none, w)
  unfolding list_pages
  pages_zero out token w = refl

  -- One round.
  module _ (fuel : ℕ) (out : List MediaItem) (token : String) (w v : T × X) where
    pub pages_last :
        (page : ListMediaItemsResponse)
        → fetch token w ≡ (ok page, v)
        → page.next_page_token ≡ ""
        → pages (suc fuel) out token w ≡ (ok (some (out ++ page.media_items)), v)
    unfolding list_pages
    pages_last page e done = rw (e, (eq_iff _ _).1 done)

    pub pages_more :
        (page : ListMediaItemsResponse)
        → fetch token w ≡ (ok page, v)
        → page.next_page_token ≢ ""
        → pages (suc fuel) out token w ≡ pages fuel (out ++ page.media_items) page.next_page_token v
    unfolding list_pages
    pages_more page e next = rw (e, ne_test _ next)

    pub pages_err :
        (e : Error) → fetch token w ≡ (err e, v) → pages (suc fuel) out token w ≡ (err e, v)
    unfolding list_pages
    pages_err e failed = rw failed

  -- The loop gives what the chain has, behind what was there already.
  pages_complete :
      (token : String) (w w' : T × X) (items out : List MediaItem)
      → Chain token w items w'
      → (fuel : ℕ) × (pages fuel out token w ≡ (ok (some (out ++ items)), w'))
  pages_complete token w w' items out (last page e done same) =
      (1, pages_last 0 out token w w' page e done ∙ rw same)
  pages_complete token w w' items out (more page v rest e next chain same) =
      let (fuel, ih) =
        pages_complete page.next_page_token v w' rest (out ++ page.media_items) chain in
      (suc fuel, pages_more fuel out token w v page e next ∙ ih ∙ rw (same, append_assoc))

  pages_sound :
      (fuel : ℕ) (out : List MediaItem) (token : String) (w w' : T × X) (all : List MediaItem)
      → pages fuel out token w ≡ (ok (some all), w')
      → (items : List MediaItem) × (all ≡ out ++ items) × Chain token w items w'
  pages_sound zero out token w w' all h = cc (h, pages_zero out token w)
  pages_sound (suc fuel) out token w w' all h = elim (Result-cases (fetch token w).0) [
    | inr (e, failed) ↦ cc (
      h,
      pages_err fuel out token w (fetch token w).1 e (with_state (fetch token w) (err e) failed),
    )
    | inl (page, found) ↦
        let v = (fetch token w).1 in
        let e = with_state (fetch token w) (ok page) found in
        elim (Bool-cases (page.next_page_token == "")) [
          | inl done ↦
              let ended = pages_last fuel out token w v page e ((eq_iff _ _).0 done) in
              (
                page.media_items,
                cc (h, ended),
                last page (cc (h, ended, e)) ((eq_iff _ _).0 done) refl,
              )
          | inr next ↦
              let unfinished =
                λ (same : page.next_page_token ≡ ""). false≢true (sym next ∙ (eq_iff _ _).1 same) in
              let went = pages_more fuel out token w v page e unfinished in
              let (rest, listed, chain) =
                pages_sound fuel (out ++ page.media_items) page.next_page_token v w' all
                  (sym went ∙ h) in
              (
                page.media_items ++ rest,
                listed ∙ rw append_assoc,
                more page v rest e unfinished chain refl,
              )
        ]
  ]

  -- The listing returns these items, with fuel for it, exactly when they are those of the chain of pages
  -- that begins with no token: each page once, in order, to the first one with no next token.
  pub list_session_media_items_iff :
      (w w' : T × X) (items : List MediaItem)
      → ((fuel : ℕ) × (list_session_media_items readers hc auth fuel ctx user_id session_id w
            ≡ (ok (some items), w')))
        ↔ Chain "" w items w'
  unfolding list_session_media_items
  list_session_media_items_iff w w' items = (
    λ (fuel, h).
        let (found, same, chain) = pages_sound fuel [] "" w w' items h in
        subst (λ l. Chain "" w l w') (sym same) chain,
    λ chain. pages_complete "" w w' items [] chain,
  )
