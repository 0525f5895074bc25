-- ===== src/Picker/Tests.antt =====
-- The theorems of the transport, the listing and the download, and runs of these, in the toy world.
use google_photos_picker.Base.{
  ℕ, ◌+◌, ◌≡◌, ◌≢◌, inr, refl, List, [], ◌∷◌, some, none, second, pos, arith, ◌^◌, ◌-◌,
}
use google_photos_picker.Errors.{other}
use google_photos_picker.Exec.{ok}
use google_photos_picker.System.{with_timeout}
use google_photos_picker.Http.{Response, Body}
use google_photos_picker.Http.Query.{encode_values}
use google_photos_picker.Cryptobox.Toy.{clockwork}
use google_photos_picker.Picker.{
  Authorizer, MediaItem, Readers, google_request, list_session_media_items, read_photo, photo_of,
}
use google_photos_picker.Picker.Listing.{Chain, list_session_media_items_iff}
use google_photos_picker.Picker.Ending.{TakesTime, list_session_media_items_ends}
use google_photos_picker.Picker.Download.{read_photo_iff, read_photo_max_cap}
use google_photos_picker.Toy.{background, item, toy_readers, toy_http}

abbrev toy_auth : Authorizer (Unit {0}) ℕ
toy_auth ctx user_id w = (ok "ya29", w)

abbrev items : List MediaItem
items = item "a" ∷ item "b" ∷ item "c" ∷ []

listed :
    list_session_media_items toy_readers toy_http toy_auth 2 background "alice" "s1" (tt, 1)
    ≡ (ok (some items), (tt, 1 + second + second))
unfolding list_session_media_items encode_values
listed = refl

-- With fuel for one page only, the listing of two pages does not end.
listed_short :
    (list_session_media_items toy_readers toy_http toy_auth 1 background "alice" "s1" (tt, 1)).0
    ≡ ok none
unfolding list_session_media_items encode_values
listed_short = refl

list_session_media_items_iff_example :
    Chain toy_readers toy_http toy_auth background "alice" "s1" ""
      (tt, 1)
      items
      (tt, 1 + second + second)
list_session_media_items_iff_example =
    (list_session_media_items_iff toy_readers toy_http toy_auth background "alice" "s1" (tt, 1)
        (tt, 1 + second + second) items).0
      (2, listed)

toy_TakesTime : TakesTime clockwork toy_http toy_auth
unfolding clockwork
toy_TakesTime = record {
  done_fails = λ ctx req x text h. (other text, ground arith);
  request_takes = λ ctx req x. ground arith;
  auth_takes = λ ctx user_id w. ground arith;
}

-- A session of two pages, with fuel for a deadline five nanoseconds away.
list_session_media_items_ends_example :
    (list_session_media_items toy_readers toy_http toy_auth 7
      (with_timeout clockwork background 1 5)
      "alice"
      "s1"
      (tt, 1)).0
    ≢ ok none
list_session_media_items_ends_example =
    list_session_media_items_ends clockwork toy_readers toy_http toy_auth toy_TakesTime background 1
      5 "alice" "s1" 7 (tt, 1) (omega arith) (unfold clockwork in omega arith)

abbrev answered_page : Response
answered_page = record { status = 200; body = record { bytes = 1 ∷ []; broken = none } }

-- An item that is missing at Google is an error.
missing_item :
    (google_request toy_readers toy_http toy_auth background "alice" "GET" "b=d" none (tt, 1)).0
    ≢ ok answered_page
unfolding google_request encode_values
missing_item h = ground arith

abbrev photo_body : Body
photo_body = record { bytes = 7 ∷ 8 ∷ 9 ∷ []; broken = none }

read_photo_iff_example :
    read_photo toy_readers (pos 3) (pos 24) (item "a") photo_body
    ≡ ok (photo_of (item "a") (7 ∷ 8 ∷ 9 ∷ []))
read_photo_iff_example =
    (read_photo_iff toy_readers (item "a") 3 (pos 24) photo_body
        (photo_of (item "a") (7 ∷ 8 ∷ 9 ∷ [])) (omega arith) (omega arith)).1
      (omega arith, refl, inr (omega arith), refl)

-- Readers to which no bytes are no image, and any others a very large one.
abbrev large_readers : Readers
large_readers = record toy_readers {
  dimensions = λ bytes. elim bytes [ [] ↦ none | _ ∷ _ ↦ some (2 ^ 31 - 1, 2 ^ 31 - 1) ];
}

read_photo_max_cap_example :
    read_photo large_readers (pos (2 ^ 63 - 1)) (pos 24) (item "a") photo_body
    ≡ ok (photo_of (item "a") [])
read_photo_max_cap_example = read_photo_max_cap large_readers (item "a") (pos 24) photo_body refl
