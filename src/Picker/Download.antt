-- ===== src/Picker/Download.antt =====
-- `downloadMediaItem` (picker.go): the two caps, and the int64 arithmetic of them.
use google_photos_picker.Base.{
  ℕ, ◌+◌, ◌-◌, ◌*◌, ◌^◌, ◌≤◌, ◌<◌, ◌≡◌, ◌↔◌, ◌⊎◌, inl, inr, ◌∙◌, sym, false, ◌&&◌, Option, none,
  some, List, [], length, take, length-take, String, Option-cases, Bool-cases, ltb, tests, ℤ, pos,
  negsuc, ltb_ℤ, to_int64, increment, increment_pos, increment_max, arith,
}
use google_photos_picker.Errors.{other, sentinel, download_too_big, wrap}
use google_photos_picker.Exec.{ok, err}
use google_photos_picker.Http.{Body, read_limited, read_to_end}
use google_photos_picker.Sink.{DownloadedPhoto}
use google_photos_picker.Picker.{MediaItem, Readers, photo_of, check_bytes, read_photo, exceeds}

-- The pixel buffer of an image of these dimensions is within the cap, if there is a cap.
abbrev pub FitsDecoded : ℤ → Option (ℕ × ℕ) → Type 0
FitsDecoded max_decoded none = Unit
FitsDecoded (negsuc n) (some d) = Unit
FitsDecoded (pos n) (some (width, height)) = (n ≡ 0) ⊎ (width * height * 4 ≤ n)

-- A pixel buffer that an int64 can count, or no image.
abbrev pub IsCountable : Option (ℕ × ℕ) → Type 0
IsCountable none = Unit
IsCountable (some (width, height)) = width * height * 4 < 2 ^ 63

to_int64_small : (n : ℕ) → n < 2 ^ 63 → to_int64 n ≡ pos n
to_int64_small n h = ground arith

not_exceeds_iff :
    (max_decoded : ℤ) (d : Option (ℕ × ℕ))
    → IsCountable d
    → ((ltb_ℤ (pos 0) max_decoded && exceeds max_decoded d) ≡ false) ↔ FitsDecoded max_decoded d
not_exceeds_iff (pos n) none c = (λ h. tt, λ h. ground arith)
not_exceeds_iff (negsuc n) none c = (λ h. tt, λ h. ground arith)
not_exceeds_iff (negsuc n) (some (w, h)) c = (λ _. tt, λ _. ground arith)
not_exceeds_iff (pos n) (some (w, h)) c =
    rw (to_int64_small (w * h * 4) c) (λ e. ground arith, λ f. ground arith)

module _ (readers : Readers) (item : MediaItem) where
  check_bytes_iff :
      (n : ℕ) (max_decoded : ℤ) (bytes : List ℕ) (photo : DownloadedPhoto)
      → IsCountable (readers.dimensions bytes)
      → (check_bytes readers (pos n) max_decoded item bytes ≡ ok photo) ↔ (
          (length bytes ≤ n)
          × FitsDecoded max_decoded (readers.dimensions bytes)
          × (photo_of item bytes ≡ photo))
  unfolding check_bytes
  check_bytes_iff n max_decoded bytes photo c =
      let (fits, refuses) = not_exceeds_iff max_decoded (readers.dimensions bytes) c in
      (
        λ e. (ground arith, fits (ground arith), ground arith),
        λ (small, f, same). ground (arith, refuses f),
      )

  -- The two ways for the limited read to go.
  read_photo_long :
      (n : ℕ) (max_decoded : ℤ) (body : Body)
      → n < 2 ^ 63 - 1
      → n < length body.bytes
      → read_photo readers (pos n) max_decoded item body
        ≡ check_bytes readers (pos n) max_decoded item (take (n + 1) body.bytes)
  unfolding read_photo
  read_photo_long n max_decoded body h big =
      let reads : read_limited (increment (pos n)) body ≡ ok (take (n + 1) body.bytes) =
        rw (increment_pos n h) (unfold read_limited in ground arith) in
      rw (reads, read_photo)

  module _ (n : ℕ) (max_decoded : ℤ) (body : Body) (h : n < 2 ^ 63 - 1)
      (small : length body.bytes ≤ n) where
    ends : read_limited (increment (pos n)) body ≡ read_to_end body
    unfolding read_limited
    ends = rw (increment_pos n h) (ground arith)

    read_photo_whole :
        body.broken ≡ none
        → read_photo readers (pos n) max_decoded item body
          ≡ check_bytes readers (pos n) max_decoded item body.bytes
    unfolding read_photo
    read_photo_whole whole =
        let read : read_limited (increment (pos n)) body ≡ ok body.bytes = ends ∙ rw whole in
        rw (read, read_photo)

    read_photo_broken :
        (text : String)
        → body.broken ≡ some text
        → read_photo readers (pos n) max_decoded item body ≡ err (wrap "read body" (other text))
    unfolding read_photo
    read_photo_broken text broken =
        let read : read_limited (increment (pos n)) body ≡ err (other text) = ends ∙ rw broken in
        rw (read, read_photo)

  -- With a cap of n bytes (below the largest int64), a body that is longer than the cap is refused as too
  -- big, whatever follows its first n + 1 bytes.
  pub read_photo_too_big :
      (n : ℕ) (max_decoded : ℤ) (body : Body)
      → n < 2 ^ 63 - 1
      → n < length body.bytes
      → read_photo readers (pos n) max_decoded item body ≡ err (sentinel download_too_big)
  unfolding check_bytes
  read_photo_too_big n max_decoded body h big =
      rw (read_photo_long n max_decoded body h big) (ground (arith, length-take (n + 1) body.bytes))

  -- With a cap of n bytes (below the largest int64) and an image whose pixels an int64 can count, a
  -- download succeeds exactly when the whole body was read without an error, is no longer than n, and
  -- decodes within the cap on pixels, if there is one; the photo then has the item's id, file
  -- name and type, exactly these bytes and their number, and no metadata yet.
  pub read_photo_iff :
      (n : ℕ) (max_decoded : ℤ) (body : Body) (photo : DownloadedPhoto)
      → n < 2 ^ 63 - 1
      → IsCountable (readers.dimensions body.bytes)
      → (read_photo readers (pos n) max_decoded item body ≡ ok photo) ↔ (
          (length body.bytes ≤ n)
          × (body.broken ≡ none)
          × FitsDecoded max_decoded (readers.dimensions body.bytes)
          × (photo ≡ record {
            google_media_id = item.id;
            filename = item.media_file.filename;
            mime_type = item.media_file.mime_type;
            size = length body.bytes;
            bytes = body.bytes;
            job_metadata = none;
          }))
  read_photo_iff n max_decoded body photo h c = elim (Bool-cases (ltb n (length body.bytes))) [
    | inl big ↦
        rw (read_photo_too_big n max_decoded body h (omega tests))
          (λ e. cc, λ (small, whole, f, same). absurd (omega tests))
    | inr small ↦ elim (Option-cases body.broken) [
      | inl whole ↦ rw (read_photo_whole n max_decoded body h (omega tests) whole) (
          let (to, from) = check_bytes_iff n max_decoded body.bytes photo c in
          (
            λ e. let (fits, f, same) = to e in (fits, whole, f, sym same),
            λ (fits, _, f, same). from (fits, f, sym same),
          ))
      | inr (text, broken) ↦
          rw (read_photo_broken n max_decoded body h (omega tests) text broken)
            (λ e. cc, λ (_, whole, _, _). cc (whole, broken))
    ]
  ]

  -- With the largest int64 for a cap, `maxBytes+1` wraps to the smallest, nothing of the body is read, and
  -- what the sink is handed is an empty photo, however long the body is; that is, if no image format
  -- reads dimensions from no bytes.
  pub read_photo_max_cap :
      (max_decoded : ℤ) (body : Body)
      → readers.dimensions [] ≡ none
      → read_photo readers (pos (2 ^ 63 - 1)) max_decoded item body ≡ ok (photo_of item [])
  unfolding read_photo check_bytes read_limited
  read_photo_max_cap max_decoded body none_read =
      let reads : read_limited (increment (pos (2 ^ 63 - 1))) body ≡ ok [] =
        rw increment_max (ground arith) in
      rw (reads, read_photo) (ground (arith, none_read))
