-- ===== src/Handlers/Limits.antt =====
-- `decodeStartImportMetadata`: which metadata reaches an import.
use google_photos_picker.Base.{
  ℕ, ◌+◌, ◌-◌, ◌^◌, ◌≤◌, ◌<◌, ◌≡◌, ◌≢◌, ◌↔◌, refl, none, some, List, [], ◌∷◌, length, take,
  length-take, String, StringMap, Option-cases, Bool-cases, inl, inr, ltb, tests, pos, increment,
  increment_pos, arith,
}
use google_photos_picker.Errors.{other}
use google_photos_picker.Exec.{Result, ok, err, Result-cases}
use google_photos_picker.Stores.{Metadata}
use google_photos_picker.Http.{Body, read_limited}
use google_photos_picker.Handlers.{decode_metadata, start_import_metadata}

module _ (envelope : List ℕ → Result Metadata) (n keys : ℕ) where
  decode_long :
      (bytes : List ℕ) (m : StringMap String)
      → n < length bytes
      → decode_metadata envelope (pos n) (pos keys) bytes ≢ ok (some m)
  unfolding decode_metadata
  decode_long [] m h e = absurd (omega arith)
  decode_long (b ∷ bytes) m h e = absurd (ground arith)

  decode_short_iff :
      (bytes : List ℕ) (m : StringMap String)
      → length bytes ≤ n
      → (decode_metadata envelope (pos n) (pos keys) bytes ≡ ok (some m))
        ↔ ((bytes ≢ []) × (envelope bytes ≡ ok (some m)) × (length m ≤ keys))
  unfolding decode_metadata
  decode_short_iff [] m h = (λ e. absurd (ground arith), λ (ne, _, _). absurd (ne refl))
  decode_short_iff (b ∷ bytes) m h = elim (Result-cases (envelope (b ∷ bytes))) [
    | inr (e, bad) ↦ (λ g. absurd (ground arith), λ (_, g, _). absurd (ground arith))
    | inl (none, good) ↦ (λ g. absurd (ground arith), λ (_, g, _). absurd (ground arith))
    | inl (some m', good) ↦ (
      λ g. (λ ne. absurd (ground arith), ground arith, ground arith),
      λ (_, g, few). ground arith,
    )
  ]

  module _ (body : Body) (m : StringMap String) (small : n < 2 ^ 63 - 1) where
    metadata_long :
        n < length body.bytes
        → start_import_metadata envelope (pos n) (pos keys) (some body) ≢ ok (some m)
    unfolding start_import_metadata
    metadata_long big =
        let reads : read_limited (increment (pos n)) body ≡ ok (take (n + 1) body.bytes) =
          rw (increment_pos n small) (unfold read_limited in ground arith) in
        rw (reads, start_import_metadata)
          (decode_long (take (n + 1) body.bytes) m (omega (arith, length-take (n + 1) body.bytes)))

    metadata_whole_iff :
        length body.bytes ≤ n
        → body.broken ≡ none
        → (start_import_metadata envelope (pos n) (pos keys) (some body) ≡ ok (some m))
          ↔ ((body.bytes ≢ []) × (envelope body.bytes ≡ ok (some m)) × (length m ≤ keys))
    unfolding start_import_metadata
    metadata_whole_iff fits whole =
        let reads : read_limited (increment (pos n)) body ≡ ok body.bytes =
          rw (increment_pos n small) (unfold read_limited in ground arith) in
        rw (reads, start_import_metadata) (decode_short_iff body.bytes m fits)

    metadata_broken :
        (text : String)
        → length body.bytes ≤ n
        → body.broken ≡ some text
        → start_import_metadata envelope (pos n) (pos keys) (some body) ≡ err (other text)
    unfolding start_import_metadata
    metadata_broken text fits broken =
        let reads : read_limited (increment (pos n)) body ≡ err (other text) =
          rw (increment_pos n small) (unfold read_limited in ground arith) in
        rw (reads, start_import_metadata) refl

    -- With caps of n bytes (below the largest int64) and so many keys, a request's body gives an import
    -- the metadata m exactly when it was read to its end without an error, is not empty, is no longer
    -- than n, decodes to m, and m has no more keys than the cap.
    pub start_import_metadata_iff :
        (start_import_metadata envelope (pos n) (pos keys) (some body) ≡ ok (some m)) ↔ (
          (length body.bytes ≤ n)
          × (body.broken ≡ none)
          × (body.bytes ≢ [])
          × (envelope body.bytes ≡ ok (some m))
          × (length m ≤ keys))
    start_import_metadata_iff = elim (Bool-cases (ltb n (length body.bytes))) [
      | inl big ↦
          (λ e. absurd (metadata_long (omega tests) e), λ (fits, _, _, _, _). absurd (omega tests))
      | inr fits ↦ elim (Option-cases body.broken) [
        | inl whole ↦
            let (to, from) = metadata_whole_iff (omega tests) whole in
            (
              λ e. let (ne, dec, few) = to e in (omega tests, whole, ne, dec, few),
              λ (_, _, ne, dec, few). from (ne, dec, few),
            )
        | inr (text, broken) ↦ (
          λ e. absurd (cc (metadata_broken text (omega tests) broken, e)),
          λ (_, whole, _, _, _). cc (whole, broken),
        )
      ]
    ]
