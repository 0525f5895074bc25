-- ===== src/Handlers/Imports.antt =====
-- The handlers of imports and of picker sessions: their status codes, and whose jobs they show.
use google_photos_picker.Base.{
  Bool-cases, Option-cases, lt→ltb, ℕ, String, ◌≡◌, ◌≢◌, ◌↔◌, refl, sym, ap, subst, true, some,
  List, inl, inr, lookup, ◌==◌, ℤ, pos, negsuc, suc, arith,
}
use google_photos_picker.Errors.{Error, not_connected, job_not_found, is}
use google_photos_picker.Exec.{Result, ok, err, Result-cases}
use google_photos_picker.System.{System}
use google_photos_picker.Stores.{ImportStore, Metadata}
use google_photos_picker.OAuth.{Oauth2}
use google_photos_picker.Picker.{Readers}
use google_photos_picker.Client.{World, create_picker_session, get_import, start_import}
use google_photos_picker.Postgres.Database.{Database}
use google_photos_picker.Postgres.Imports.{ImportTable, ImportRow, pg_import_store, get}
use google_photos_picker.Postgres.Imports.Reading.{get_other}
use google_photos_picker.Handlers.{
  Incoming, Reply, failure, json, no_content, page, Handlers, HandlersConfig, new_handlers,
  positive_or, default_max_metadata_bytes, default_max_metadata_keys, reply_to, post_import,
  get_import_status, google_error, create_session, start_import_metadata,
}

-- The status of the reply.
unfoldable pub code_of : Reply → ℕ
code_of (failure code _) = code
code_of (json _) = 200
code_of no_content = 204
code_of (page _ _) = 200

pub data IsPositive : ℤ → Type 0 where
  positive : (n : ℕ) → IsPositive (pos (suc n))

positive_or-IsPositive : (n d : ℤ) → IsPositive d → IsPositive (positive_or n d)
positive_or-IsPositive (pos ℕ.zero) d h = h
positive_or-IsPositive (pos (suc n)) d h = rw (lt→ltb 0 (suc n) (omega arith)) (positive n)
positive_or-IsPositive (negsuc n) d h = h

-- The handlers that `NewHandlers` gives have positive caps on metadata, whatever was configured.
pub new_handlers-IsPositive :
    {T J X : Type 0} (cfg : HandlersConfig T J X) (h : Handlers T J X)
    → new_handlers cfg ≡ ok h
    → IsPositive h.max_metadata_bytes × IsPositive h.max_metadata_keys
unfolding new_handlers
new_handlers-IsPositive cfg h made = elim (Option-cases cfg.client) [
  | inl missing ↦ absurd (ground arith)
  | inr (client, given) ↦ elim (Bool-cases cfg.resolves) [
    | inr missing ↦ absurd (ground arith)
    | inl known ↦
        let bytes_eq : h.max_metadata_bytes
            ≡ positive_or cfg.max_metadata_bytes default_max_metadata_bytes =
          ground arith in
        let keys_eq : h.max_metadata_keys
            ≡ positive_or cfg.max_metadata_keys default_max_metadata_keys =
          ground arith in
        (
          subst IsPositive (sym bytes_eq) (
              positive_or-IsPositive cfg.max_metadata_bytes default_max_metadata_bytes
                (positive 4095)),
          subst IsPositive (sym keys_eq) (
              positive_or-IsPositive cfg.max_metadata_keys default_max_metadata_keys (positive 31)),
        )
  ]
]

-- Which Google errors a handler answers with 428.
google_error-428_iff : (e : Error) → (code_of (google_error e) ≡ 428) ↔ (is e not_connected ≡ true)
unfolding google_error code_of
google_error-428_iff e = (λ h. ground arith, λ h. ground arith)

module _ {T J X : Type 0} (sys : System X) (lib : Oauth2 X) (readers : Readers)
    (h : Handlers T J X) where
  replied_428_iff :
      {A : Type 0} (res : Result A) (good : A → Reply)
      → ((a : A) → code_of (good a) ≡ 200)
      → (code_of (reply_to res good google_error) ≡ 428)
        ↔ ((e : Error) × (res ≡ err e) × (is e not_connected ≡ true))
  replied_428_iff (ok a) good fine =
      (λ b. absurd (omega (arith, b, fine a)), λ (e, b, _). absurd (ground arith))
  replied_428_iff (err e) good fine =
      let (to, from) = google_error-428_iff e in
      (λ b. (e, refl, to b), λ (e', same, b). from (ground arith))

  -- For a request with a user, the creation of a session is answered with 428 exactly when it failed with
  -- an error that is ErrNotConnected.
  pub create_session_428_iff :
      (r : Incoming X) (user_id : String) (w : World T J X)
      → r.user ≡ ok user_id
      → (code_of (create_session sys lib readers h r w).0 ≡ 428) ↔ (
          (e : Error) × ((create_picker_session sys lib readers h.client r.context user_id w).0
            ≡ err e)
          × (is e not_connected ≡ true))
  unfolding create_session
  create_session_428_iff r user_id w known = rw known (
      replied_428_iff (create_picker_session sys lib readers h.client r.context user_id w).0 _
        (λ s. unfold code_of in refl))

  -- `StartImport` never answers 428, whatever the request, the user's connection and the stores.
  pub post_import_codes :
      (envelope : List ℕ → Result Metadata) (r : Incoming X) (w : World T J X)
      → code_of (post_import sys lib readers h envelope r w).0 ≢ 428
  unfolding post_import code_of start_import
  post_import_codes envelope r w e = elim (Result-cases r.user) [
    | inr (e', none_known) ↦ ground arith
    | inl (user_id, known) ↦ elim (Bool-cases (r.id == "")) [
      | inl missing ↦ ground arith
      | inr given ↦
          elim (Result-cases
            (start_import_metadata envelope h.max_metadata_bytes h.max_metadata_keys r.body)) [
              | inr (e', bad) ↦ ground arith
              | inl (meta, good) ↦
                  elim (Result-cases
                    (h.client.imports.create_job r.context user_id r.id meta
                      (w.imports, w.env)).0) [
                        | inr (e', failed) ↦ ground arith
                        | inl (id, made) ↦ ground arith
                      ]
            ]
    ]
  ]

module _ {T X : Type 0} (sys : System X) (lib : Oauth2 X) (readers : Readers)
    (h : Handlers T ImportTable X) (db : Database X)
    (pg : h.client.imports ≡ pg_import_store db) where
  got_same :
      (r : Incoming X) (user_id : String) (w : World T ImportTable X)
      → h.client.imports.get r.context user_id r.id (w.imports, w.env)
        ≡ get db r.context user_id r.id (w.imports, w.env)
  got_same r user_id w =
      ap (λ (s : ImportStore ImportTable X). s.get r.context user_id r.id (w.imports, w.env)) pg

  -- Over the queue in PostgreSQL, a user who asks for the job of another never gets it, and whatever
  -- state the job is in, the job stays in the table.
  pub get_import_status_other :
      (r : Incoming X) (user_id : String) (row : ImportRow) (w : World T ImportTable X)
      → r.user ≡ ok user_id
      → lookup r.id w.imports ≡ some row
      → row.user_id ≢ user_id
      → (code_of (get_import_status sys lib readers h r w).0 ≢ 200)
        × ((get_import_status sys lib readers h r w).1.imports ≡ w.imports)
  unfolding get_import_status get_import code_of
  get_import_status_other r user_id row w known found ne =
      let (kept, refused) = get_other db r.context user_id r.id row w.imports w.env found ne in
      let same = got_same r user_id w in
      elim (Bool-cases (r.id == "")) [
        | inl missing ↦ (ground arith, ground arith)
        | inr given ↦ elim (Result-cases (get db r.context user_id r.id (w.imports, w.env)).0) [
          | inl (job, seen) ↦ absurd (refused job seen)
          | inr (e, bad) ↦ elim (Bool-cases (is e job_not_found)) [
            | inl b ↦ (ground arith, ground arith)
            | inr b ↦ (ground arith, ground arith)
          ]
        ]
      ]
