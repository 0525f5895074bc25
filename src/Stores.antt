-- ===== src/Stores.antt =====
-- stores.go: what the library keeps for a user and for an import, and the two interfaces through
-- which it keeps them. `T` and `J` are the states of a token store and of an import store, and `X`
-- is the environment, in which time passes and calls fail. `none` is a nil slice or a nil map.
pub mod Contract
pub mod Progress
pub mod Keeping
use google_photos_picker.Base.{ℕ, String, Bool, Option, none, some, List, StringMap, ◌≡◌}
use google_photos_picker.Exec.{Exec, Context}

pub record TokenRecord : Type 0 where
  pub user_id : String
  pub refresh_token : String
  pub access_token : String
  pub expires_at : ℕ
  pub scopes : Option (List String)

pub record TokenStatus : Type 0 where
  pub connected : Bool
  pub scopes : Option (List String)

pub record TokenStore (T X : Type 0) : Type 0 where
  pub save : Context X → TokenRecord → Exec (T × X) (Unit {0})
  pub load : Context X → String → Exec (T × X) TokenRecord
  pub update_access : Context X → String → String → ℕ → Exec (T × X) (Unit {0})
  pub status : Context X → String → Exec (T × X) TokenStatus
  pub delete : Context X → String → Exec (T × X) String

pub data ImportStatus : Type 0 where
  pending running complete failed : ImportStatus

abbrev pub Metadata : Type 0
Metadata = Option (StringMap String)

pub record ImportJob : Type 0 where
  pub id : String
  pub user_id : String
  pub session_id : String
  pub status : ImportStatus
  pub total_items : ℕ
  pub completed_items : ℕ
  pub failed_items : ℕ
  pub saved_ids : List String
  pub metadata : Metadata
  pub error : String

pub record ImportStore (J X : Type 0) : Type 0 where
  pub create_job : Context X → String → String → Metadata → Exec (J × X) String
  pub claim_next_pending : Context X → Exec (J × X) (Option ImportJob)
  pub set_total : Context X → String → ℕ → Exec (J × X) (Unit {0})
  pub record_item_success : Context X → String → String → Exec (J × X) (Unit {0})
  pub record_item_failure : Context X → String → Exec (J × X) (Unit {0})
  pub mark_complete : Context X → String → Exec (J × X) (Unit {0})
  pub mark_failed : Context X → String → String → Exec (J × X) (Unit {0})
  pub get : Context X → String → String → Exec (J × X) ImportJob
