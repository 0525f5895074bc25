-- ===== src/Client/State.antt =====
-- client.go: the configuration of a client, its constructor, and the state that its methods change.
use google_photos_picker.Base.{
  ℕ, ◌*◌, ◌^◌, String, Option, none, some, List, eqb, if◌then◌else◌, ℤ, pos, negsuc,
}
use google_photos_picker.Errors.{Error, sentinel, invalid_config, detail}
use google_photos_picker.Exec.{Result, ok, err, Exec}
use google_photos_picker.StateStore.{StateStore, new_state_store}
use google_photos_picker.Stores.{TokenStore, ImportStore}
use google_photos_picker.OAuth.{OauthConfig}
use google_photos_picker.Http.{HttpClient}
use google_photos_picker.Sink.{PhotoSink}

abbrev pub default_download_cap : ℤ
default_download_cap = pos (50 * 2 ^ 20)

abbrev pub default_max_decoded_bytes : ℤ
default_max_decoded_bytes = pos (200 * 2 ^ 20)

abbrev pub revoke_url : String
revoke_url = "https://oauth2.googleapis.com/revoke"

-- `none` is nil. A logger plays no part.
pub record Config (T J X : Type 0) : Type 0 where
  pub oauth : Option OauthConfig
  pub token_store : Option (TokenStore T X)
  pub import_store : Option (ImportStore J X)
  pub sink : Option (PhotoSink X)
  pub download_cap : ℤ
  pub max_decoded_bytes : ℤ
  pub http_client : Option (HttpClient X)
  pub clock : Option (X → ℕ)

pub record Client (T J X : Type 0) : Type 0 where
  pub oauth : OauthConfig
  pub tokens : TokenStore T X
  pub imports : ImportStore J X
  pub sink : PhotoSink X
  pub download_cap : ℤ
  pub max_decoded_bytes : ℤ
  pub http_client : HttpClient X
  pub now : X → ℕ

-- What changes: the states of the OAuth dance, the two stores, the tokens that goroutines started by
-- `Disconnect` have still to revoke, and the environment.
pub record World (T J X : Type 0) : Type 0 where
  pub states : StateStore
  pub tokens : T
  pub imports : J
  pub revoking : List String
  pub env : X

module _ {T J X A : Type 0} where
  -- Actions on a part of the world.
  abbrev pub on_tokens : Exec (T × X) A → Exec (World T J X) A
  on_tokens m w = let (r, (t, x)) = m (w.tokens, w.env) in (r, record w { tokens = t; env = x })

  abbrev pub on_imports : Exec (J × X) A → Exec (World T J X) A
  on_imports m w = let (r, (j, x)) = m (w.imports, w.env) in (r, record w { imports = j; env = x })

  abbrev pub on_states : Exec (StateStore × X) A → Exec (World T J X) A
  on_states m w = let (r, (s, x)) = m (w.states, w.env) in (r, record w { states = s; env = x })

  abbrev pub on_env : Exec X A → Exec (World T J X) A
  on_env m w = let (r, x) = m w.env in (r, record w { env = x })

abbrev pub or_default_cap : ℤ → ℤ → ℤ
or_default_cap (pos n) d = if eqb n 0 then d else pos n
or_default_cap (negsuc n) d = negsuc n

abbrev pub or_default : {A : Type 0} → Option A → A → A
or_default none d = d
or_default (some a) d = a

abbrev pub required : String → Error
required text = detail (sentinel invalid_config) text

module _ {T J X : Type 0} (default_client : HttpClient X) (time_now : X → ℕ) where
  -- The client of a valid configuration; `default_client` is http.DefaultClient.
  abbrev pub built :
      Config T J X → OauthConfig → TokenStore T X → ImportStore J X → PhotoSink X → Client T J X
  built cfg oauth tokens imports sink = record {
    oauth = oauth;
    tokens = tokens;
    imports = imports;
    sink = sink;
    download_cap = or_default_cap cfg.download_cap default_download_cap;
    max_decoded_bytes = or_default_cap cfg.max_decoded_bytes default_max_decoded_bytes;
    http_client = or_default cfg.http_client default_client;
    now = or_default cfg.clock time_now;
  }

  -- `New`
  unfoldable pub new_client : Config T J X → Result (Client T J X × StateStore)
  new_client cfg = elim cfg.oauth [
    | none ↦ err (required "OAuth is required")
    | some oauth ↦ elim cfg.token_store [
      | none ↦ err (required "TokenStore is required")
      | some tokens ↦ elim cfg.import_store [
        | none ↦ err (required "ImportStore is required")
        | some imports ↦ elim cfg.sink [
          | none ↦ err (required "Sink is required")
          | some sink ↦ ok (built cfg oauth tokens imports sink, new_state_store)
        ]
      ]
    ]
  ]
