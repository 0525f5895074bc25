-- ===== src/OAuth.antt =====
-- oauth.go, `NewOAuthConfig`, and the parts of golang.org/x/oauth2 that the client calls. That package
-- and Google's endpoints behind it are the record `Oauth2`.
use google_photos_picker.Base.{
  ℕ, String, Option, none, some, List, [], ◌∷◌, ◌==◌, fields, if◌then◌else◌,
}
use google_photos_picker.Exec.{Exec, Context}

abbrev pub google_photos_scope : String
google_photos_scope = "https://www.googleapis.com/auth/photospicker.mediaitems.readonly"

-- oauth2.Endpoint, by its two URLs.
pub record Endpoint : Type 0 where
  pub auth_url : String
  pub token_url : String

-- oauth2.Config
pub record OauthConfig : Type 0 where
  pub client_id : String
  pub client_secret : String
  pub redirect_url : String
  pub scopes : List String
  pub endpoint : Endpoint

-- oauth2.Token; `scope` is `Extra("scope")`, if that is a text.
pub record Token : Type 0 where
  pub access_token : String
  pub refresh_token : String
  pub expiry : ℕ
  pub scope : Option String

pub record Oauth2 (X : Type 0) : Type 0 where
  -- AuthCodeURL(state, AccessTypeOffline, ApprovalForce)
  pub auth_code_url : OauthConfig → String → String
  -- Exchange(ctx, code)
  pub exchange : OauthConfig → Context X → String → Exec X Token
  -- TokenSource(ctx, &Token{RefreshToken: …}).Token()
  pub refresh : OauthConfig → Context X → String → Exec X Token

-- `NewOAuthConfig`; the endpoint is googleoauth.Endpoint.
unfoldable pub new_oauth_config : Endpoint → String → String → String → OauthConfig
new_oauth_config google client_id client_secret redirect_url = record {
  client_id = client_id;
  client_secret = client_secret;
  redirect_url = redirect_url;
  scopes = google_photos_scope ∷ [];
  endpoint = google;
}

-- `append([]string(nil), requested...)`: nil if there is none.
abbrev pub copy_of : List String → Option (List String)
copy_of [] = none
copy_of (s ∷ ss) = some (s ∷ ss)

-- `grantedScopes`
unfoldable pub granted_scopes : Token → List String → Option (List String)
granted_scopes tok requested = elim tok.scope [
  | none ↦ copy_of requested
  | some s ↦ if s == "" then copy_of requested else some (fields s)
]
