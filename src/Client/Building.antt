-- ===== src/Client/Building.antt =====
-- `New`: which configurations make a client, and what its caps are.
use google_photos_picker.Base.{
  ℕ, ◌≡◌, ◌≢◌, refl, sym, ap, true, Option, none, some, ◌⊎◌, inl, inr, ℤ, pos, negsuc, arith,
}
use google_photos_picker.Errors.{Error, invalid_config, is}
use google_photos_picker.Exec.{ok, err}
use google_photos_picker.OAuth.{OauthConfig}
use google_photos_picker.Stores.{TokenStore, ImportStore}
use google_photos_picker.Sink.{PhotoSink}
use google_photos_picker.Http.{HttpClient}
use google_photos_picker.StateStore.{StateStore, new_state_store}
use google_photos_picker.Client.{
  Config, Client, required, new_client, built, or_default_cap, default_download_cap,
  default_max_decoded_bytes,
}

-- The cap that is used for the one that was given.
abbrev pub IsCapFor : ℤ → ℤ → ℤ → Type 0
IsCapFor default given used =
    (used ≢ pos 0) × (((given ≡ pos 0) × (used ≡ default)) ⊎ (used ≡ given))

module _ {T J X : Type 0} (client : HttpClient X) (time_now : X → ℕ) (cfg : Config T J X) where
  -- The four parts that have no default are there.
  pub record IsComplete (c : Client T J X) : Type 0 where
    pub oauth : cfg.oauth ≡ some c.oauth
    pub tokens : cfg.token_store ≡ some c.tokens
    pub imports : cfg.import_store ≡ some c.imports
    pub sink : cfg.sink ≡ some c.sink

  or_default_cap_lem : (d g : ℤ) → d ≢ pos 0 → IsCapFor d g (or_default_cap g d)
  or_default_cap_lem d (pos n) h = ground arith
  or_default_cap_lem d (negsuc n) h = ground arith

  made :
      (o : OauthConfig) (ts : TokenStore T X) (is : ImportStore J X) (k : PhotoSink X)
      → cfg.oauth ≡ some o
      → cfg.token_store ≡ some ts
      → cfg.import_store ≡ some is
      → cfg.sink ≡ some k
      → new_client client time_now cfg ≡ ok (built client time_now cfg o ts is k, new_state_store)
  unfolding new_client
  made o ts is k a b d e = ground arith

  -- What is missing is named in an error that `errors.Is` finds to be ErrInvalidConfig.
  pub new_client_refused :
      (cfg.oauth ≡ none) ⊎ (cfg.token_store ≡ none) ⊎ (cfg.import_store ≡ none) ⊎ (cfg.sink ≡ none)
      → (e : Error) × (new_client client time_now cfg ≡ err e) × (is e invalid_config ≡ true)
  unfolding new_client
  new_client_refused h = go cfg.oauth cfg.token_store cfg.import_store cfg.sink refl refl refl refl
    where
      go :
          (o : Option OauthConfig) (ts : Option (TokenStore T X)) (is' : Option (ImportStore J X))
          (k : Option (PhotoSink X))
          → cfg.oauth ≡ o
          → cfg.token_store ≡ ts
          → cfg.import_store ≡ is'
          → cfg.sink ≡ k
          → (e : Error) × (new_client client time_now cfg ≡ err e) × (is e invalid_config ≡ true)
      go none ts is' k a b d e = (required "OAuth is required", ground arith, refl)
      go (some o) none is' k a b d e = (required "TokenStore is required", ground arith, refl)
      go (some o) (some ts) none k a b d e =
          (required "ImportStore is required", ground arith, refl)
      go (some o) (some ts) (some is') none a b d e =
          (required "Sink is required", ground arith, refl)
      go (some o) (some ts) (some is') (some k) a b d e = absurd (ground arith)

  -- A client comes only of a complete configuration, with its own parts, an empty state store, and caps
  -- that are never 0: a cap of 0 stands for the default, and any other is taken as it is.
  pub new_client_ok :
      (c : Client T J X) (s : StateStore)
      → new_client client time_now cfg ≡ ok (c, s)
      → IsComplete c
        × IsCapFor default_download_cap cfg.download_cap c.download_cap
        × IsCapFor default_max_decoded_bytes cfg.max_decoded_bytes c.max_decoded_bytes
        × (s ≡ new_state_store)
  new_client_ok c s h = go cfg.oauth cfg.token_store cfg.import_store cfg.sink refl refl refl refl
    where
      refused :
          (cfg.oauth ≡ none)
            ⊎ (cfg.token_store ≡ none)
            ⊎ (cfg.import_store ≡ none)
            ⊎ (cfg.sink ≡ none)
          → ⊥
      refused m = let (e, failed, _) = new_client_refused m in cc (h, failed)

      go :
          (o : Option OauthConfig) (ts : Option (TokenStore T X)) (is : Option (ImportStore J X))
          (k : Option (PhotoSink X))
          → cfg.oauth ≡ o
          → cfg.token_store ≡ ts
          → cfg.import_store ≡ is
          → cfg.sink ≡ k
          → IsComplete c
            × IsCapFor default_download_cap cfg.download_cap c.download_cap
            × IsCapFor default_max_decoded_bytes cfg.max_decoded_bytes c.max_decoded_bytes
            × (s ≡ new_state_store)
      go none ts is k a b d e = absurd (refused (inl a))
      go (some o) none is k a b d e = absurd (refused (inr (inl b)))
      go (some o) (some ts) none k a b d e = absurd (refused (inr (inr (inl d))))
      go (some o) (some ts) (some is) none a b d e = absurd (refused (inr (inr (inr e))))
      go (some o) (some ts) (some is) (some k) a b d e =
          let pair : (built client time_now cfg o ts is k, new_state_store) ≡ (c, s) =
            cc (h, made o ts is k a b d e) in
          let same = ap (λ (u : Client T J X × StateStore). u.0) pair in
          rw (← same) (
            record { oauth = a; tokens = b; imports = d; sink = e },
            or_default_cap_lem default_download_cap cfg.download_cap (λ z. cc),
            or_default_cap_lem default_max_decoded_bytes cfg.max_decoded_bytes (λ z. cc),
            sym (ap (λ (u : Client T J X × StateStore). u.1) pair),
          )
