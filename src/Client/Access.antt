-- ===== src/Client/Access.antt =====
-- `accessToken`: the token that a request goes out with, and what a refresh changes in the store.
use google_photos_picker.Base.{
  ℕ, ◌+◌, ◌*◌, ◌<◌, second, eq_iff, String, ◌≡◌, ◌≢◌, sym, ap, subst, ◌∙◌, true, false, Option,
  some, inl, inr, Bool-cases, if◌then◌else◌, arith,
}
use google_photos_picker.Errors.{Error, no_tokens, is, sentinel, not_connected, wrap}
use google_photos_picker.Exec.{Result, ok, err, Context, Result-cases, with_state}
use google_photos_picker.System.{System}
use google_photos_picker.OAuth.{Token, Oauth2}
use google_photos_picker.Picker.{Readers}
use google_photos_picker.Stores.{TokenRecord}
use google_photos_picker.Stores.Contract.{TokenContract}
use google_photos_picker.Client.{Client, access_token, is_fresh}

module _ {T J X : Type 0} (sys : System X) (lib : Oauth2 X) (readers : Readers) (c : Client T J X)
    (ctx : Context X) (user_id : String) (w : T × X) where
  abbrev given : Result String × (T × X)
  given = access_token sys lib readers c ctx user_id w

  abbrev loading : Result TokenRecord × (T × X)
  loading = c.tokens.load ctx user_id w

  abbrev refreshing : TokenRecord → Result Token × X
  refreshing rec = lib.refresh c.oauth ctx rec.refresh_token loading.1.1

  abbrev storing : TokenRecord → Token → Result (Unit {0}) × (T × X)
  storing rec tok =
      c.tokens.update_access ctx user_id tok.access_token tok.expiry
        (loading.1.0, (refreshing rec).1)

  -- The ways for a token to be handed out.
  data Given (access : String) (w' : T × X) : Type 0 where
    stored :
        (rec : TokenRecord)
        → loading.0 ≡ ok rec
        → is_fresh (c.now loading.1.1) rec ≡ true
        → access ≡ rec.access_token
        → w' ≡ loading.1
        → Given access w'
    refreshed :
        (rec : TokenRecord) (tok : Token)
        → loading.0 ≡ ok rec
        → is_fresh (c.now loading.1.1) rec ≡ false
        → (refreshing rec).0 ≡ ok tok
        → (storing rec tok).0 ≡ ok tt
        → access ≡ tok.access_token
        → w' ≡ (storing rec tok).1
        → Given access w'

  pub access_token_unloaded :
      (e : Error)
      → loading.0 ≡ err e
      → given ≡ (err (if is e no_tokens then sentinel not_connected else e), loading.1)
  unfolding access_token
  access_token_unloaded e h = rw (with_state loading (err e) h)

  module _ (rec : TokenRecord) (found : loading ≡ (ok rec, loading.1)) where
    access_token_stored :
        is_fresh (c.now loading.1.1) rec ≡ true → given ≡ (ok rec.access_token, loading.1)
    unfolding access_token
    access_token_stored fresh = rw found (ground arith)

    access_token_refused :
        (e : Error)
        → is_fresh (c.now loading.1.1) rec ≡ false
        → (refreshing rec).0 ≡ err e
        → given.0 ≡ err (wrap "refresh token" e)
    unfolding access_token
    access_token_refused e stale failed = rw found (ground arith)

    access_token_unstored :
        (tok : Token) (e : Error)
        → is_fresh (c.now loading.1.1) rec ≡ false
        → (refreshing rec).0 ≡ ok tok
        → (storing rec tok).0 ≡ err e
        → given.0 ≡ err (wrap "persist refreshed token" e)
    unfolding access_token
    access_token_unstored tok e stale fresh failed = rw found (ground arith)

    access_token_refreshed :
        (tok : Token)
        → is_fresh (c.now loading.1.1) rec ≡ false
        → (refreshing rec).0 ≡ ok tok
        → (storing rec tok).0 ≡ ok tt
        → given ≡ (ok tok.access_token, (storing rec tok).1)
    unfolding access_token
    access_token_refreshed tok stale fresh kept = rw found (ground arith)

  access_token-Given : (access : String) (w' : T × X) → given ≡ (ok access, w') → Given access w'
  access_token-Given access w' h = elim (Result-cases loading.0) [
    | inr (e, failed) ↦ cc (h, access_token_unloaded e failed)
    | inl (rec, loaded) ↦
        let found = with_state loading (ok rec) loaded in
        elim (Bool-cases (is_fresh (c.now loading.1.1) rec)) [
          | inl fresh ↦
              let e = access_token_stored rec found fresh in
              stored rec loaded fresh (cc (h, e)) (cc (h, e))
          | inr stale ↦ elim (Result-cases (refreshing rec).0) [
            | inr (e, failed) ↦ cc (
              ap (λ (o : Result String × (T × X)). o.0) h,
              access_token_refused rec found e stale failed,
            )
            | inl (tok, fresh) ↦ elim (Result-cases (storing rec tok).0) [
              | inr (e, failed) ↦ cc (
                ap (λ (o : Result String × (T × X)). o.0) h,
                access_token_unstored rec found tok e stale fresh failed,
              )
              | inl (tt, kept) ↦
                  let e = access_token_refreshed rec found tok stale fresh kept in
                  refreshed rec tok loaded stale fresh kept (cc (h, e)) (cc (h, e))
            ]
          ]
        ]
  ]

  -- A token that may be used for more than a minute from now.
  abbrev pub OutlivesAMinute : TokenRecord → Type 0
  OutlivesAMinute rec =
      (rec.access_token ≢ "")
      × (rec.expires_at ≢ 0)
      × (c.now loading.1.1 + 60 * second < rec.expires_at)

  fresh_outlives :
      (rec : TokenRecord) → is_fresh (c.now loading.1.1) rec ≡ true → OutlivesAMinute rec
  fresh_outlives rec h = ground (arith, eq_iff rec.access_token "")

  module _ (Valid : T → Type 0) (view : T → String → Option (Result TokenRecord)) (kept : ℕ → ℕ)
      (law : TokenContract c.tokens Valid view kept) (valid : Valid w.0) where
    -- How the store and the token that is handed out agree.
    pub data Served (access : String) (t' : T) : Type 0 where
      from_store :
          (rec : TokenRecord)
          → view w.0 user_id ≡ some (ok rec)
          → OutlivesAMinute rec
          → access ≡ rec.access_token
          → t' ≡ w.0
          → Served access t'
      from_google :
          (rec : TokenRecord) (tok : Token)
          → view w.0 user_id ≡ some (ok rec)
          → (lib.refresh c.oauth ctx rec.refresh_token loading.1.1).0 ≡ ok tok
          → access ≡ tok.access_token
          → view t' user_id
            ≡ some
                (ok (record rec { access_token = tok.access_token; expires_at = kept tok.expiry }))
          → Served access t'

    Given-Served : (access : String) (w' : T × X) → Given access w' → Served access w'.0
    Given-Served access w' (stored rec loaded fresh same e) =
        from_store rec (law.reads.loaded ctx user_id rec w.0 w.1 loaded) (fresh_outlives rec fresh)
          same (ap (λ (u : T × X). u.0) e ∙ law.reads.load_state ctx user_id w.0 w.1)
    Given-Served access w' (refreshed rec tok loaded stale fresh kept_ok same e) =
        let same_store = law.reads.load_state ctx user_id w.0 w.1 in
        let had = law.reads.loaded ctx user_id rec w.0 w.1 loaded in
        from_google rec tok had fresh same (
          rw e (
            law.updates.updated ctx user_id tok.access_token tok.expiry rec loading.1.0
              (refreshing rec).1 (subst Valid (sym same_store) valid)
              (ap (λ t. view t user_id) same_store ∙ had) kept_ok))

    Given-others :
        (access : String) (w' : T × X) (other : String)
        → user_id ≢ other
        → Given access w'
        → view w'.0 other ≡ view w.0 other
    Given-others access w' other ne (stored rec loaded fresh same e) =
        ap (λ t. view t other)
          (ap (λ (u : T × X). u.0) e ∙ law.reads.load_state ctx user_id w.0 w.1)
    Given-others access w' other ne (refreshed rec tok loaded stale fresh kept_ok same e) = rw e (
        law.updates.others ctx user_id tok.access_token tok.expiry loading.1.0 (refreshing rec).1
          other ne
        ∙ ap (λ t. view t other) (law.reads.load_state ctx user_id w.0 w.1))

    -- Over a token store that keeps its contract, in a valid state: a token that is handed out is the
    -- stored one, good for more than a minute, and the store is as it was; or it is one that Google gave
    -- for the stored refresh token, and then the store holds it with its expiry, the refresh token and the
    -- scopes as they were. Nobody else's tokens change.
    pub access_token-Served :
        (access other : String) (w' : T × X)
        → access_token sys lib readers c ctx user_id w ≡ (ok access, w')
        → user_id ≢ other
        → Served access w'.0 × (view w'.0 other ≡ view w.0 other)
    access_token-Served access other w' h ne =
        let g = access_token-Given access w' h in
        (Given-Served access w' g, Given-others access w' other ne g)
