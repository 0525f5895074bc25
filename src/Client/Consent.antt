-- ===== src/Client/Consent.antt =====
-- `CompleteConsent` (client.go): the ways for a callback to end.
use google_photos_picker.Base.{
  ℕ, String, ◌≡◌, ◌≢◌, ◌⊎◌, refl, sym, ap, ◌∙◌, Option, none, some, List, [], ◌∷◌, inl, inr,
  Option-cases, Bool-cases, ◌==◌, eq_iff, fields, arith,
}
use google_photos_picker.Errors.{Error, sentinel, invalid_state, wrap}
use google_photos_picker.Exec.{Result, ok, err, Context, Result-cases}
use google_photos_picker.System.{System}
use google_photos_picker.OAuth.{Token, Oauth2, granted_scopes, copy_of}
use google_photos_picker.Picker.{Readers}
use google_photos_picker.Stores.{TokenRecord}
use google_photos_picker.Stores.Contract.{SaveContract}
use google_photos_picker.StateStore.{StateStore, consume}
use google_photos_picker.StateStore.Lookup.{consume-consume}
use google_photos_picker.Client.{Client, World, complete_consent, granted_record}

-- The scopes that a token set is for: those that Google names, or where it names none, those that were
-- asked for, which are nil when there are none.
pub data IsGranted (tok : Token) (requested : List String) (scopes : Option (List String))
    : Type 0 where
  named :
      (s : String)
      → tok.scope ≡ some s
      → s ≢ ""
      → scopes ≡ some (fields s)
      → IsGranted tok requested scopes
  asked :
      (tok.scope ≡ none) ⊎ (tok.scope ≡ some "")
      → requested ≢ []
      → scopes ≡ some requested
      → IsGranted tok requested scopes
  nothing_asked :
      (tok.scope ≡ none) ⊎ (tok.scope ≡ some "")
      → requested ≡ []
      → scopes ≡ none
      → IsGranted tok requested scopes

module _ (tok : Token) (requested : List String) where
  unnamed :
      (tok.scope ≡ none) ⊎ (tok.scope ≡ some "")
      → (asked_for : List String) → requested ≡ asked_for
      → granted_scopes tok requested ≡ copy_of asked_for
      → IsGranted tok requested (granted_scopes tok requested)
  unnamed un [] e same = nothing_asked un e same
  unnamed un (x ∷ xs) e same = asked un (λ empty. cc (e, empty)) (same ∙ ap some (sym e))

  granted_scopes-IsGranted : IsGranted tok requested (granted_scopes tok requested)
  unfolding granted_scopes
  granted_scopes-IsGranted = elim (Option-cases tok.scope) [
    | inl missing ↦ unnamed (inl missing) requested refl (ground arith)
    | inr (s, given) ↦ elim (Bool-cases (s == "")) [
      | inl empty ↦
          unnamed (inr (given ∙ ap some ((eq_iff s "").0 empty))) requested refl (ground arith)
      | inr full ↦ named s given (λ e. ground (arith, eq_iff s "")) (ground arith)
    ]
  ]

module _ {T J X : Type 0} (sys : System X) (lib : Oauth2 X) (readers : Readers) (c : Client T J X)
    (ctx : Context X) (state code : String) (w : World T J X) where
  abbrev pub redeemed : Option String × StateStore
  redeemed = consume state (sys.now w.env) w.states

  abbrev consented : Result String × World T J X
  consented = complete_consent sys lib readers c ctx state code w

  abbrev exchanged : Result Token × X
  exchanged = lib.exchange c.oauth ctx code w.env

  -- Every way for a callback to end. The state is used up in each.
  pub data Consented (r : Result String) (w' : World T J X) : Type 0 where
    forged :
        redeemed.0 ≡ none
        → r ≡ err (sentinel invalid_state)
        → w' ≡ record w { states = redeemed.1 }
        → Consented r w'
    not_exchanged :
        (user_id : String) (e : Error)
        → redeemed.0 ≡ some user_id
        → exchanged.0 ≡ err e
        → r ≡ err (wrap "oauth exchange" e)
        → w' ≡ record w { states = redeemed.1; env = exchanged.1 }
        → Consented r w'
    not_saved :
        (user_id : String) (tok : Token) (e : Error) (v : T × X)
        → redeemed.0 ≡ some user_id
        → exchanged.0 ≡ ok tok
        → c.tokens.save ctx (granted_record sys lib readers c user_id tok) (w.tokens, exchanged.1)
          ≡ (err e, v)
        → r ≡ err (wrap "save tokens" e)
        → w' ≡ record w { states = redeemed.1; tokens = v.0; env = v.1 }
        → Consented r w'
    saved :
        (user_id : String) (tok : Token) (v : T × X)
        → redeemed.0 ≡ some user_id
        → exchanged.0 ≡ ok tok
        → c.tokens.save ctx (granted_record sys lib readers c user_id tok) (w.tokens, exchanged.1)
          ≡ (ok tt, v)
        → r ≡ ok user_id
        → w' ≡ record w { states = redeemed.1; tokens = v.0; env = v.1 }
        → Consented r w'

  complete_consent_forged : redeemed.0 ≡ none → Consented consented.0 consented.1
  unfolding complete_consent
  complete_consent_forged h = forged h (ground arith) (ground arith)

  module _ (user_id : String) (known : redeemed.0 ≡ some user_id) where
    complete_consent_failed : (e : Error) → exchanged.0 ≡ err e → Consented consented.0 consented.1
    unfolding complete_consent
    complete_consent_failed e h = not_exchanged user_id e known h (ground arith) (ground arith)

    complete_consent_exchanged :
        (tok : Token) (r : Result (Unit {0})) (v : T × X)
        → exchanged.0 ≡ ok tok
        → c.tokens.save ctx (granted_record sys lib readers c user_id tok) (w.tokens, exchanged.1)
          ≡ (r, v)
        → Consented consented.0 consented.1
    unfolding complete_consent
    complete_consent_exchanged tok (ok tt) v h s =
        saved user_id tok v known h s (ground arith) (ground arith)
    complete_consent_exchanged tok (err e) v h s =
        not_saved user_id tok e v known h s (ground arith) (ground arith)

  -- However a callback ends, it ends in one of these ways.
  pub complete_consent-Consented : Consented consented.0 consented.1
  complete_consent-Consented = elim (Option-cases redeemed.0) [
    | inl unknown ↦ complete_consent_forged unknown
    | inr (user_id, known) ↦ elim (Result-cases exchanged.0) [
      | inr (e, failed) ↦ complete_consent_failed user_id known e failed
      | inl (tok, given) ↦
          let out =
            c.tokens.save ctx (granted_record sys lib readers c user_id tok)
              (w.tokens, exchanged.1) in
          complete_consent_exchanged user_id known tok out.0 out.1 given refl
    ]
  ]

  Consented-states :
      (r : Result String) (w' : World T J X) → Consented r w' → w'.states ≡ redeemed.1
  Consented-states r w' (forged _ _ e) = rw e
  Consented-states r w' (not_exchanged _ _ _ _ _ e) = rw e
  Consented-states r w' (not_saved _ _ _ _ _ _ _ _ e) = rw e
  Consented-states r w' (saved _ _ _ _ _ _ _ e) = rw e

  Consented-ok :
      (user_id : String) (r : Result String) (w' : World T J X)
      → r ≡ ok user_id
      → Consented r w'
      → (tok : Token) × (redeemed.0 ≡ some user_id)
        × (exchanged.0 ≡ ok tok)
        × ((c.tokens.save ctx
              (granted_record sys lib readers c user_id tok)
              (w.tokens, exchanged.1)).0
            ≡ ok tt)
        × (w'.tokens
            ≡ (c.tokens.save ctx
                (granted_record sys lib readers c user_id tok)
                (w.tokens, exchanged.1)).1.0)
  Consented-ok user_id r w' h (forged _ bad _) = cc
  Consented-ok user_id r w' h (not_exchanged _ _ _ _ bad _) = cc
  Consented-ok user_id r w' h (not_saved _ _ _ _ _ _ _ bad _) = cc
  Consented-ok user_id r w' h (saved u tok v known given stored good e) =
      let same : u ≡ user_id = cc in
      rw (← same, e)
        (
          tok,
          known,
          given,
          ap (λ (o : Result (Unit {0}) × (T × X)). o.0) stored,
          sym (ap (λ (o : Result (Unit {0}) × (T × X)). o.1.0) stored),
        )

  Consented-none :
      (r : Result String) (w' : World T J X)
      → redeemed.0 ≡ none
      → Consented r w'
      → (r ≡ err (sentinel invalid_state)) × (w'.tokens ≡ w.tokens)
  Consented-none r w' h (forged _ bad e) = (bad, rw e)
  Consented-none r w' h (not_exchanged _ _ known _ _ _) = cc
  Consented-none r w' h (not_saved _ _ _ _ known _ _ _ _) = cc
  Consented-none r w' h (saved _ _ _ known _ _ _ _) = cc

module _ {T J X : Type 0} (sys : System X) (lib : Oauth2 X) (readers : Readers) (c : Client T J X)
    (ctx : Context X) (state code : String) (w : World T J X) where
  -- A state is good for one callback, whatever became of it: when the same state comes back, with any
  -- code, at any later moment at which the states are as the first callback left them, it is refused
  -- and stores no tokens.
  pub complete_consent-complete_consent :
      (later : Context X) (code' : String) (w' : World T J X)
      → w'.states ≡ (complete_consent sys lib readers c ctx state code w).1.states
      → ((complete_consent sys lib readers c later state code' w').0 ≡ err (sentinel invalid_state))
        × ((complete_consent sys lib readers c later state code' w').1.tokens ≡ w'.tokens)
  complete_consent-complete_consent later code' w' same =
      let states =
        same
        ∙ Consented-states sys lib readers c ctx state code w _ _
            (complete_consent-Consented sys lib readers c ctx state code w) in
      let used : (consume state (sys.now w'.env) w'.states).0 ≡ none =
        ap (λ s. (consume state (sys.now w'.env) s).0) states
        ∙ consume-consume state (sys.now w.env) w.states (sys.now w'.env) in
      Consented-none sys lib readers c later state code' w' _ _ used
        (complete_consent-Consented sys lib readers c later state code' w')

  module _ (Valid : T → Type 0) (view : T → String → Option (Result TokenRecord)) (kept : ℕ → ℕ)
      (saves : SaveContract c.tokens Valid view kept) (user_id : String) (tok : Token)
      (done : (complete_consent sys lib readers c ctx state code w).0 ≡ ok user_id)
      (given : (lib.exchange c.oauth ctx code w.env).0 ≡ ok tok) where
    abbrev after : String → Option (Result TokenRecord)
    after = view (complete_consent sys lib readers c ctx state code w).1.tokens

    abbrev granted : TokenRecord
    granted = granted_record sys lib readers c user_id tok

    abbrev saving : Result (Unit {0}) × (T × X)
    saving = c.tokens.save ctx granted (w.tokens, (lib.exchange c.oauth ctx code w.env).1)

    saved_granted :
        ((consume state (sys.now w.env) w.states).0 ≡ some user_id)
        × (saving.0 ≡ ok tt)
        × ((complete_consent sys lib readers c ctx state code w).1.tokens ≡ saving.1.0)
    saved_granted =
        let (tok', known, given', stored, tokens_eq) =
          Consented-ok sys lib readers c ctx state code w user_id _ _ done
            (complete_consent-Consented sys lib readers c ctx state code w) in
        let same : tok' ≡ tok = cc (given, given') in
        (known, rw same at stored, rw same at tokens_eq)

    -- Over a token store whose saves keep their contract: a callback that succeeds with a token set that has a
    -- refresh token stores that set under the user whom the state was issued to, with the scopes that Google
    -- named, or else those that were asked for; and leaves every other user alone.
    pub complete_consent_ok :
        (other : String)
        → tok.refresh_token ≢ ""
        → user_id ≢ other
        → ((consume state (sys.now w.env) w.states).0 ≡ some user_id)
          × ((scopes : Option (List String)) × IsGranted tok c.oauth.scopes scopes
              × (after user_id
                  ≡ some (
                      ok (record {
                        user_id = user_id;
                        refresh_token = tok.refresh_token;
                        access_token = tok.access_token;
                        expires_at = kept tok.expiry;
                        scopes = scopes;
                      }))))
          × (after other ≡ view w.tokens other)
    complete_consent_ok other full ne =
        let (known, stored, tokens_eq) = saved_granted in
        let x = (lib.exchange c.oauth ctx code w.env).1 in
        (
          known,
          (
            granted_scopes tok c.oauth.scopes,
            granted_scopes-IsGranted tok c.oauth.scopes,
            rw tokens_eq (saves.stored ctx granted w.tokens x full stored),
          ),
          rw tokens_eq (saves.others ctx granted w.tokens x other ne),
        )

    -- Where Google gives no refresh token, the stored one stays.
    pub complete_consent_renewed :
        (old : TokenRecord)
        → Valid w.tokens
        → tok.refresh_token ≡ ""
        → view w.tokens user_id ≡ some (ok old)
        → (scopes : Option (List String)) × IsGranted tok c.oauth.scopes scopes
          × (after user_id
              ≡ some (
                  ok (record {
                    user_id = user_id;
                    refresh_token = old.refresh_token;
                    access_token = tok.access_token;
                    expires_at = kept tok.expiry;
                    scopes = scopes;
                  })))
    complete_consent_renewed old v empty had =
        let (known, stored, tokens_eq) = saved_granted in
        let x = (lib.exchange c.oauth ctx code w.env).1 in
        (
          granted_scopes tok c.oauth.scopes,
          granted_scopes-IsGranted tok c.oauth.scopes,
          rw tokens_eq (saves.refresh_preserved ctx granted old w.tokens x v empty had stored),
        )
