-- ===== src/Client/Effects.antt =====
-- What the client's methods keep of its stores, from what the stores' operations keep.
use google_photos_picker.Base.{
  ℕ, String, ◌≡◌, refl, subst, ◌==◌, Bool, true, false, Option, none, some, List,
}
use Prim.Native.String.{◌++◌ as join}
use google_photos_picker.Errors.{Error, is, no_tokens}
use google_photos_picker.Exec.{Result, ok, err, Exec, Context, wrapping, gets, pure, ◌>>=◌}
use google_photos_picker.Exec.Invariants.{
  Keeps, OnStore, pure-Keeps, wrapping-Keeps, branch-Keeps, outside-Keeps, bind-Keeps,
}
use google_photos_picker.System.{System}
use google_photos_picker.StateStore.{StateStore, put_state, create}
use google_photos_picker.OAuth.{Oauth2}
use google_photos_picker.Stores.{TokenRecord, Metadata}
use google_photos_picker.Stores.Keeping.{SavesKeep, TokensKeep, ImportsKeep}
use google_photos_picker.Picker.{Readers, PickerSession as SessionResource, google_json, api_base}
use google_photos_picker.Picker.Effects.{google_json-Keeps}
use google_photos_picker.Client.{
  Client, World, on_tokens, on_imports, on_states, on_env, consent_url, complete_consent, status,
  disconnect, access_token, usable, refreshed, create_picker_session, poll_picker_session,
  start_import, get_import, is_fresh, deleted, map_not_connected, authorizer, session_of,
  session_phase, start_revoking,
}
use google_photos_picker.Client.Consent.{
  Consented, redeemed, complete_consent-Consented, forged, not_exchanged, not_saved, saved,
}

-- A state that is issued to the user keeps R.
abbrev pub IssuesKeep : (StateStore → Type 0) → String → Type 0
IssuesKeep R user_id =
    (state : String) (now : ℕ) (s : StateStore) → R s → R (put_state state user_id now s)

module _ {T J X : Type 0} (P : T → Type 0) (Q : J → Type 0) (R : StateStore → Type 0) where
  -- P holds of the token store, Q of the import store and R of the states of the dance.
  abbrev pub Kept : World T J X → Type 0
  Kept w = P w.tokens × Q w.imports × R w.states

  pub on_tokens-Keeps :
      {A : Type 0} {m : Exec (T × X) A} → Keeps (OnStore P) m → Keeps Kept (on_tokens m)
  on_tokens-Keeps k = record { at = λ w (p, q, s). (k.at (w.tokens, w.env) p, q, s) }

  pub on_imports-Keeps :
      {A : Type 0} {m : Exec (J × X) A} → Keeps (OnStore Q) m → Keeps Kept (on_imports m)
  on_imports-Keeps k = record { at = λ w (p, q, s). (p, k.at (w.imports, w.env) q, s) }

  pub on_env-Keeps : {A : Type 0} (m : Exec X A) → Keeps Kept (on_env m)
  on_env-Keeps m = record { at = λ w pq. pq }

  module _ (sys : System X) (lib : Oauth2 X) (readers : Readers) (c : Client T J X) where
    pub consent_url-Keeps :
        (user_id : String)
        → IssuesKeep R user_id
        → Keeps Kept (consent_url sys lib readers c user_id)
    unfolding consent_url create
    consent_url-Keeps user_id issues =
        bind-Keeps _ (record { at = λ w k. go w k (sys.random 32 w.env).0 refl })
          λ state. pure-Keeps _ _
      where
        go :
            (w : World T J X)
            → Kept w
            → (r : Result (List ℕ)) → (sys.random 32 w.env).0 ≡ r
            → Kept (on_states (create sys user_id) w).1
        go w k (err e) drawn = rw (drawn, create) k
        go w (p, q, s) (ok buf) drawn = rw (drawn, create) (p, q, issues _ _ w.states s)

    -- A callback does to the stores what a save for the user of its state does, if there is one.
    pub complete_consent-Kept :
        (ctx : Context X) (state code : String) (w : World T J X)
        → ((user_id : String)
            → (redeemed sys lib readers c ctx state code w).0 ≡ some user_id
            → SavesKeep P c.tokens user_id)
        → R (redeemed sys lib readers c ctx state code w).1
        → Kept w
        → Kept (complete_consent sys lib readers c ctx state code w).1
    complete_consent-Kept ctx state code w keep s (p, q, _) =
        go _ _ (complete_consent-Consented sys lib readers c ctx state code w)
      where
        go :
            (r : Result String) (w' : World T J X)
            → Consented sys lib readers c ctx state code w r w'
            → Kept w'
        go r w' (forged _ _ e) = rw e (p, q, s)
        go r w' (not_exchanged _ _ _ _ _ e) = rw e (p, q, s)
        go r w' (not_saved u tok f v known _ ran _ e) = rw e (
          subst (λ (o : Result (Unit {0}) × (T × X)). P o.1.0) ran
              ((keep u known ctx _ refl).at _ p),
          q,
          s,
        )
        go r w' (saved u tok v known _ ran _ e) = rw e (
          subst (λ (o : Result (Unit {0}) × (T × X)). P o.1.0) ran
              ((keep u known ctx _ refl).at _ p),
          q,
          s,
        )

    module _ (user_id : String) (keep : TokensKeep P c.tokens user_id) (ctx : Context X) where
      refreshed-Keeps :
          (rec : TokenRecord) → Keeps (OnStore P) (refreshed sys lib readers c ctx user_id rec)
      refreshed-Keeps rec =
          bind-Keeps _
            (wrapping-Keeps _ _ (outside-Keeps P (lib.refresh c.oauth ctx rec.refresh_token)))
            λ fresh.
              bind-Keeps _ (wrapping-Keeps _ _ (keep.updates ctx fresh.access_token fresh.expiry))
                λ _. pure-Keeps _ _

      usable-Keeps :
          (rec : TokenRecord) → Keeps (OnStore P) (usable sys lib readers c ctx user_id rec)
      usable-Keeps rec = record {
        at = λ w p.
            (branch-Keeps _ (is_fresh (c.now w.1) rec) _ _ (pure-Keeps _ rec.access_token)
                (refreshed-Keeps rec)).at
              w p;
      }

      pub access_token-Keeps : Keeps (OnStore P) (access_token sys lib readers c ctx user_id)
      unfolding access_token
      access_token-Keeps = bind-Keeps _ (wrapping-Keeps _ _ (keep.loads ctx)) usable-Keeps

      pub disconnect-Keeps : Keeps Kept (disconnect sys lib readers c ctx user_id)
      unfolding disconnect
      disconnect-Keeps = record {
        at = λ w pq.
            let (r, w') = on_tokens (c.tokens.delete ctx user_id) w in
            go r w' ((on_tokens-Keeps (keep.deletes ctx)).at w pq);
      }
        where
          revoking :
              (refresh : String) (b : Bool) (w : World T J X)
              → (refresh == "") ≡ b
              → Kept w
              → Kept (start_revoking sys lib readers c refresh w)
          revoking refresh true w e pq = rw e pq
          revoking refresh false w e pq = rw e pq

          unmade :
              (e : Error) (b : Bool) (w : World T J X)
              → is e no_tokens ≡ b
              → Kept w
              → Kept (deleted sys lib readers c (err e) w).1
          unmade e true w h pq = rw h pq
          unmade e false w h pq = rw h pq

          go :
              (r : Result String) (w : World T J X)
              → Kept w
              → Kept (deleted sys lib readers c r w).1
          go (ok refresh) w pq = revoking refresh (refresh == "") w refl pq
          go (err e) w pq = unmade e (is e no_tokens) w refl pq

      session-Keeps :
          (method url : String) (body : Option String)
          → Keeps Kept (
              wrapping map_not_connected (
                on_tokens (
                  google_json readers c.http_client
                    (authorizer sys lib readers c)
                    readers.session
                    ctx
                    user_id
                    method
                    url
                    body)))
      session-Keeps method url body = wrapping-Keeps Kept map_not_connected (
          on_tokens-Keeps (
            google_json-Keeps P readers c.http_client (authorizer sys lib readers c) ctx user_id
              access_token-Keeps readers.session method url body))

      pub create_picker_session-Keeps :
          Keeps Kept (create_picker_session sys lib readers c ctx user_id)
      unfolding create_picker_session
      create_picker_session-Keeps =
          bind-Keeps Kept (session-Keeps "POST" (join api_base "/sessions") (some "{}"))
            λ sess. pure-Keeps Kept (session_of sys lib readers c sess)

      phase-Keeps :
          (sess : SessionResource)
          → Keeps Kept
              (gets (λ w. w) >>= λ w. pure (session_phase sys lib readers c (c.now w.env) sess))
      phase-Keeps sess = record { at = λ w pq. pq }

      pub poll_picker_session-Keeps :
          (session_id : String)
          → Keeps Kept (poll_picker_session sys lib readers c ctx user_id session_id)
      unfolding poll_picker_session
      poll_picker_session-Keeps session_id =
          bind-Keeps Kept (session-Keeps "GET" (join api_base (join "/sessions/" session_id)) none)
            phase-Keeps

      pub status-Keeps : Keeps Kept (status sys lib readers c ctx user_id)
      unfolding status
      status-Keeps = on_tokens-Keeps (keep.statuses ctx)

    module _ (user_id : String) (keep : ImportsKeep Q c.imports user_id) (ctx : Context X) where
      pub start_import-Keeps :
          (session_id : String) (meta : Metadata)
          → Keeps Kept (start_import sys lib readers c ctx user_id session_id meta)
      unfolding start_import
      start_import-Keeps session_id meta = on_imports-Keeps (keep.creates ctx session_id meta)

      pub get_import-Keeps :
          (id : String) → Keeps Kept (get_import sys lib readers c ctx user_id id)
      unfolding get_import
      get_import-Keeps id = on_imports-Keeps (keep.gets ctx id)
