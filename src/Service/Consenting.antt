-- ===== src/Service/Consenting.antt =====
-- Where tokens come from: a server that runs on, against users who never asked to connect.
use google_photos_picker.Base.{
  ℤ, ℕ, String, ◌≡◌, ◌≢◌, refl, sym, subst, List, [], ◌∷◌, Bool, true, false, none, some, lookup,
  lookup-insert, lookup-erase, lookup-retain, ◌+◌, not, ◌&&◌, ap, ◌∙◌, Option-cases, inl, inr,
  eq_iff, arith,
}
use google_photos_picker.Exec.{ok}
use google_photos_picker.System.{System}
use google_photos_picker.OAuth.{Oauth2}
use google_photos_picker.Cryptobox.{Box}
use google_photos_picker.StateStore.{
  StateStore, state_ttl, StateEntry, consume, sweep, gc_tick, close, put_state, is_expired,
}
use google_photos_picker.StateStore.Lookup.{
  IsValid, consume-IsValid, put_state-IsValid, gc_tick-IsValid, close-IsValid,
}
use google_photos_picker.Stores.Keeping.{TokensKeep, SavesKeep, ImportsKeep, QueueKeeps}
use google_photos_picker.Picker.{Readers}
use google_photos_picker.Client.{World}
use google_photos_picker.Handlers.{Handlers}
use google_photos_picker.Handlers.Access.{connecting}
use google_photos_picker.Postgres.Database.{Database}
use google_photos_picker.Postgres.Tokens.{TokenTable, pg_token_store}
use google_photos_picker.Postgres.Tokens.Rows.{save-SavesKeep, pg_token_store-TokensKeep}
use google_photos_picker.Postgres.Imports.{ImportTable, pg_import_store}
use google_photos_picker.Postgres.Imports.Effects.{all-ImportsKeep, pg_import_store-QueueKeeps}
use google_photos_picker.Service.{
  Event, served, called_back, drained, called, swept, revoked, closed, elapsed, run,
}
use google_photos_picker.Service.Keeping.{StatesKeep, IssueWell, run-Kept}

-- No state of the dance is the user's.
abbrev pub NoState : String → StateStore → Type 0
NoState user_id s =
    (state : String) (e : StateEntry) → lookup state s.entries ≡ some e → e.user_id ≢ user_id

-- The user has no row of tokens.
abbrev pub NoTokens : String → TokenTable → Type 0
NoTokens user_id t = lookup user_id t ≡ none

put_state-NoState :
    (user_id other state : String) (now : ℕ) (s : StateStore)
    → other ≢ user_id
    → NoState user_id s
    → NoState user_id (put_state state other now s)
unfolding put_state
put_state-NoState user_id other state now s ne h k e f = ground (
  arith,
  lookup-insert state k (record { user_id = other; expires_at = now + state_ttl }) s.entries,
  h k e,
)

module _ (user_id : String) where
  consume-NoState :
      (state : String) (now : ℕ) (s : StateStore)
      → NoState user_id s
      → NoState user_id (consume state now s).1
  unfolding consume
  consume-NoState state now s h k e f = ground (arith, lookup-erase state k s.entries, h k e)

  -- Nobody's consent is taken for the user's.
  consume-NoState_ne :
      (state other : String) (now : ℕ) (s : StateStore)
      → NoState user_id s
      → (consume state now s).0 ≡ some other
      → other ≢ user_id
  unfolding consume
  consume-NoState_ne state other now s h f = elim (Option-cases (lookup state s.entries)) [
    | inl missing ↦ absurd (ground (arith, missing, f))
    | inr (e, found) ↦ λ same. h state e found (ground (arith, found, f, same))
  ]

  -- Every state is listed once, and none is the user's.
  abbrev pub WithoutUser : StateStore → Type 0
  WithoutUser s = IsValid s × NoState user_id s

  sweep-NoState : (now : ℕ) (s : StateStore) → WithoutUser s → NoState user_id (sweep now s)
  unfolding sweep
  sweep-NoState now s (u, h) k e f =
      ground (arith, lookup-retain k (λ e. not (is_expired now e)) s.entries u, h k e)

  gc_tick-NoState :
      (chose_stop : Bool) (now : ℕ) (s : StateStore)
      → WithoutUser s
      → NoState user_id (gc_tick chose_stop now s)
  unfolding gc_tick sweep
  gc_tick-NoState chose_stop now s k = go s.collecting refl (s.stopped && chose_stop) refl
    where
      go :
          (b : Bool)
          → s.collecting ≡ b
          → (d : Bool) → (s.stopped && chose_stop) ≡ d
          → NoState user_id (gc_tick chose_stop now s)
      go false e d f = rw e k.1
      go true e true f = rw (e, f) k.1
      go true e false f = rw (e, f) (sweep-NoState now s k)

  without_user : StatesKeep WithoutUser
  unfolding close
  without_user = record {
    consumes = λ state now s (u, h). (consume-IsValid state now s u, consume-NoState state now s h);
    sweeps = λ b now s (u, h). (gc_tick-IsValid now s b u, gc_tick-NoState b now s (u, h));
    closes = λ s (u, h). (close-IsValid 0 s u, λ k e f. h k e (ground arith));
  }

  without_tokens :
      {X : Type 0} (sys : System X) (db : Database X) (box : Box) (other : String)
      → TokensKeep (NoTokens user_id) (pg_token_store sys db box) other
  without_tokens sys db box other =
      pg_token_store-TokensKeep (NoTokens user_id) sys db box other
        (λ old new t f none_kept.
          ground (arith, lookup-insert other user_id new t, eq_iff other user_id))
        (λ t none_kept. ground (arith, lookup-erase other user_id t))

  others_save :
      {X : Type 0} (sys : System X) (db : Database X) (box : Box) (other : String)
      → other ≢ user_id
      → SavesKeep (NoTokens user_id) (pg_token_store sys db box) other
  others_save sys db box other ne =
      save-SavesKeep (NoTokens user_id) sys db box other
        (λ row t none_kept. ground (arith, lookup-insert other user_id row t, eq_iff other user_id))

module _ {X : Type 0} (sys : System X) (lib : Oauth2 X) (readers : Readers) (db : Database X)
    (box : Box) (h : Handlers TokenTable ImportTable X) (poll_interval job_timeout : ℤ) where
  -- No request in the run is the user's request to connect.
  abbrev pub NeverConnects :
      String → List (Event sys lib readers h poll_interval job_timeout) → Type 0
  NeverConnects user_id [] = Unit
  NeverConnects user_id (served op r ∷ es) =
      (op ≡ connecting → r.user ≢ ok user_id) × NeverConnects user_id es
  NeverConnects user_id (_ ∷ es) = NeverConnects user_id es

  issue_well :
      (user_id : String) (es : List (Event sys lib readers h poll_interval job_timeout))
      → NeverConnects user_id es
      → IssueWell (WithoutUser user_id) sys lib readers h poll_interval job_timeout es
  issue_well user_id [] never = tt
  issue_well user_id (served op r ∷ es) (never, later) = (
    λ other known same state now s (u, none_his).
        let ne = λ (e : other ≡ user_id). never same (known ∙ ap ok e) in
        (
          put_state-IsValid state other now now s u,
          put_state-NoState user_id other state now s ne none_his,
        ),
    issue_well user_id es later,
  )
  issue_well user_id (called_back r ∷ es) later = (tt, issue_well user_id es later)
  issue_well user_id (drained jobs pages ctx ∷ es) later = (tt, issue_well user_id es later)
  issue_well user_id (called c ∷ es) later = (tt, issue_well user_id es later)
  issue_well user_id (swept b ∷ es) later = (tt, issue_well user_id es later)
  issue_well user_id (revoked ∷ es) later = (tt, issue_well user_id es later)
  issue_well user_id (closed ∷ es) later = (tt, issue_well user_id es later)
  issue_well user_id (elapsed f ∷ es) later = (tt, issue_well user_id es later)

  -- Over PostgreSQL, a user who has no tokens and no state of the dance to begin with has none after any
  -- run of the server in which no request to connect was the user's: whatever callbacks come with whatever
  -- states and codes, whatever other users and any number of workers do, call by call in any order, and
  -- however time passes.
  pub run-NoTokens :
      h.client.tokens ≡ pg_token_store sys db box
      → h.client.imports ≡ pg_import_store db
      → (user_id : String) (es : List (Event sys lib readers h poll_interval job_timeout))
      → NeverConnects user_id es
      → (w : World TokenTable ImportTable X) → NoTokens user_id w.tokens
      → WithoutUser user_id w.states
      → let w' = run sys lib readers h poll_interval job_timeout es w in
        NoTokens user_id w'.tokens × WithoutUser user_id w'.states
  run-NoTokens stored queued user_id es never w tokens states =
      let (t, _, s) =
        run-Kept (NoTokens user_id) (λ j. Unit {0}) (WithoutUser user_id) sys lib readers h
          poll_interval job_timeout
          (λ other.
            subst (λ s. TokensKeep (NoTokens user_id) s other) (sym stored)
              (without_tokens user_id sys db box other))
          (λ other.
            subst (λ s. ImportsKeep (λ j. Unit {0}) s other) (sym queued)
              (all-ImportsKeep (λ j. Unit {0}) db (λ s now j u. tt) other))
          (subst (λ s. QueueKeeps (λ j. Unit {0}) s) (sym queued)
            (pg_import_store-QueueKeeps (λ j. Unit {0}) db (λ s now j u. tt)))
          (without_user user_id)
          (λ state other now s (u, none_his) f.
            subst (λ s. SavesKeep (NoTokens user_id) s other) (sym stored)
              (others_save user_id sys db box other
                (consume-NoState_ne user_id state other now s none_his f)))
          es w (issue_well user_id es never) (tokens, tt, states) in
      (t, s)
