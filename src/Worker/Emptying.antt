-- ===== src/Worker/Emptying.antt =====
-- `DrainOnce` (worker.go) where it ends because there is nothing left to claim.
use google_photos_picker.Base.{
  ℕ, zero, suc, String, ◌≡◌, refl, sym, subst, ap, ◌∙◌, Option, none, some,
}
use google_photos_picker.Exec.{Result, ok, err, Context}
use google_photos_picker.System.{System}
use google_photos_picker.OAuth.{Oauth2}
use google_photos_picker.Stores.{ImportJob}
use google_photos_picker.Picker.{Readers}
use google_photos_picker.Client.{World, on_imports}
use google_photos_picker.Worker.{
  Worker, Drained, Processed, cancelled, claim_failed, empty, out_of_fuel, succeeded, unfinished,
  process_job, drain_once,
}

abbrev IsEmpty : Drained → Type 0
IsEmpty empty = Unit
IsEmpty _ = ⊥

differs : (d : Drained) → (IsEmpty d → ⊥) → d ≡ empty → ⊥
differs d no_such e = no_such (subst IsEmpty (sym e) tt)

module _ {T J X : Type 0} (sys : System X) (lib : Oauth2 X) (readers : Readers) (w : Worker T J X)
    (pages : ℕ) (ctx : Context X) where
  abbrev pub claimed : World T J X → Result (Option ImportJob) × World T J X
  claimed v = on_imports (w.client.imports.claim_next_pending ctx) v

  -- The last claim of a drain returned nil, and nothing was done after it.
  pub record LastClaim (world' : World T J X) : Type 0 where
    pub before : World T J X
    pub nothing : (claimed before).0 ≡ ok none
    pub last : world' ≡ (claimed before).1

  abbrev drained : ℕ → World T J X → Drained × World T J X
  drained fuel world = drain_once sys lib readers w fuel pages ctx world

  pub drain_once-LastClaim :
      (fuel : ℕ) (world : World T J X)
      → (drain_once sys lib readers w fuel pages ctx world).0 ≡ empty
      → LastClaim (drain_once sys lib readers w fuel pages ctx world).1
  unfolding drain_once
  drain_once-LastClaim zero world h = absurd (differs out_of_fuel (λ n. n) h)
  drain_once-LastClaim (suc fuel) world h =
      go (drain_once-LastClaim fuel) (ctx world.env) refl (claimed world).0 refl
    where
      Next : Type 0
      Next = (v : World T J X) → (drained fuel v).0 ≡ empty → LastClaim (drained fuel v).1

      after : World T J X
      after = (claimed world).1

      ran : ImportJob → Result Processed × World T J X
      ran job = process_job sys lib readers w pages ctx job after

      further :
          Next
          → (job : ImportJob) (r : Result Processed) → (ran job).0 ≡ r
          → ctx world.env ≡ none
          → (claimed world).0 ≡ ok (some job)
          → LastClaim (drained (suc fuel) world).1
      further next job (ok succeeded) e d f =
          let same : drained (suc fuel) world ≡ drained fuel (ran job).1 =
            rw (drain_once, d, f, e) refl in
          subst LastClaim (sym (ap (λ (o : Drained × World T J X). o.1) same))
            (next (ran job).1 (sym (ap (λ (o : Drained × World T J X). o.0) same) ∙ h))
      further next job (ok unfinished) e d f =
          let same : (drained (suc fuel) world).0 ≡ out_of_fuel = rw (drain_once, d, f, e) refl in
          absurd (differs out_of_fuel (λ n. n) (sym same ∙ h))
      further next job (err x) e d f =
          let same : drained (suc fuel) world ≡ drained fuel (ran job).1 =
            rw (drain_once, d, f, e) refl in
          subst LastClaim (sym (ap (λ (o : Drained × World T J X). o.1) same))
            (next (ran job).1 (sym (ap (λ (o : Drained × World T J X). o.0) same) ∙ h))

      go :
          Next
          → (d : Option String) → ctx world.env ≡ d
          → (r : Result (Option ImportJob)) → (claimed world).0 ≡ r
          → LastClaim (drained (suc fuel) world).1
      go next (some message) e r f =
          let same : (drained (suc fuel) world).0 ≡ cancelled = rw (drain_once, e) refl in
          absurd (differs cancelled (λ n. n) (sym same ∙ h))
      go next none e (err x) f =
          let same : (drained (suc fuel) world).0 ≡ claim_failed = rw (drain_once, e, f) refl in
          absurd (differs claim_failed (λ n. n) (sym same ∙ h))
      go next none e (ok none) f = record {
        before = world;
        nothing = f;
        last = rw (drain_once, e, f) refl;
      }
      go next none e (ok (some job)) f = further next job (ran job).0 refl e f
