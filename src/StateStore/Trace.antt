-- ===== src/StateStore/Trace.antt =====
-- The store over any sequence of calls, against its specification: a finite map from states to
-- users with a deadline, in which nothing is ever swept.
use google_photos_picker.Base.{
  ℕ, ◌+◌, ◌≤◌, String, ◌≡◌, refl, Bool, Option, none, some, List, [], ◌∷◌, ltb, if◌then◌else◌,
  arith, ◌==◌, eq_iff, Bool-cases, inl, inr, ◌∙◌, suc, lookup,
}
use google_photos_picker.StateStore.{
  StateStore, new_state_store, state_ttl, put_state, consume, close, gc_tick,
}
use google_photos_picker.StateStore.Lookup.{
  IsValid, consume-put_state, consume-put_state_ne, consume-consume, consume-consume_ne,
  consume-gc_tick, consume-close, put_state-IsValid, consume-IsValid, gc_tick-IsValid,
  close-IsValid,
}

-- A call, or a tick of the sweeper.
pub data Event : Type 0 where
  issue : String → String → Event  -- `create` drew this state for this user
  redeem : String → Event
  tick : Bool → Event  -- the ticker fired; the choice of `select`
  stop : Event

-- Each event comes with the time that passes before it, so time never runs backwards.
abbrev pub Trace : Type 0
Trace = List (ℕ × Event)

-- The answers of the calls of `consume`, in order, each with the state that was asked for.
abbrev pub Answers : Type 0
Answers = List (String × Option String)

unfoldable pub run : ℕ → StateStore → Trace → Answers
run now s [] = []
run now s ((wait, issue state user_id) ∷ es) =
    run (now + wait) (put_state state user_id (now + wait) s) es
run now s ((wait, redeem state) ∷ es) =
    (state, (consume state (now + wait) s).0) ∷ run (now + wait) (consume state (now + wait) s).1 es
run now s ((wait, tick b) ∷ es) = run (now + wait) (gc_tick b (now + wait) s) es
run now s ((wait, stop) ∷ es) = run (now + wait) (close s) es

-- The specification: each state has at most one user and a time until which it is good.
abbrev pub Spec : Type 0
Spec = String → Option (String × ℕ)

abbrev pub spec_answer : Option (String × ℕ) → ℕ → Option String
spec_answer none now = none
spec_answer (some (user_id, good_until)) now = if ltb good_until now then none else some user_id

abbrev pub spec_set : String → Option (String × ℕ) → Spec → Spec
spec_set state o f k = if state == k then o else f k

unfoldable pub spec_run : ℕ → Spec → Trace → Answers
spec_run now f [] = []
spec_run now f ((wait, issue state user_id) ∷ es) =
    spec_run (now + wait) (spec_set state (some (user_id, now + wait + state_ttl)) f) es
spec_run now f ((wait, redeem state) ∷ es) =
    (state, spec_answer (f state) (now + wait)) ∷ spec_run (now + wait) (spec_set state none f) es
spec_run now f ((wait, _) ∷ es) = spec_run (now + wait) f es

-- From time `now` on the store answers as the specification does.
record Refines (now : ℕ) (s : StateStore) (f : Spec) : Type 0 where
  valid : IsValid s
  agrees : (k : String) (t : ℕ) → now ≤ t → (consume k t s).0 ≡ spec_answer (f k) t

module _ (now wait : ℕ) (s : StateStore) (f : Spec) (r : Refines now s f) where
  abbrev at : ℕ
  at = now + wait

  Refines-issue :
      (state user_id : String)
      → Refines at
          (put_state state user_id at s)
          (spec_set state (some (user_id, at + state_ttl)) f)
  Refines-issue state user_id = record {
    valid = put_state-IsValid state user_id at at s r.valid;
    agrees = λ k t le. elim (Bool-cases (state == k)) [
      | inl same ↦ rw same (rw (← (eq_iff state k).0 same) (consume-put_state state user_id at t s))
      | inr differ ↦ rw differ (
          consume-put_state_ne state user_id at t s k (ground (arith, eq_iff state k))
          ∙ r.agrees k t (omega arith))
    ];
  }

  Refines-redeem : (state : String) → Refines at (consume state at s).1 (spec_set state none f)
  Refines-redeem state = record {
    valid = consume-IsValid state at s r.valid;
    agrees = λ k t le. elim (Bool-cases (state == k)) [
      | inl same ↦ rw same (rw (← (eq_iff state k).0 same) (consume-consume state at s t))
      | inr differ ↦ rw differ (
          consume-consume_ne state at s k t (ground (arith, eq_iff state k))
          ∙ r.agrees k t (omega arith))
    ];
  }

  Refines-tick : (b : Bool) → Refines at (gc_tick b at s) f
  Refines-tick b = record {
    valid = gc_tick-IsValid at s b r.valid;
    agrees = λ k t le. consume-gc_tick at s b k t r.valid le ∙ r.agrees k t (omega arith);
  }

  Refines-stop : Refines at (close s) f
  Refines-stop = record {
    valid = close-IsValid at s r.valid;
    agrees = λ k t le. consume-close t s k ∙ r.agrees k t (omega arith);
  }

run-Refines :
    (es : Trace) (now : ℕ) (s : StateStore) (f : Spec)
    → Refines now s f
    → run now s es ≡ spec_run now f es
unfolding run spec_run
run-Refines [] now s f r = refl
run-Refines ((wait, issue state user_id) ∷ es) now s f r =
    run-Refines es _ _ _ (Refines-issue now wait s f r state user_id)
run-Refines ((wait, redeem state) ∷ es) now s f r = cc (
  r.agrees state (now + wait) (omega arith),
  run-Refines es _ _ _ (Refines-redeem now wait s f r state),
)
run-Refines ((wait, tick b) ∷ es) now s f r = run-Refines es _ _ _ (Refines-tick now wait s f r b)
run-Refines ((wait, stop) ∷ es) now s f r = run-Refines es _ _ _ (Refines-stop now wait s f r)

abbrev pub nothing_issued : Spec
nothing_issued k = none

-- From an empty store, over any calls in any order, at any times and with the sweeper running at any
-- of them or stopped, every `consume` answers as the specification does: with the user the
-- state was last issued to, if no `consume` of it came since and at most state_ttl has passed.
pub run-eq-spec_run :
    (now : ℕ) (es : Trace) → run now new_state_store es ≡ spec_run now nothing_issued es
run-eq-spec_run now es =
    run-Refines es now new_state_store nothing_issued
      (record { valid = tt; agrees = λ k t le. unfold consume lookup in refl })

abbrev pub successes : String → Answers → ℕ
successes state [] = 0
successes state ((k, none) ∷ r) = successes state r
successes state ((k, some _) ∷ r) =
    if k == state then suc (successes state r) else successes state r

abbrev pub issues : String → Trace → ℕ
issues state [] = 0
issues state ((_, issue k _) ∷ es) = if k == state then suc (issues state es) else issues state es
issues state (_ ∷ es) = issues state es

abbrev held : Option (String × ℕ) → ℕ
held none = 0
held (some _) = 1

spec_successes :
    (state : String) (es : Trace) (now : ℕ) (f : Spec)
    → successes state (spec_run now f es) ≤ issues state es + held (f state)
unfolding spec_run
spec_successes state [] now f = omega arith
spec_successes state ((wait, issue k u) ∷ es) now f =
    ground (
      arith,
      spec_successes state es (now + wait) (spec_set k (some (u, now + wait + state_ttl)) f),
    )
spec_successes state ((wait, redeem k) ∷ es) now f =
    ground (arith, eq_iff k state, spec_successes state es (now + wait) (spec_set k none f))
spec_successes state ((wait, tick b) ∷ es) now f = spec_successes state es (now + wait) f
spec_successes state ((wait, stop) ∷ es) now f = spec_successes state es (now + wait) f

-- Single use: over any trace from an empty store, a state is accepted at most as often as it was
-- issued, so a state that was drawn once lets at most one callback in.
pub successes-le-issues :
    (state : String) (now : ℕ) (es : Trace)
    → successes state (run now new_state_store es) ≤ issues state es
successes-le-issues state now es =
    rw run-eq-spec_run (omega (arith, spec_successes state es now nothing_issued))
