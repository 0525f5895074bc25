-- ===== src/StateStore/Tests.antt =====
-- The theorems of the state store at concrete inputs, and runs of it.
use google_photos_picker.Base.{
  ◌≡◌, refl, ◌≤◌, ◌*◌, [], ◌∷◌, some, none, minute, second, lookup, insert, erase, retain, false,
}
use google_photos_picker.StateStore.{
  StateStore, new_state_store, put_state, consume, sweep, close, gc_tick,
}
use google_photos_picker.StateStore.Lookup.{IsValid, put_state-IsValid}
use google_photos_picker.StateStore.Trace.{
  Trace, issue, redeem, tick, stop, run, spec_run, nothing_issued, run-eq-spec_run, successes,
  successes-le-issues,
}

abbrev one_state : StateStore
one_state = put_state "s1" "alice" 1000 new_state_store

one_state-IsValid : IsValid one_state
one_state-IsValid = put_state-IsValid "s1" "alice" 1000 1000 new_state_store tt

-- The second use of a state, a late use and a use of an unknown state all fail.
abbrev day : Trace
day =
    (0, issue "a" "alice")
    ∷ (second, issue "b" "bob")
    ∷ (second, redeem "a")
    ∷ (second, redeem "a")
    ∷ (11 * minute, tick false)
    ∷ (second, redeem "b")
    ∷ (0, stop)
    ∷ (second, redeem "c")
    ∷ []

day_answers :
    run 1 new_state_store day ≡ ("a", some "alice") ∷ ("a", none) ∷ ("b", none) ∷ ("c", none) ∷ []
unfolding run put_state consume gc_tick sweep close lookup insert erase retain
day_answers = refl

run-eq-spec_run_example : run 1 new_state_store day ≡ spec_run 1 nothing_issued day
run-eq-spec_run_example = run-eq-spec_run 1 day

successes-le-issues_example : successes "a" (run 1 new_state_store day) ≤ 1
successes-le-issues_example = successes-le-issues "a" 1 day
