-- ===== src/StateStore/Lookup.antt =====
-- What `consume` answers after each operation of the store.
use google_photos_picker.Base.{
  ℕ, ◌+◌, ◌≤◌, String, ◌≡◌, ◌≢◌, Bool, not, none, some, ltb, if◌then◌else◌, arith, eq_iff, eq_refl,
  HasUniqueKeys, lookup-insert, lookup-erase, lookup-retain, insert-HasUniqueKeys,
  erase-HasUniqueKeys, retain-HasUniqueKeys,
}
use google_photos_picker.StateStore.{
  StateStore, state_ttl, put_state, consume, sweep, close, gc_tick, is_expired,
}

-- The map of the store lists no state twice.
abbrev pub IsValid : StateStore → Type 0
IsValid s = HasUniqueKeys s.entries

module _ (state user_id : String) (t now : ℕ) (s : StateStore) where
  -- A state that was issued to a user at time t answers with that user up to and including
  -- t + state_ttl, and with nobody later; whatever the store held before.
  pub consume-put_state :
      (consume state now (put_state state user_id t s)).0
      ≡ (if ltb (t + state_ttl) now then none else some user_id)
  unfolding consume put_state
  consume-put_state = ground (
    arith,
    lookup-insert state state (record { user_id = user_id; expires_at = t + state_ttl }) s.entries,
    eq_refl state,
  )

  -- Issuing one state changes no other state's answer.
  pub consume-put_state_ne :
      (other : String)
      → state ≢ other
      → (consume other now (put_state state user_id t s)).0 ≡ (consume other now s).0
  unfolding consume put_state
  consume-put_state_ne other h = ground (
    arith,
    lookup-insert state other (record { user_id = user_id; expires_at = t + state_ttl }) s.entries,
    eq_iff state other,
  )

  pub put_state-IsValid : IsValid s → IsValid (put_state state user_id t s)
  unfolding put_state
  put_state-IsValid h = insert-HasUniqueKeys state _ s.entries h

module _ (state : String) (now : ℕ) (s : StateStore) where
  -- A state is good for one `consume`, at whatever time, whether the first succeeded or not.
  pub consume-consume : (later : ℕ) → (consume state later (consume state now s).1).0 ≡ none
  unfolding consume
  consume-consume later = ground (arith, lookup-erase state state s.entries, eq_refl state)

  pub consume-consume_ne :
      (other : String) (later : ℕ)
      → state ≢ other
      → (consume other later (consume state now s).1).0 ≡ (consume other later s).0
  unfolding consume
  consume-consume_ne other later h =
      ground (arith, lookup-erase state other s.entries, eq_iff state other)

  pub consume-IsValid : IsValid s → IsValid (consume state now s).1
  unfolding consume
  consume-IsValid h = ground (arith, erase-HasUniqueKeys state s.entries h)

module _ (now : ℕ) (s : StateStore) where
  pub sweep-IsValid : IsValid s → IsValid (sweep now s)
  unfolding sweep
  sweep-IsValid h = retain-HasUniqueKeys _ s.entries h

  pub close-IsValid : IsValid s → IsValid (close s)
  unfolding close
  close-IsValid h = ground arith

  pub gc_tick-IsValid : (chose_stop : Bool) → IsValid s → IsValid (gc_tick chose_stop now s)
  unfolding gc_tick
  gc_tick-IsValid chose_stop h = ground (arith, sweep-IsValid h)

  -- No answer changes when the sweeper has run before: what it drops had expired.
  pub consume-sweep :
      (state : String) (later : ℕ)
      → IsValid s
      → now ≤ later
      → (consume state later (sweep now s)).0 ≡ (consume state later s).0
  unfolding consume sweep
  consume-sweep state later h le =
      ground (arith, lookup-retain state (λ e. not (is_expired now e)) s.entries h)

  pub consume-gc_tick :
      (chose_stop : Bool) (state : String) (later : ℕ)
      → IsValid s
      → now ≤ later
      → (consume state later (gc_tick chose_stop now s)).0 ≡ (consume state later s).0
  unfolding gc_tick consume
  consume-gc_tick chose_stop state later h le = ground (arith, consume-sweep state later h le)

  pub consume-close : (state : String) → (consume state now (close s)).0 ≡ (consume state now s).0
  unfolding close consume
  consume-close state = ground arith
