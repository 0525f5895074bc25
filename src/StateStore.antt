-- ===== src/StateStore.antt =====
-- oauth.go, `stateStore`: the short-lived, single-use states of the OAuth dance, each bound to the
-- user who began it. Every method holds the mutex while it reads or writes the map, so a method
-- is one step. The goroutine `gcLoop` calls `sweep` at any time until it sees the store closed.
pub mod Lookup
pub mod Trace
mod Tests
use google_photos_picker.Base.{
  ℕ, ◌+◌, ◌*◌, String, Bool, true, false, not, ◌&&◌, Option, none, some, [], ltb, if◌then◌else◌,
  StringMap, lookup, insert, erase, retain, minute,
}
use google_photos_picker.Exec.{Exec, ok, err}
use google_photos_picker.System.{System}
use google_photos_picker.System.Base64.{encode}

abbrev pub state_ttl : ℕ
state_ttl = 10 * minute

pub record StateEntry : Type 0 where
  pub user_id : String
  pub expires_at : ℕ

pub record StateStore : Type 0 where
  pub entries : StringMap StateEntry
  pub stopped : Bool  -- the channel `stop` is closed
  pub collecting : Bool  -- the goroutine `gcLoop` has not returned

abbrev pub new_state_store : StateStore
new_state_store = record { entries = []; stopped = false; collecting = true }

-- `s.now().After(e.expiresAt)`
abbrev pub is_expired : ℕ → StateEntry → Bool
is_expired now e = ltb e.expires_at now

-- The entry that `create` writes once the state is drawn.
unfoldable pub put_state : String → String → ℕ → StateStore → StateStore
put_state state user_id now s = record s {
  entries = insert state (record { user_id = user_id; expires_at = now + state_ttl }) s.entries;
}

-- Whose state an entry is at time `now`, if it is still valid.
abbrev pub valid_user : ℕ → StateEntry → Option String
valid_user now e = if is_expired now e then none else some e.user_id

-- `consume` at time `now`: the user of the state, if there is one.
unfoldable pub consume : String → ℕ → StateStore → Option String × StateStore
consume state now s = elim (lookup state s.entries) [
  | none ↦ (none, s)
  | some e ↦ (valid_user now e, record s { entries = erase state s.entries })
]

unfoldable pub sweep : ℕ → StateStore → StateStore
sweep now s = record s { entries = retain (λ e. not (is_expired now e)) s.entries }

-- `Close`: closes the channel unless it is closed already, so a second call does no harm.
unfoldable pub close : StateStore → StateStore
close s = if s.stopped then s else record s { stopped = true }

-- One turn of `gcLoop` in which the ticker has fired. `select` takes either of two ready cases, so
-- with the store closed too it may still sweep; `chose_stop` is its choice.
unfoldable pub gc_tick : Bool → ℕ → StateStore → StateStore
gc_tick chose_stop now s =
    if s.collecting
    then (if s.stopped && chose_stop then record s { collecting = false } else sweep now s)
    else s

module _ {X : Type 0} (sys : System X) where
  -- `create`
  unfoldable pub create : String → Exec (StateStore × X) String
  create user_id (s, x) =
      let (drawn, x') = sys.random 32 x in
      elim drawn [
        | err e ↦ (err e, (s, x'))
        | ok buf ↦ (ok (encode buf), (put_state (encode buf) user_id (sys.now x') s, x'))
      ]
