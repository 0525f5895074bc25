-- ===== src/System.antt =====
-- What the process takes from its surroundings: the clock and the random source. `X` is the state
-- of everything outside the program (the network, Google, the database server, time).
pub mod Base64
use google_photos_picker.Base.{ℕ, ◌+◌, String, List, Option, some, none, leb, if◌then◌else◌}
use google_photos_picker.Exec.{Exec, Context}

pub record System (X : Type 0) : Type 0 where
  pub now : X → ℕ  -- time.Now
  pub random : ℕ → Exec X (List ℕ)  -- crypto/rand: so many random bytes, or an error

-- context.DeadlineExceeded
abbrev pub deadline_exceeded : String
deadline_exceeded = "context deadline exceeded"

-- `context.WithTimeout(ctx, timeout)` called at time `start`.
unfoldable pub with_timeout : {X : Type 0} → System X → Context X → ℕ → ℕ → Context X
with_timeout sys ctx start timeout x = elim (ctx x) [
  | some e ↦ some e
  | none ↦ if leb (start + timeout) (sys.now x) then some deadline_exceeded else none
]
