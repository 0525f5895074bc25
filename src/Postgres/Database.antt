-- ===== src/Postgres/Database.antt =====
-- What the stores use of `database/sql` and of the server. The server, its driver and the network
-- are outside the program and enter as the record `Database`; the statements are the program's
-- own text, and are functions on a table here.
use Prim.Native.String.{count}
use google_photos_picker.Base.{
  ℕ, String, ◌≡◌, refl, sym, subst, ◌⊎◌, inl, inr, Bool, true, false, Option, none, some, leb,
  arith,
}
use google_photos_picker.Errors.{Error, other}
use google_photos_picker.Exec.{Result, ok, err, Exec, Context, ◌>>=◌, branch, continue, outside}
use google_photos_picker.Exec.Invariants.{Keeps, OnStore}

pub record Database (X : Type 0) : Type 0 where
  -- One statement on its way to the server and back: time passes, and the connection may fail, in
  -- which case the statement has had no effect.
  pub round_trip : X → Option String × X
  -- Once the server has run a statement, the answer may still be lost (a connection that breaks, a context
  -- that is cancelled): the caller then has an error, and the statement its effect.
  pub lost_answer : X → Option String
  pub accepts_text : String → Bool  -- a TEXT value: no NUL, and valid UTF-8
  pub now : X → ℕ  -- NOW()
  pub new_uuid : X → String × X  -- uuid.New().String()
  pub timestamptz : ℕ → ℕ  -- the instant that a TIMESTAMPTZ column keeps of a `time.Time`
  pub locked : X → String → Bool  -- the row of this id is locked by another transaction

abbrev pub answered : {A : Type 0} → Option String → Result A → Result A
answered (some text) r = err (other text)
answered none r = r

-- A statement whose way to the server ended so.
abbrev reached_server :
    {S X A : Type 0} → Database X → Option String → (X → Exec S A) → Exec (S × X) A
reached_server db (some text) run (s, x) = (err (other text), (s, x))
reached_server db none run (s, x) =
    let (r, s') = run x s in (answered (db.lost_answer x) r, (s', x))

abbrev send : {S X A : Type 0} → Database X → Option String → (X → Exec S A) → Exec (S × X) A
send db (some text) run (s, x) = (err (other text), (s, x))
send db none run (s, x) = let (r, x') = db.round_trip x in reached_server db r run (s, x')

-- `db.ExecContext` and `db.QueryRowContext` with the statement `run`, which sees the server's NOW().
-- With a context that is done, nothing is sent.
unfoldable pub statement :
    {S X A : Type 0} → Database X → Context X → (X → Exec S A) → Exec (S × X) A
statement db ctx run (s, x) = send db (ctx x) run (s, x)

-- No answer is lost: a statement that ran is known to have run.
abbrev pub Answers : {X : Type 0} → Database X → Type 0
Answers {X} db = (x : X) → db.lost_answer x ≡ none

-- The error with which a statement under `ctx` fails to reach the server at `x`, if it does.
unfoldable pub unreachable : {X : Type 0} → Database X → Context X → X → Option String
unreachable db ctx x = elim (ctx x) [ some text ↦ some text | none ↦ (db.round_trip x).0 ]

-- VARCHAR(n): a longer text is refused.
abbrev pub fits_varchar : ℕ → String → Bool
fits_varchar n s = leb (count s) n

abbrev pub value_too_long : Error
value_too_long = other "pq: value too long for type character varying"

abbrev pub invalid_byte_sequence : Error
invalid_byte_sequence = other "pq: invalid byte sequence for encoding \"UTF8\""

abbrev pub not_null_violation : Error
not_null_violation = other "pq: null value violates not-null constraint"

abbrev pub unique_violation : Error
unique_violation = other "pq: duplicate key value violates unique constraint"

abbrev pub out_of_range : Error
out_of_range = other "pq: integer out of range"

-- INT: 2 ^ 31 - 1 is the largest value of the column.
abbrev pub fits_int : ℕ → Bool
fits_int n = leb n 2147483647

-- Proof by the three ways for a statement to end: it was not run, it ran at some instant, or it ran
-- and its answer was lost.
pub statement_rule {ℓ} :
    {S X A : Type 0} (P : Result A → S → Type ℓ) (db : Database X) (ctx : Context X)
    (run : X → Exec S A) (s : S) (x : X)
    → ((text : String) → P (err (other text)) s)
    → ((y : X) → P (run y s).0 (run y s).1)
    → ((text : String) (y : X) → db.lost_answer y ≡ some text → P (err (other text)) (run y s).1)
    → P (statement db ctx run (s, x)).0 (statement db ctx run (s, x)).1.0
unfolding statement
statement_rule {X = X} P db ctx run s x failed ran lost = go (ctx x)
  where
    told :
        (l : Option String) (y : X) → db.lost_answer y ≡ l → P (answered l (run y s).0) (run y s).1
    told (some text) y e = lost text y e
    told none y e = ran y

    arrived :
        (r : Option String) (y : X)
        → P (reached_server db r run (s, y)).0 (reached_server db r run (s, y)).1.0
    arrived (some text) y = failed text
    arrived none y = told (db.lost_answer y) y refl

    go : (c : Option String) → P (send db c run (s, x)).0 (send db c run (s, x)).1.0
    go (some text) = failed text
    go none = arrived (db.round_trip x).0 (db.round_trip x).1

-- A statement keeps what its run keeps.
pub statement-Keeps {ℓ} :
    {S X A : Type 0} (P : S → Type ℓ) (db : Database X) (ctx : Context X) (run : X → Exec S A)
    → ((y : X) (s : S) → P s → P (run y s).1)
    → Keeps (OnStore P) (statement db ctx run)
statement-Keeps P db ctx run h = record {
  at = λ w p.
      statement_rule (λ r. P) db ctx run w.0 w.1 (λ text. p) (λ y. h y w.0 p)
        (λ text y e. h y w.0 p);
}

-- The caller got an error in place of what the server said.
pub record IsLost {X A : Type 0} (db : Database X) (r : Result A) : Type 0 where
  pub message : String
  pub instant : X
  pub lost : db.lost_answer instant ≡ some message
  pub failed : r ≡ err (other message)

-- What came of a call whose answer may be lost: `P` of what the server said, which the caller heard,
-- or an error in its place.
pub record Ran {X A S : Type 0} (db : Database X) (P : Result A → S → Type 0) (r : Result A) (s : S)
    : Type 0 where
  pub told : Result A
  pub holds : P told s
  pub heard : (r ≡ told) ⊎ IsLost db r

module _ {X A S : Type 0} {db : Database X} {P : Result A → S → Type 0} where
  pub heard_all : {r : Result A} {s : S} → P r s → Ran db P r s
  heard_all {r = r} p = record { told = r; holds = p; heard = inl refl }

  pub answer_lost :
      {s : S} (told : Result A) (text : String) (y : X)
      → db.lost_answer y ≡ some text
      → P told s
      → Ran db P (err (other text)) s
  answer_lost told text y e p = record {
    told = told;
    holds = p;
    heard = inr (record { message = text; instant = y; lost = e; failed = refl });
  }

  -- A success is what the server said.
  pub Ran-ok : {r : Result A} {s : S} {a : A} → r ≡ ok a → Ran db P r s → P r s
  Ran-ok {r = r} {s = s} {a = a} good ran = go ran.heard
    where
      go : (r ≡ ran.told) ⊎ IsLost db r → P r s
      go (inl same) = subst (λ q. P q s) (sym same) ran.holds
      go (inr l) = absurd (ground (arith, good, l.failed))

  -- Where no answer is lost, so is everything.
  pub Ran-answered : {r : Result A} {s : S} → Answers db → Ran db P r s → P r s
  Ran-answered {r = r} {s = s} answers ran = go ran.heard
    where
      go : (r ≡ ran.told) ⊎ IsLost db r → P r s
      go (inl same) = subst (λ q. P q s) (sym same) ran.holds
      go (inr l) = absurd (ground (arith, l.lost, answers l.instant))

-- Proof of what came of a statement, by the two ways for the server to end it.
pub statement-Ran :
    {S X A : Type 0} (P : Result A → S → Type 0) (db : Database X) (ctx : Context X)
    (run : X → Exec S A) (s : S) (x : X)
    → ((text : String) → P (err (other text)) s)
    → ((y : X) → P (run y s).0 (run y s).1)
    → Ran db P (statement db ctx run (s, x)).0 (statement db ctx run (s, x)).1.0
statement-Ran P db ctx run s x failed ran =
    statement_rule (Ran db P) db ctx run s x (λ text. heard_all (failed text))
      (λ y. heard_all (ran y)) (λ text y e. answer_lost (run y s).0 text y e (ran y))

-- Proof by the two ways for an action that calls outside first: the call failed, or gave a value.
pub outside_rule {ℓ} :
    {S X A B : Type 0} (P : Result B → S → Type ℓ) (m : Exec X A) (k : A → Exec (S × X) B) (s : S)
    (x : X)
    → ((e : Error) → P (err e) s)
    → ((a : A) (y : X) → (m x).0 ≡ ok a → P (k a (s, y)).0 (k a (s, y)).1.0)
    → P ((outside m >>= k) (s, x)).0 ((outside m >>= k) (s, x)).1.0
outside_rule {A = A} P m k s x failed gave = go (m x).0 refl
  where
    go : (r : Result A) → (m x).0 ≡ r → let w = continue r k (s, (m x).1) in P w.0 w.1.0
    go (ok a) h = gave a (m x).1 h
    go (err e) h = failed e

pub branch_rule {ℓ} :
    {S A : Type 0} (P : Result A × S → Type ℓ) (b : Bool) (m n : Exec S A) (s : S)
    → (b ≡ true → P (m s))
    → (b ≡ false → P (n s))
    → P (branch b m n s)
branch_rule P true m n s h k = h refl
branch_rule P false m n s h k = k refl
