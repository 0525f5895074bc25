-- ===== src/Exec.antt =====
-- Go functions that return `(A, error)` and change a state. What was written before an error stays
-- written, so the state comes back beside the error too.
pub mod Invariants
pub mod Inversion
use google_photos_picker.Base.{◌≡◌, refl, ◌⊎◌, inl, inr, Option, String, Bool, if◌then◌else◌}
use google_photos_picker.Errors.{Error}

pub data Result {ℓ} (A : Type ℓ) : Type ℓ where
  ok : A → Result A
  err : Error → Result A

abbrev pub Exec : Type 0 → Type 0 → Type 0
Exec S A = S → Result A × S

module _ {S A : Type 0} where
  abbrev pub pure : A → Exec S A
  pure a s = (ok a, s)

  abbrev pub fail : Error → Exec S A
  fail e s = (err e, s)

  abbrev pub lift : Result A → Exec S A
  lift r s = (r, s)

  -- The outcome as a value: `v, err := m` where the code goes on after an error.
  abbrev pub attempt : Exec S A → Exec S (Result A)
  attempt m s = let (r, s') = m s in (ok r, s')

abbrev pub gets : {S A : Type 0} → (S → A) → Exec S A
gets f s = (ok (f s), s)

abbrev pub modify : {S : Type 0} → (S → S) → Exec S (Unit {0})
modify f s = (ok tt, f s)

-- `if b { m } else { n }`, which computes once it is given the state.
abbrev pub branch : {S A : Type 0} → Bool → Exec S A → Exec S A → Exec S A
branch b m n s = if b then m s else n s

abbrev pub continue : {S A B : Type 0} → Result A → (A → Exec S B) → Exec S B
continue (ok a) next s = next a s
continue (err e) next s = (err e, s)

infixl 5 ◌>>=◌ ◌>>◌
abbrev pub ◌>>=◌ : {S A B : Type 0} → Exec S A → (A → Exec S B) → Exec S B
◌>>=◌ m next s = let (r, after) = m s in continue r next after

abbrev pub ◌>>◌ : {S A B : Type 0} → Exec S A → Exec S B → Exec S B
m >> k = m >>= λ _. k

-- A call that touches the environment alone.
abbrev pub outside : {S X A : Type 0} → Exec X A → Exec (S × X) A
outside m (s, x) = let (r, x') = m x in (r, (s, x'))

-- The error path `return fmt.Errorf(…, err)`.
abbrev pub map_error {ℓ} : {A : Type ℓ} → (Error → Error) → Result A → Result A
map_error f (ok a) = ok a
map_error f (err e) = err (f e)

abbrev pub wrapping : {S A : Type 0} → (Error → Error) → Exec S A → Exec S A
wrapping f m s = let (r, s') = m s in (map_error f r, s')

-- `ctx.Err()`, asked of the environment: a context may be cancelled, or its deadline pass. The errors
-- of contexts are told apart by their texts, and none is one of this library's sentinels.
abbrev pub Context : Type 0 → Type 0
Context X = X → Option String

pub Result-cases {ℓ} :
    {A : Type ℓ} (r : Result A) → ((a : A) × (r ≡ ok a)) ⊎ ((e : Error) × (r ≡ err e))
Result-cases (ok a) = inl (a, refl)
Result-cases (err e) = inr (e, refl)

-- An outcome whose result is known, with the state that came with it.
pub with_state : {S A : Type 0} (o : Result A × S) (r : Result A) → o.0 ≡ r → o ≡ (r, o.1)
with_state o r h = λ i. (h i, o.1)
