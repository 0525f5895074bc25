-- ===== src/Exec/Invariants.antt =====
-- Invariants of actions: one rule for each way in which the program builds an action.
use google_photos_picker.Base.{Bool, true, false, ◌≡◌, refl}
use google_photos_picker.Errors.{Error}
use google_photos_picker.Exec.{
  Result, ok, err, Exec, pure, lift, outside, wrapping, branch, continue, ◌>>=◌,
}

-- The action keeps P, wherever it begins and however it ends.
pub record Keeps {ℓ} {S A : Type 0} (P : S → Type ℓ) (m : Exec S A) : Type ℓ where
  pub at : (s : S) → P s → P (m s).1

-- A predicate on the state of a store, beside the environment.
abbrev pub OnStore {ℓ} : {S X : Type 0} → (S → Type ℓ) → S × X → Type ℓ
OnStore P w = P w.0

module _ {ℓ} {S A : Type 0} (P : S → Type ℓ) where
  pub pure-Keeps : (a : A) → Keeps P (pure a)
  pure-Keeps a = record { at = λ s p. p }

  pub lift-Keeps : (r : Result A) → Keeps P (lift r)
  lift-Keeps r = record { at = λ s p. p }

  pub wrapping-Keeps : (f : Error → Error) {m : Exec S A} → Keeps P m → Keeps P (wrapping f m)
  wrapping-Keeps f k = record { at = λ s p. k.at s p }

  pub branch-Keeps : (b : Bool) (m n : Exec S A) → Keeps P m → Keeps P n → Keeps P (branch b m n)
  branch-Keeps true m n k l = record { at = λ s p. k.at s p }
  branch-Keeps false m n k l = record { at = λ s p. l.at s p }

pub outside-Keeps {ℓ} :
    {S X A : Type 0} (P : S → Type ℓ) (m : Exec X A) → Keeps (OnStore {X = X} P) (outside {S = S} m)
outside-Keeps P m = record { at = λ w p. p }

module _ {ℓ} {S A B : Type 0} (P : S → Type ℓ) where
  pub continue-Keeps :
      (r : Result A) (f : A → Exec S B)
      → ((a : A) → r ≡ ok a → Keeps P (f a))
      → Keeps P (continue r f)
  continue-Keeps (ok a) f k = record { at = λ s p. (k a refl).at s p }
  continue-Keeps (err e) f k = record { at = λ s p. p }

  pub bind-Keeps :
      {m : Exec S A} {f : A → Exec S B} → Keeps P m → ((a : A) → Keeps P (f a)) → Keeps P (m >>= f)
  bind-Keeps {m} {f} k l = record {
    at = λ s p. (continue-Keeps (m s).0 f (λ a _. l a)).at (m s).1 (k.at s p);
  }
