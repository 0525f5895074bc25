-- ===== src/Exec/Inversion.antt =====
-- What an action that succeeded did before.
use google_photos_picker.Base.{◌≡◌, ◌≢◌, refl, sym}
use google_photos_picker.Errors.{Error}
use google_photos_picker.Exec.{Result, ok, err, Exec, map_error, continue, ◌>>=◌}

pub ok_inj : {A : Type 0} {a b : A} → ok a ≡ ok b → a ≡ b
ok_inj h = cc

pub ok≢err : {A : Type 0} {a : A} {e : Error} → ok a ≢ err e
ok≢err h = cc

module _ {S A B : Type 0} where
  continue_ok :
      (r : Result A) (f : A → Exec S B) (s : S) (b : B)
      → (continue r f s).0 ≡ ok b
      → (a : A) × (r ≡ ok a) × ((f a s).0 ≡ ok b)
  continue_ok (ok a) f s b h = (a, refl, h)
  continue_ok (err e) f s b h = absurd (ok≢err (sym h))

  pub bind_ok :
      (m : Exec S A) (f : A → Exec S B) (s : S) (b : B)
      → ((m >>= f) s).0 ≡ ok b
      → (a : A) × ((m s).0 ≡ ok a) × ((f a (m s).1).0 ≡ ok b)
  bind_ok m f s b h = continue_ok (m s).0 f (m s).1 b h

pub map_error_ok :
    {A : Type 0} (f : Error → Error) (r : Result A) (a : A) → map_error f r ≡ ok a → r ≡ ok a
map_error_ok f (ok x) a h = h
map_error_ok f (err e) a h = cc
