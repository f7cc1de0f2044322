-- ===== src/Common/Exec.antt =====
-- Methods that change a state and may fail: what was written before a failure stays written.
use mathlib.Core.Path.{◌≡◌, refl}
use elan.Common.Results.{Result, ok, err}

abbrev pub Exec : Type 0 → Type 0 → Type 0 → Type 0
Exec E S A = S → Result E A × S

abbrev pub continue_with : {E S A B : Type 0} → (A → Exec E S B) → Result E A × S → Result E B × S
continue_with f (ok a, s) = f a s
continue_with f (err e, s) = (err e, s)

infixl 5 ◌>>=◌ ◌>>◌
abbrev pub ◌>>=◌ : {E S A B : Type 0} → Exec E S A → (A → Exec E S B) → Exec E S B
◌>>=◌ m f s = continue_with f (m s)

abbrev pub ◌>>◌ : {E S B : Type 0} → Exec E S (Unit {0}) → Exec E S B → Exec E S B
m >> k = m >>= λ _. k

abbrev pub pure : {E S A : Type 0} → A → Exec E S A
pure a s = (ok a, s)

abbrev pub lift : {E S A : Type 0} → Result E A → Exec E S A
lift r s = (r, s)

continue_with-ok :
    {E S A B : Type 0} (f : A → Exec E S B) (p : Result E A × S) {b : B}
    → (continue_with f p).0 ≡ ok b
    → (a : A) × (p.0 ≡ ok a) × (continue_with f p ≡ f a p.1)
continue_with-ok f (ok a, s) h = (a, refl, refl)
continue_with-ok f (err e, s) h = cc

-- The steps of a run that ends well.
pub >>=-ran :
    {E S A B : Type 0} (m : Exec E S A) (f : A → Exec E S B) (s : S) {b : B}
    → ((m >>= f) s).0 ≡ ok b
    → (a : A) × ((m s).0 ≡ ok a) × ((m >>= f) s ≡ f a (m s).1)
>>=-ran m f s h = continue_with-ok f (m s) h
