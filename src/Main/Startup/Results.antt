-- ===== src/Main/Startup/Results.antt =====
-- main.go: steps of the start that may end it with an error.
use gospidertrap.Common.{◌≡◌, refl, Bool, true, false, Option, none, some, Text, if◌then◌else◌}
use gospidertrap.Main.Wordlist.{Result, ok, error}
use gospidertrap.Main.Startup.{and_then, unless_error, stop_on}

pub and_then-ok {ℓ} :
    {A : Type ℓ} {B : Type ℓ} (r : Result A) (f : A → Result B) (b : B)
    → and_then r f ≡ ok b
    → (a : A) × (r ≡ ok a) × (f a ≡ ok b)
and_then-ok (ok a) f b e = (a, refl, e)
and_then-ok (error m) f b e = cc e

pub and_then_ok {ℓ} :
    {A : Type ℓ} {B : Type ℓ} (r : Result A) (f : A → Result B) (a : A) (b : B)
    → r ≡ ok a
    → f a ≡ ok b
    → and_then r f ≡ ok b
and_then_ok r f a b e h = rw e h

pub unless_error-ok :
    (message : Text) (check : Option Text) (a : Text)
    → unless_error message check ≡ ok a
    → check ≡ none
unless_error-ok message none a e = refl
unless_error-ok message (some m) a e = cc e

pub stop_on-ok : (check : Option Text) (a : Text) → stop_on check ≡ ok a → check ≡ none
stop_on-ok none a e = refl
stop_on-ok (some m) a e = cc e

-- What holds of the value, if there is one.
abbrev pub Gives {ℓ} : {A : Type ℓ} → (A → Type ℓ) → Result A → Type ℓ
Gives P (ok a) = P a
Gives P (error e) = Unit

pub gives {ℓ} : {A : Type ℓ} (P : A → Type ℓ) (r : Result A) (a : A) → r ≡ ok a → Gives P r → P a
gives P r a e h = rw e at h

pub and_then-Gives {ℓ} :
    {A : Type ℓ} {B : Type ℓ} (P : B → Type ℓ) (r : Result A) (f : A → Result B)
    → ((a : A) → Gives P (f a))
    → Gives P (and_then r f)
and_then-Gives P (ok a) f h = h a
and_then-Gives P (error e) f h = tt

pub weaken-Gives {ℓ} :
    {A : Type ℓ} (P Q : A → Type ℓ) (r : Result A) → ((a : A) → P a → Q a) → Gives P r → Gives Q r
weaken-Gives P Q (ok a) f h = f a h
weaken-Gives P Q (error e) f h = tt

pub if-Gives {ℓ} :
    {A : Type ℓ} (P : A → Type ℓ) (b : Bool) (x y : Result A)
    → (b ≡ true → Gives P x)
    → (b ≡ false → Gives P y)
    → Gives P (if b then x else y)
if-Gives P true x y h k = h refl
if-Gives P false x y h k = k refl

pub if_ok {ℓ} :
    {A : Type ℓ} (b : Bool) (x y : Result A)
    → (a : A) × (x ≡ ok a)
    → (a : A) × (y ≡ ok a)
    → (a : A) × ((if b then x else y) ≡ ok a)
if_ok true x y h k = h
if_ok false x y h k = k
