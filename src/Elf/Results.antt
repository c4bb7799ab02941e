-- ===== src/Elf/Results.antt =====
-- Reasoning about the steps of a parser, each of which may end it with an error.
use mathlib.Core.Path.{subst}
use plinth_os.Base.{◌≡◌, refl, Bool, true, false, Option, none, some}
use plinth_os.Elf.{Parsed, parsed, failed, ElfError, ◌>>=◌, ok_or, require}

-- A result, if there is one, has the property.
unfoldable pub Holds {ℓ} : {A : Type ℓ} → (A → Type 0) → Parsed A → Type 0
Holds P (parsed a) = P a
Holds P (failed e) = Unit {0}

pub Holds-bind {ℓ ℓ'} :
    {A : Type ℓ} {B : Type ℓ'} (P : B → Type 0) (m : Parsed A) (f : A → Parsed B)
    → ((a : A) → m ≡ parsed a → Holds P (f a))
    → Holds P (m >>= f)
unfolding Holds ◌>>=◌
Holds-bind P (parsed a) f h = h a refl
Holds-bind P (failed e) f h = tt

pub Holds-require :
    {A : Type 0} (P : A → Type 0) (c : Bool) (e : ElfError) (m : Parsed A)
    → (c ≡ true → Holds P m)
    → Holds P (require c e >>= λ _. m)
unfolding Holds ◌>>=◌ require
Holds-require P true e m h = h refl
Holds-require P false e m h = tt

pub Holds-ok_or {ℓ} :
    {A : Type ℓ} {B : Type 0} (P : B → Type 0) (o : Option A) (e : ElfError) (f : A → Parsed B)
    → ((a : A) → o ≡ some a → Holds P (f a))
    → Holds P (ok_or o e >>= f)
unfolding Holds ◌>>=◌ ok_or
Holds-ok_or P none e f h = tt
Holds-ok_or P (some a) e f h = h a refl

pub Holds-parsed {ℓ} : {A : Type ℓ} (P : A → Type 0) (a : A) → P a → Holds P (parsed a)
unfolding Holds
Holds-parsed P a h = h

pub Holds-failed {ℓ} : {A : Type ℓ} (P : A → Type 0) (e : ElfError) → Holds P (failed e)
unfolding Holds
Holds-failed P e = tt

pub Holds-at {ℓ} :
    {A : Type ℓ} (P : A → Type 0) (m : Parsed A) (a : A) → m ≡ parsed a → Holds P m → P a
unfolding Holds
Holds-at P m a e h = subst (Holds P) e h
