-- ===== src/Common/Results.antt =====
-- `Result`: a value or the reason why there is none.
use mathlib.Core.Path.{◌≡◌, refl}
use mathlib.Core.Option.{Option, none, some}

pub data Result (E A : Type 0) : Type 0 where
  ok : A → Result E A
  err : E → Result E A

-- The `?` operator: what follows a value, if there is one.
abbrev pub bind : {E A B : Type 0} → Result E A → (A → Result E B) → Result E B
bind (ok a) next = next a
bind (err e) next = err e

-- `Option::ok_or`.
abbrev pub ok_or : {E A : Type 0} → Option A → E → Result E A
ok_or none e = err e
ok_or (some a) e = ok a

-- The value, if there is one, satisfies `P`.
abbrev pub WhenOk : {E A : Type 0} → (A → Type 0) → Result E A → Type 0
WhenOk P (ok a) = P a
WhenOk P (err e) = Unit

-- What holds whatever the first step gives holds of the chain.
pub bind_rule :
    {E A B : Type 0} (P : B → Type 0) (r : Result E A) (next : A → Result E B)
    → ((a : A) → r ≡ ok a → WhenOk P (next a))
    → WhenOk P (bind r next)
bind_rule P (ok a) next h = h a refl
bind_rule P (err e) next h = tt

-- The same of a value that is there.
pub of_WhenOk :
    {E A : Type 0} (P : A → Type 0) (r : Result E A) (a : A) → WhenOk P r → r ≡ ok a → P a
of_WhenOk P r a h e = rw e at h
