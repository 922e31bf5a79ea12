-- ===== src/Connect.antt =====
-- What a Connect handler returns: a response, or an error with its code.
use pipsim.Common.{◌≡◌, ◌⊎◌, refl, inl, inr}

pub data Code : Type 0 where
  invalid_argument not_found unavailable unimplemented internal : Code

pub data Reply (A : Type 0) : Type 0 where
  ok : A → Reply A
  err : Code → Reply A

infixl 5 ◌>>=◌
abbrev pub ◌>>=◌ : {A B : Type 0} → Reply A → (A → Reply B) → Reply B
ok a >>= f = f a
err c >>= f = err c

pub Reply-cases : {A : Type 0} (r : Reply A) → ((c : Code) × (r ≡ err c)) ⊎ ((a : A) × (r ≡ ok a))
Reply-cases (err c) = inl (c, refl)
Reply-cases (ok a) = inr (a, refl)
