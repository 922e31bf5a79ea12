-- ===== src/Farm/Actors/Paths.antt =====
-- The path of a call to an actor, and how `serveActor` of
-- services/workplaces/farm/internal/farm/dapr.go cuts it.
use pipsim.Common.{ℕ, ◌≡◌, refl, some, [], ◌∷◌, ◌++◌, arith}
use pipsim.Common.Tests.{ℕ-Eq}
use pipsim.Common.Strings.{Bytes, Bytes-Eq, bytes_eq, bytes, decimal}
use pipsim.Common.Text.{
  split, trim, trim_left, join, split-join, Lacks, decimal-Lacks, Ends, trim_lem, Ends-append,
}
use pipsim.Farm.Actors.{
  Method, describe, can_employ, start_shift, work, end_shift, buy, method_name, method_of, slash,
  is_slash, actor_path,
}

decimal-Lacks-slash : (n : ℕ) → Lacks slash (decimal n)
decimal-Lacks-slash n = decimal-Lacks slash n (λ c digit. omega (arith, digit))

method_name-Lacks : (m : Method) → Lacks slash (method_name m)
method_name-Lacks describe = omega arith
method_name-Lacks can_employ = omega arith
method_name-Lacks start_shift = omega arith
method_name-Lacks work = omega arith
method_name-Lacks end_shift = omega arith
method_name-Lacks buy = omega arith

pub method_of-method_name : (m : Method) → method_of (method_name m) ≡ some m
unfolding method_of bytes_eq
method_of-method_name describe = refl
method_of-method_name can_employ = refl
method_of-method_name start_shift = refl
method_of-method_name work = refl
method_of-method_name end_shift = refl
method_of-method_name buy = refl

path_text : ℕ → Method → Bytes
path_text id m =
    join slash (bytes "actors") (bytes "farm" ∷ decimal id ∷ bytes "method" ∷ method_name m ∷ [])

actor_path-join : (id : ℕ) (m : Method) → actor_path id (method_name m) ≡ slash ∷ path_text id m
unfolding path_text
actor_path-join id m = refl

method_name-Ends : (m : Method) → Ends is_slash (slash ∷ method_name m)
method_name-Ends describe = refl
method_name-Ends can_employ = refl
method_name-Ends start_shift = refl
method_name-Ends work = refl
method_name-Ends end_shift = refl
method_name-Ends buy = refl

path_text-Ends : (id : ℕ) (m : Method) → Ends is_slash (path_text id m)
unfolding path_text
path_text-Ends id m =
    Ends-append is_slash (slash ∷ decimal id) (slash ∷ (bytes "method" ++ (slash ∷ method_name m)))
      (λ e. cc) (method_name-Ends m)

trim-slash : (s : Bytes) → trim is_slash (slash ∷ s) ≡ trim is_slash s
unfolding trim trim_left
trim-slash s = refl

pub parts_of_path :
    (id : ℕ) (m : Method)
    → split (trim is_slash (actor_path id (method_name m))) slash
      ≡ bytes "actors" ∷ bytes "farm" ∷ decimal id ∷ bytes "method" ∷ method_name m ∷ []
unfolding path_text
parts_of_path id m =
    rw
      (
        actor_path-join id m,
        trim-slash (path_text id m),
        trim_lem is_slash (path_text id m) refl (path_text-Ends id m),
      )
      (split-join slash (bytes "actors")
        (bytes "farm" ∷ decimal id ∷ bytes "method" ∷ method_name m ∷ []) (omega arith)
        (omega arith, (decimal-Lacks-slash id, (omega arith, (method_name-Lacks m, tt)))))
