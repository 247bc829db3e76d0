-- ===== src/Prelude/Outcome.antt =====
-- `anyhow::Result`: a value, or an error that carries its message; and stateful fallible methods
-- (`&mut self`, returning `Result`), whose writes stay made when they fail.
use Prim.Native.String.{String}
use mathlib.Core.Bool.{Bool, true, false}
use mathlib.Core.List.{List, [], ◌∷◌}
use mathlib.Core.Logic.{◌⊎◌, inl, inr}
use mathlib.Core.Option.{Option, none, some}
use mathlib.Core.Path.{◌≡◌, refl}

pub data Result {ℓ} (A : Type ℓ) : Type ℓ where
  ok : A → Result A
  err : String → Result A

infixl 5 ◌>>=◌ ◌>>◌
-- `r?` and then the rest of the function, with the value or, for `>>`, without one.
abbrev pub ◌>>=◌ {ℓ ℓ'} : {T : Type ℓ} {U : Type ℓ'} (r : Result T) (rest : T → Result U) → Result U
err message >>= rest = err message
ok value >>= rest = rest value

abbrev pub ◌>>◌ {ℓ} : {U : Type ℓ} (r : Result (Unit {0})) (rest : Result U) → Result U
r >> rest = r >>= λ done. rest

-- `ensure!(b, message)`
abbrev pub ensure : (b : Bool) (message : String) → Result (Unit {0})
ensure b message = elim b [ true ↦ ok tt | false ↦ err message ]

-- `option.context(message)`
abbrev pub context {ℓ} : {A : Type ℓ} → Option A → String → Result A
context none e = err e
context (some a) e = ok a

-- `for x in list { f(x)? }`
abbrev pub for_each {ℓ} : {A : Type ℓ} → (A → Result (Unit {0})) → List A → Result (Unit {0})
for_each f [] = ok tt
for_each f (x ∷ xs) = f x >> for_each f xs

abbrev pub is_ok {ℓ} : {A : Type ℓ} → Result A → Bool
is_ok (ok a) = true
is_ok (err e) = false

pub Result-cases {ℓ} :
    {A : Type ℓ} (r : Result A) → ((a : A) × (r ≡ ok a)) ⊎ ((e : String) × (r ≡ err e))
Result-cases (ok a) = inl (a, refl)
Result-cases (err e) = inr (e, refl)

-- `m?` and then `k`: an error returns at once, with the state as it is.
abbrev pub and_then {ℓ} : {S A B : Type ℓ} → Result A × S → (A → S → Result B × S) → Result B × S
and_then (ok a, s) k = k a s
and_then (err e, s) k = (err e, s)

-- The first of two methods in a row succeeds where both together do, and the second goes on from
-- the state that it leaves.
pub and_then-eq-ok {ℓ} :
    {S A B : Type ℓ} (m : Result A × S) (k : A → S → Result B × S) {b : B}
    → (and_then m k).0 ≡ ok b
    → (a : A) × (m.0 ≡ ok a) × (and_then m k ≡ k a m.1)
and_then-eq-ok (ok a, s) k h = (a, refl, refl)
and_then-eq-ok (err e, s) k h = cc

-- What the first of two methods leaves, and the second keeps, holds at the end, however it ends.
pub and_then-keeps {ℓ κ} :
    {S A B : Type ℓ} (P : S → Type κ) (m : Result A × S) (k : A → S → Result B × S)
    → P m.1
    → ((a : A) (s : S) → P s → P (k a s).1)
    → P (and_then m k).1
and_then-keeps P (ok a, s) k h keep = keep a s h
and_then-keeps P (err e, s) k h keep = h
