-- ===== src/Prelude/Action.antt =====
-- Methods on one state, as actions: a failed one keeps what it wrote before, and ends the block.
use niri_bridge.Prelude.{
  Result, ok, err, ensure, and_then, String, Bool, true, false, List, [], ◌∷◌,
}

abbrev pub Action : Type 0 → Type 0 → Type 0
Action S A = S → Result A × S

infixl 5 ◌>>=◌ ◌>>◌
unfoldable pub ◌>>=◌ : {S A B : Type 0} → Action S A → (A → Action S B) → Action S B
◌>>=◌ action next s = and_then (action s) next

unfoldable pub ◌>>◌ : {S A B : Type 0} → Action S A → Action S B → Action S B
◌>>◌ action next s = and_then (action s) (λ done. next)

module _ {S : Type 0} where
  unfoldable pub pure : {A : Type 0} → A → Action S A
  pure a s = (ok a, s)

  unfoldable pub done : Action S (Unit {0})
  done s = (ok tt, s)

  unfoldable pub fail : {A : Type 0} → String → Action S A
  fail message s = (err message, s)

  unfoldable pub lift : {A : Type 0} → Result A → Action S A
  lift r s = (r, s)

  unfoldable pub get : Action S S
  get s = (ok s, s)

  unfoldable pub modify : (S → S) → Action S (Unit {0})
  modify f s = (ok tt, f s)

  unfoldable pub when : Bool → Action S (Unit {0}) → Action S (Unit {0})
  when true action = action
  when false action = done

  -- `ensure!`
  unfoldable pub check : Bool → String → Action S (Unit {0})
  check b message = lift (ensure b message)

  -- A closure's result as a value, in place of an error that ends the block.
  unfoldable pub attempt : {A : Type 0} → Action S A → Action S (Result A)
  attempt action s = let (r, t) = action s in (ok r, t)

  -- What is done at the end of a scope, also where the scope is left by an error.
  unfoldable pub finally : {A : Type 0} → Action S A → (S → S) → Action S A
  finally action last s = let (r, t) = action s in (r, last t)

  -- `for x in list { action(x)? }`
  unfoldable pub each : {A : Type 0} → (A → Action S (Unit {0})) → List A → Action S (Unit {0})
  each action [] = done
  each action (x ∷ xs) = action x >> each action xs

  -- What is done on an error only.
  unfoldable pub on_error : {A : Type 0} → Action S A → (S → S) → Action S A
  on_error action last s =
      let (r, t) = action s in elim r [ ok a ↦ (ok a, t) | err e ↦ (err e, last t) ]
