-- ===== src/Prelude/Triple.antt =====
-- What an action leaves, when it succeeds and when it fails.
use niri_bridge.Prelude.{
  if◌then◌else◌, Result, ok, err, ensure, and_then, String, ◌≡◌, refl, Bool, true, false, List, [],
  ◌∷◌,
}
use niri_bridge.Prelude.Action.{
  Action, ◌>>=◌, ◌>>◌, pure, done, fail, lift, get, modify, when, check, each,
}

module _ {S : Type 0} (E : S → Type 0) where
  -- `Q` of the value and the state after a success, `E` of the state after a failure.
  abbrev pub After : {A : Type 0} → (A → S → Type 0) → Result A × S → Type 0
  After Q (ok a, s) = Q a s
  After Q (err e, s) = E s

  -- From a state with `P`, the action succeeds with `Q`, or fails with `E`.
  pub record Leads {A : Type 0} (P : S → Type 0) (action : Action S A) (Q : A → S → Type 0)
      : Type 0 where
    pub runs : (s : S) → P s → After Q (action s)

  After-bind :
      {A B : Type 0} (Q : A → S → Type 0) (R : B → S → Type 0) (next : A → Action S B)
      (o : Result A × S)
      → After Q o
      → ((a : A) → Leads (Q a) (next a) R)
      → After R (and_then o next)
  After-bind Q R next (ok a, s) h k = (k a).runs s h
  After-bind Q R next (err e, s) h k = h

  pub bind :
      {A B : Type 0} {P : S → Type 0} {Q : A → S → Type 0} {R : B → S → Type 0}
      {action : Action S A} {next : A → Action S B}
      → Leads P action Q
      → ((a : A) → Leads (Q a) (next a) R)
      → Leads P (action >>= next) R
  unfolding ◌>>=◌
  bind {Q = Q} {R = R} {action = action} {next = next} first second = record {
    runs = λ s h. After-bind Q R next (action s) (first.runs s h) second;
  }

  pub seq :
      {A B : Type 0} {P Q : S → Type 0} {R : B → S → Type 0} {action : Action S A}
      {next : Action S B}
      → Leads P action (λ _. Q)
      → Leads Q next R
      → Leads P (action >> next) R
  unfolding ◌>>◌
  seq {Q = Q} {R = R} {action = action} {next = next} first second = record {
    runs = λ s h. After-bind (λ _. Q) R (λ _. next) (action s) (first.runs s h) (λ _. second);
  }

  After-weaken :
      {A : Type 0} (Q R : A → S → Type 0) (o : Result A × S)
      → ((a : A) (s : S) → Q a s → R a s)
      → After Q o
      → After R o
  After-weaken Q R (ok a, s) weaken h = weaken a s h
  After-weaken Q R (err e, s) weaken h = h

module _ {S : Type 0} {E : S → Type 0} where
  pub read :
      {B : Type 0} {P : S → Type 0} {R : B → S → Type 0} {next : S → Action S B}
      → ((s : S) → P s → Leads E P (next s) R)
      → Leads E P (get >>= next) R
  unfolding ◌>>=◌ get
  read k = record { runs = λ s h. (k s h).runs s h }

  -- A read of the state that what follows starts from, exactly.
  pub read_exact :
      {B : Type 0} {P : S → Type 0} {R : B → S → Type 0} {next : S → Action S B}
      → ((s : S) → P s → Leads E (λ t. t ≡ s) (next s) R)
      → Leads E P (get >>= next) R
  unfolding ◌>>=◌ get
  read_exact k = record { runs = λ s h. (k s h).runs s refl }

  pub before :
      {A : Type 0} {P P' : S → Type 0} {Q : A → S → Type 0} {action : Action S A}
      → ((s : S) → P' s → P s)
      → Leads E P action Q
      → Leads E P' action Q
  before weaken t = record { runs = λ s h. t.runs s (weaken s h) }

  pub after :
      {A : Type 0} {P : S → Type 0} {Q R : A → S → Type 0} {action : Action S A}
      → ((a : A) (s : S) → Q a s → R a s)
      → Leads E P action Q
      → Leads E P action R
  after {Q = Q} {R = R} {action = action} weaken t = record {
    runs = λ s h. After-weaken E Q R (action s) weaken (t.runs s h);
  }

  always-After :
      {A : Type 0} (R : S → Type 0) (o : Result A × S)
      → ((s : S) → R s → E s)
      → R o.1
      → After E (λ (_ : A). R) o
  always-After R (ok a, s) fails h = h
  always-After R (err e, s) fails h = fails s h

  -- An action that leaves `R`, however it ends.
  pub always :
      {A : Type 0} {P R : S → Type 0} {action : Action S A}
      → ((s : S) → R s → E s)
      → ((s : S) → P s → R (action s).1)
      → Leads E P action (λ _. R)
  always {R = R} {action = action} fails t = record {
    runs = λ s h. always-After R (action s) fails (t s h);
  }

  pub returns :
      {A : Type 0} {P : S → Type 0} {Q : A → S → Type 0} (a : A)
      → ((s : S) → P s → Q a s)
      → Leads E P (pure a) Q
  unfolding pure
  returns a t = record { runs = t }

  pub skips : {P Q : S → Type 0} → ((s : S) → P s → Q s) → Leads E P done (λ _. Q)
  unfolding done
  skips t = record { runs = t }

  pub modifies :
      {P Q : S → Type 0} (f : S → S) → ((s : S) → P s → Q (f s)) → Leads E P (modify f) (λ _. Q)
  unfolding modify
  modifies f t = record { runs = t }

  pub either :
      {P Q : S → Type 0} {action : Action S (Unit {0})} (b : Bool)
      → (b ≡ true → Leads E P action (λ _. Q))
      → (b ≡ false → (s : S) → P s → Q s)
      → Leads E P (when b action) (λ _. Q)
  unfolding when
  either true t f = t refl
  either false t f = skips (f refl)

  -- A result that is lifted keeps the state.
  pub lifts :
      {A : Type 0} {P : S → Type 0} (r : Result A)
      → ((s : S) → P s → E s)
      → Leads E P (lift r) (λ _. P)
  unfolding lift
  lifts r fails = always fails (λ s h. h)

  pub fails_with :
      {A : Type 0} {P : S → Type 0} {Q : A → S → Type 0} (message : String)
      → ((s : S) → P s → E s)
      → Leads E P (fail message) Q
  unfolding fail
  fails_with message f = record { runs = f }

  -- The two branches of a test.
  pub branch :
      {A : Type 0} {P : S → Type 0} {Q : A → S → Type 0} {x y : Action S A} (b : Bool)
      → (b ≡ true → Leads E P x Q)
      → (b ≡ false → Leads E P y Q)
      → Leads E P (if b then x else y) Q
  branch true t f = t refl
  branch false t f = f refl

  lift-After :
      {A : Type 0} (P : S → Type 0) (r : Result A) (s : S)
      → ((t : S) → P t → E t)
      → P s
      → After E (λ a t. P t × (r ≡ ok a)) (lift r s)
  unfolding lift
  lift-After P (ok a) s fails h = (h, refl)
  lift-After P (err e) s fails h = fails s h

  -- A result that is lifted is a value afterwards.
  pub lifted :
      {A : Type 0} {P : S → Type 0} (r : Result A)
      → ((s : S) → P s → E s)
      → Leads E P (lift r) (λ a s. P s × (r ≡ ok a))
  lifted {P = P} r fails = record { runs = λ s h. lift-After P r s fails h }

  pub confirmed :
      {P : S → Type 0} (r : Result (Unit {0}))
      → ((s : S) → P s → E s)
      → Leads E P (lift r) (λ _ s. P s × (r ≡ ok tt))
  confirmed r fails = after (λ _ s h. h) (lifted r fails)

  -- A fact that does not depend on the state.
  pub given :
      {A C : Type 0} {P : S → Type 0} {Q : A → S → Type 0} {action : Action S A}
      → (C → Leads E P action Q)
      → Leads E (λ s. P s × C) action Q
  given t = record { runs = λ s h. (t h.1).runs s h.0 }

  check-After :
      (P : S → Type 0) (b : Bool) (message : String) (s : S)
      → ((t : S) → P t → E t)
      → P s
      → After E (λ (_ : Unit {0}) t. P t × (b ≡ true)) (lift (ensure b message) s)
  unfolding lift
  check-After P true message s fails h = (h, refl)
  check-After P false message s fails h = fails s h

  -- A check that fails ends the block.
  pub stops :
      {B : Type 0} {P : S → Type 0} {R : B → S → Type 0} (next : Action S B) (message : String)
      → ((s : S) → P s → E s)
      → Leads E P (check false message >> next) R
  unfolding check lift ◌>>◌
  stops next message fails = record { runs = fails }

  -- What is checked holds afterwards.
  pub checks :
      {P : S → Type 0} (b : Bool) (message : String)
      → ((s : S) → P s → E s)
      → Leads E P (check b message) (λ _ s. P s × (b ≡ true))
  unfolding check
  checks {P = P} b message fails = record { runs = λ s h. check-After P b message s fails h }

  pub repeats :
      {A : Type 0} {P : S → Type 0} {f : A → Action S (Unit {0})} (xs : List A)
      → ((x : A) → Leads E P (f x) (λ _. P))
      → Leads E P (each f xs) (λ _. P)
  unfolding each
  repeats [] t = skips (λ s h. h)
  repeats {P = P} (x ∷ xs) t = seq E (t x) (repeats xs t)

-- What an outcome is known to be, weakened for a success and for a failure.
pub After-map :
    {S A : Type 0} (E E' : S → Type 0) (Q Q' : A → S → Type 0) (o : Result A × S)
    → After E Q o
    → ((s : S) → E s → E' s)
    → ((a : A) (s : S) → Q a s → Q' a s)
    → After E' Q' o
After-map E E' Q Q' (ok a, s) h fails works = works a s h
After-map E E' Q Q' (err e, s) h fails works = fails s h

After-same : {S A : Type 0} (I : S → Type 0) (o : Result A × S) → After I (λ _. I) o → I o.1
After-same I (ok a, s) h = h
After-same I (err e, s) h = h

-- What an action keeps, whether it succeeds or fails, holds after it.
pub kept :
    {S A : Type 0} (I : S → Type 0) (action : Action S A) (s : S)
    → Leads I I action (λ _. I)
    → I s
    → I (action s).1
kept I action s t h = After-same I (action s) (t.runs s h)
