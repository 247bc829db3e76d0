-- ===== src/Bridge/Coordinator/View.antt =====
-- src/bridge.rs, `coordinate_with_control`: the view of its state that its invariant is about.
use niri_bridge.Prelude.{
  Result, and_then-keeps, ℕ, String, ◌≡◌, refl, ap, ◌∙◌, Bool, true, false, ◌&&◌, Option, none,
  some, List, [], ◌∷◌, arith,
}
use niri_bridge.Prelude.Action.{
  Action, ◌>>=◌, ◌>>◌, pure, done, fail, lift, get, modify, when, check, attempt, finally,
}
use niri_bridge.Receiver.{Receiver}
use niri_bridge.Bridge.Role.{Role, local, sending, receiving}
use niri_bridge.Bridge.Coordinator.{
  Coordinator, is_local_role, is_some, in_world, with_world, change_world, with_receiver, edge_at,
  edges_at,
}
use niri_bridge.Receiver.Safe.{IsSafe}
use niri_bridge.Prelude.Triple.{Leads, always}

-- The parts of the state that decide whether input flows.
pub record View (F : Type 0) : Type 0 where
  pub session : Option ℕ
  pub role : Role F
  pub local_ready : Bool
  pub peer_ready : Bool
  pub pending : Bool
  pub capture : Bool

abbrev pub view : {F S W P : Type 0} → Coordinator F S W P → View F
view c = record {
  session = c.receiver.session;
  role = c.role;
  local_ready = c.local_ready;
  peer_ready = c.peer_ready;
  pending = is_some c.pending_layout;
  capture = c.capture;
}

-- The receiver is in a session exactly in the role of receiving, with that role's session.
abbrev pub Agrees : {F : Type 0} → Option ℕ → Role F → Type 0
Agrees n local = n ≡ none
Agrees n (sending session sequence edge fraction) = n ≡ none
Agrees n (receiving session) = n ≡ some session

pub record IsValid {F : Type 0} (v : View F) : Type 0 where
  pub agrees : Agrees v.session v.role
  -- A session runs only while both sides are unlocked.
  pub unlocked : is_local_role v.role ≡ false → (v.local_ready && v.peer_ready) ≡ true
  -- While a layout is being changed there is neither a session nor a capture.
  pub quiet : v.pending ≡ true → (is_local_role v.role ≡ true) × (v.capture ≡ false)

-- Out of a session and without a capture.
abbrev pub IsHome : {F : Type 0} → View F → Type 0
IsHome v = (v.session ≡ none) × (v.role ≡ local) × (v.capture ≡ false)

pub home-IsValid : {F : Type 0} (v : View F) → IsHome v → IsValid v
home-IsValid v (session, role, capture) = record {
  agrees = rw role session;
  unlocked = λ h. ground (arith, role);
  quiet = λ h. (rw role refl, capture);
}

module _ {F S W P : Type 0} (down : S → ℕ → Bool) where
  abbrev pub Safe : Coordinator F S W P → Type 0
  Safe c = IsSafe down c.receiver

  pub record Sees (v : View F) (c : Coordinator F S W P) : Type 0 where
    pub safe : IsSafe down c.receiver
    pub sees : view c ≡ v

  pub record Sound (c : Coordinator F S W P) : Type 0 where
    pub safe : IsSafe down c.receiver
    pub valid : IsValid (view c)

  -- An action that keeps the view and the receiver's invariant, however it ends.
  pub record IsQuiet {A : Type 0} (action : Action (Coordinator F S W P) A) : Type 0 where
    pub keeps : (v : View F) (c : Coordinator F S W P) → Sees v c → Sees v (action c).1

  pub bind-IsQuiet :
      {A B : Type 0} {action : Action (Coordinator F S W P) A}
      {next : A → Action (Coordinator F S W P) B}
      → IsQuiet action
      → ((a : A) → IsQuiet (next a))
      → IsQuiet (action >>= next)
  unfolding ◌>>=◌
  bind-IsQuiet {action = action} {next = next} q k = record {
    keeps = λ v c h.
        and_then-keeps (Sees v) (action c) next (q.keeps v c h) (λ a t g. (k a).keeps v t g);
  }

  pub seq-IsQuiet :
      {A B : Type 0} {action : Action (Coordinator F S W P) A}
      {next : Action (Coordinator F S W P) B}
      → IsQuiet action
      → IsQuiet next
      → IsQuiet (action >> next)
  unfolding ◌>>◌
  seq-IsQuiet {action = action} {next = next} q k = record {
    keeps = λ v c h.
        and_then-keeps (Sees v) (action c) (λ _. next) (q.keeps v c h) (λ a t g. k.keeps v t g);
  }

  pub lift-IsQuiet : {A : Type 0} (r : Result A) → IsQuiet (lift r)
  unfolding lift
  lift-IsQuiet r = record { keeps = λ v c h. h }

  pub pure-IsQuiet : {A : Type 0} (a : A) → IsQuiet (pure a)
  unfolding pure
  pure-IsQuiet a = record { keeps = λ v c h. h }

  pub done-IsQuiet : IsQuiet done
  unfolding done
  done-IsQuiet = record { keeps = λ v c h. h }

  pub fail-IsQuiet : {A : Type 0} (message : String) → IsQuiet (fail {A = A} message)
  unfolding fail
  fail-IsQuiet message = record { keeps = λ v c h. h }

  pub get-IsQuiet : IsQuiet get
  unfolding get
  get-IsQuiet = record { keeps = λ v c h. h }

  pub check-IsQuiet : (b : Bool) (message : String) → IsQuiet (check b message)
  unfolding check lift
  check-IsQuiet b message = record { keeps = λ v c h. h }

  pub when-IsQuiet :
      (b : Bool) {action : Action (Coordinator F S W P) (Unit {0})}
      → IsQuiet action
      → IsQuiet (when b action)
  unfolding when
  when-IsQuiet true q = q
  when-IsQuiet false q = done-IsQuiet

  pub finally-IsQuiet :
      {A : Type 0} {action : Action (Coordinator F S W P) A}
      (last : Coordinator F S W P → Coordinator F S W P)
      → IsQuiet action
      → ((v : View F) (c : Coordinator F S W P) → Sees v c → Sees v (last c))
      → IsQuiet (finally action last)
  unfolding finally
  finally-IsQuiet {action = action} last q k = record {
    keeps = λ v c h. k v (action c).1 (q.keeps v c h);
  }

  pub in_world-IsQuiet : {A : Type 0} (f : W → Result A × W) → IsQuiet (in_world f)
  unfolding in_world
  in_world-IsQuiet f = record { keeps = λ v c h. record { safe = h.safe; sees = h.sees } }

  pub with_world-IsQuiet : {A : Type 0} (f : W → A × W) → IsQuiet (with_world f)
  unfolding with_world
  with_world-IsQuiet f = record { keeps = λ v c h. record { safe = h.safe; sees = h.sees } }

  pub change_world-IsQuiet : (f : W → W) → IsQuiet (change_world f)
  unfolding change_world
  change_world-IsQuiet f = record { keeps = λ v c h. record { safe = h.safe; sees = h.sees } }

  pub edge_at-IsQuiet : (index : ℕ) → IsQuiet (edge_at index)
  unfolding edge_at
  edge_at-IsQuiet index = record { keeps = λ v c h. h }

  pub edges_at-IsQuiet : (indices : List ℕ) → IsQuiet (edges_at indices)
  unfolding edges_at
  edges_at-IsQuiet [] = pure-IsQuiet []
  edges_at-IsQuiet (index ∷ indices) =
      bind-IsQuiet (edge_at-IsQuiet index)
        (λ edge. bind-IsQuiet (edges_at-IsQuiet indices) (λ edges. pure-IsQuiet (edge ∷ edges)))

  pub with_receiver-IsQuiet :
      {A : Type 0} (f : Receiver S → Result A × Receiver S)
      → ((r : Receiver S) → IsSafe down r → IsSafe down (f r).1)
      → ((r : Receiver S) → (f r).1.session ≡ r.session)
      → IsQuiet (with_receiver f)
  unfolding with_receiver
  with_receiver-IsQuiet f safe same = record {
    keeps = λ v c h. record {
      safe = safe c.receiver h.safe;
      sees = ap (λ n. record (view c) { session = n }) (same c.receiver) ∙ h.sees;
    };
  }

  -- A call that leaves the receiver with a session.
  pub with_receiver_session :
      {A : Type 0} (v : View F) (n : Option ℕ) (f : Receiver S → Result A × Receiver S)
      → ((r : Receiver S) → IsSafe down r → IsSafe down (f r).1)
      → ((c : Coordinator F S W P) → Sees v c → (f c.receiver).1.session ≡ n)
      → Leads Safe (Sees v) (with_receiver f) (λ _. Sees (record v { session = n }))
  unfolding with_receiver
  with_receiver_session v n f safe ends =
      always (λ c h. h.safe)
        (λ c h. record {
          safe = safe c.receiver h.safe;
          sees =
              ap (λ m. record (view c) { session = m }) (ends c h)
              ∙ ap (λ (u : View F). record u { session = n }) h.sees;
        })

  -- A call that ends the receiver's session.
  pub with_receiver-none :
      {A : Type 0} (v : View F) (f : Receiver S → Result A × Receiver S)
      → ((r : Receiver S) → IsSafe down r → IsSafe down (f r).1)
      → ((c : Coordinator F S W P) → Sees v c → (f c.receiver).1.session ≡ none)
      → Leads Safe (Sees v) (with_receiver f) (λ _. Sees (record v { session = none }))
  with_receiver-none v f safe ends = with_receiver_session v none f safe ends

  pub attempt-IsQuiet :
      {A : Type 0} {action : Action (Coordinator F S W P) A}
      → IsQuiet action
      → IsQuiet (attempt action)
  unfolding attempt
  attempt-IsQuiet q = record { keeps = q.keeps }

  pub modify-IsQuiet :
      (f : Coordinator F S W P → Coordinator F S W P)
      → ((v : View F) (c : Coordinator F S W P) → Sees v c → Sees v (f c))
      → IsQuiet (modify f)
  unfolding modify
  modify-IsQuiet f t = record { keeps = t }

  -- A quiet action within a handler.
  pub quietly :
      {A : Type 0} {action : Action (Coordinator F S W P) A} {v : View F}
      → IsQuiet action
      → Leads Safe (Sees v) action (λ _. Sees v)
  quietly {v = v} q = always (λ c h. h.safe) (q.keeps v)
