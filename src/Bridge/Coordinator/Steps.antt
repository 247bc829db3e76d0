-- ===== src/Bridge/Coordinator/Steps.antt =====
-- src/bridge.rs, `coordinate_with_control`: what its common steps do to the view of its state.
use niri_bridge.Prelude.{
  ℕ, ◌+◌, ◌≡◌, refl, sym, ap, ◌∙◌, ◌⊎◌, inl, inr, Bool, false, Option, none, some,
}
use niri_bridge.Prelude.Action.{Action, ◌>>=◌, get}
use niri_bridge.Float.{Float}
use niri_bridge.Protocol.Message.{Message}
use niri_bridge.Receiver as Receiver
use niri_bridge.Receiver.{InputSink, Receiver, end, position_on}
use niri_bridge.Bridge.Edges.{EdgeConfig}
use niri_bridge.Bridge.Role.{Role, local, sending, receiving, session_of}
use niri_bridge.Bridge.Coordinator.{
  World, Coordinator, is_local_role, is_sending_role, with_receiver, set_role, edge_at, send, rearm,
  drop_task, stop_capture, placement, place, place_back, send_end, leave,
}
use niri_bridge.Receiver.Safe.{IsHonest}
use niri_bridge.Prelude.Triple.{Leads, seq, read, after, skips, modifies, either}
use niri_bridge.Receiver.Leaves.{end_running, end_idle, position_on-session}
use niri_bridge.Receiver.Position.{position_on-IsSafe}
use niri_bridge.Receiver.Calls.{end-IsSafe}
use niri_bridge.Bridge.Coordinator.View.{
  View, view, Agrees, IsValid, Safe, Sees, Sound, IsQuiet, bind-IsQuiet, lift-IsQuiet, pure-IsQuiet,
  done-IsQuiet, in_world-IsQuiet, with_world-IsQuiet, edge_at-IsQuiet, with_receiver-IsQuiet,
  with_receiver-none, modify-IsQuiet, quietly,
}

-- One step to another role of the same kind.
abbrev pub SameKind : {F : Type 0} → Role F → Role F → Type 0
SameKind role next =
    (is_local_role next ≡ is_local_role role)
    × (is_sending_role next ≡ is_sending_role role)
    × ((n : Option ℕ) → Agrees n role → Agrees n next)

pub SameKind-IsValid :
    {F : Type 0} (v : View F) (next : Role F)
    → SameKind v.role next
    → IsValid v
    → IsValid (record v { role = next })
SameKind-IsValid v next (same, _, agrees) valid = record {
  agrees = agrees v.session valid.agrees;
  unlocked = λ h. valid.unlocked (sym same ∙ h);
  quiet = λ h. (same ∙ (valid.quiet h).0, (valid.quiet h).1);
}

pub local-IsValid :
    {F : Type 0} (v : View F) → IsValid v → v.session ≡ none → IsValid (record v { role = local })
local-IsValid v valid out = record {
  agrees = out;
  unlocked = λ h. cc;
  quiet = λ h. (refl, (valid.quiet h).1);
}

pub uncaptured-IsValid :
    {F : Type 0} (v : View F) → IsValid v → IsValid (record v { capture = false })
uncaptured-IsValid v valid = record {
  agrees = valid.agrees;
  unlocked = valid.unlocked;
  quiet = λ h. ((valid.quiet h).0, refl);
}

module _ {F S W P : Type 0} (down : S → ℕ → Bool) where
  pub lands : (v : View F) (c : Coordinator F S W P) → IsValid v → Sees down v c → Sound down c
  lands v c valid h = record { safe = h.safe; valid = rw h.sees valid }

  pub same_view : (v u : View F) (c : Coordinator F S W P) → v ≡ u → Sees down v c → Sees down u c
  same_view v u c e h = record { safe = h.safe; sees = h.sees ∙ e }

  -- A handler starts from some sound state.
  pub from_Sound :
      {A : Type 0} {Q : A → Coordinator F S W P → Type 0} {action : Action (Coordinator F S W P) A}
      → ((v : View F) → IsValid v → Leads (Safe down) (Sees down v) action Q)
      → Leads (Safe down) (Sound down) action Q
  from_Sound k = record {
    runs = λ c h. (k (view c) h.valid).runs c (record { safe = h.safe; sees = refl });
  }

  pub Agrees-of :
      (v : View F) (c : Coordinator F S W P) → IsValid v → view c ≡ v → Agrees v.session c.role
  Agrees-of v c valid same = rw (ap (λ (u : View F). u.role) same) valid.agrees

  -- What is read is the state's view.
  pub reads :
      {B : Type 0} {v : View F} {R : B → Coordinator F S W P → Type 0}
      {next : Coordinator F S W P → Action (Coordinator F S W P) B}
      → ((c : Coordinator F S W P) → view c ≡ v → Leads (Safe down) (Sees down v) (next c) R)
      → Leads (Safe down) (Sees down v) (get >>= next) R
  reads k = read (λ c h. k c h.sees)

  pub ends-Sound :
      {A : Type 0} {v : View F} {action : Action (Coordinator F S W P) A}
      {P : Coordinator F S W P → Type 0}
      → IsValid v
      → Leads (Safe down) P action (λ _. Sees down v)
      → Leads (Safe down) P action (λ _. Sound down)
  ends-Sound {v = v} valid t = after (λ _ c h. lands v c valid h) t

  pub Sound-quietly :
      {A : Type 0} {action : Action (Coordinator F S W P) A}
      → IsQuiet down action
      → Leads (Safe down) (Sound down) action (λ _. Sound down)
  Sound-quietly q = from_Sound (λ v valid. ends-Sound valid (quietly down q))

  pub set_role_lem :
      (v : View F) (role : Role F)
      → Leads
          (Safe down)
          (Sees down v)
          (set_role {W = W} {P = P} role)
          (λ _. Sees down (record v { role = role }))
  unfolding set_role
  set_role_lem v role = record {
    runs = λ c h. record {
      safe = h.safe;
      sees = ap (λ (u : View F). record u { role = role }) h.sees;
    };
  }

  module _ ⦃fl : Float F⦄ (sk : InputSink F S) (honest : IsHonest sk down) (w : World F W P) where
    pub send-IsQuiet : (message : Message F) → IsQuiet down (send {S = S} sk w message)
    unfolding send
    send-IsQuiet message = in_world-IsQuiet down (w.send message)

    pub rearm-IsQuiet : IsQuiet down (rearm sk w)
    unfolding rearm
    rearm-IsQuiet = bind-IsQuiet down (with_world-IsQuiet down w.now) (λ t.
        modify-IsQuiet down (λ c. record c { rearm_at = t + 150 })
          (λ v c h. record { safe = h.safe; sees = h.sees }))

    pub placement-IsQuiet :
        (edge : EdgeConfig F) (fraction : F) → IsQuiet down (placement {S = S} sk w edge fraction)
    unfolding placement
    placement-IsQuiet edge fraction =
        bind-IsQuiet down (in_world-IsQuiet down w.outputs) (λ outputs.
          bind-IsQuiet down (lift-IsQuiet down _) (λ output.
            bind-IsQuiet down (lift-IsQuiet down _)
              (λ logical. bind-IsQuiet down (lift-IsQuiet down _) (λ point. pure-IsQuiet down _))))

    pub place-IsQuiet :
        (edge : EdgeConfig F) (fraction : F) → IsQuiet down (place sk w edge fraction)
    unfolding place
    place-IsQuiet edge fraction = bind-IsQuiet down (placement-IsQuiet edge fraction) (λ event.
        with_receiver-IsQuiet down (Receiver.position_on sk edge.output event)
          (λ r. position_on-IsSafe sk down honest edge.output event r)
          (λ r. position_on-session sk r edge.output event))

    pub place_at-IsQuiet :
        (index : ℕ) (fraction : F)
        → IsQuiet down (edge_at index >>= λ selected. place sk w selected fraction)
    place_at-IsQuiet index fraction =
        bind-IsQuiet down (edge_at-IsQuiet down index) (λ selected. place-IsQuiet selected fraction)

    pub place_back-IsQuiet : (role : Role F) → IsQuiet down (place_back sk w role)
    unfolding place_back
    place_back-IsQuiet local = done-IsQuiet down
    place_back-IsQuiet (receiving session) = done-IsQuiet down
    place_back-IsQuiet (sending session sequence edge fraction) = place_at-IsQuiet edge fraction

    pub send_end-IsQuiet : (session : Option ℕ) → IsQuiet down (send_end {S = S} sk w session)
    unfolding send_end
    send_end-IsQuiet none = done-IsQuiet down
    send_end-IsQuiet (some session) = send-IsQuiet (Message.end session none)

    pub stop_capture_lem :
        (v : View F)
        → Leads
            (Safe down)
            (Sees down v)
            (stop_capture sk w)
            (λ _. Sees down (record v { capture = false }))
    unfolding stop_capture drop_task
    stop_capture_lem v = reads (λ c same.
        either c.capture
          (λ _.
            seq (Safe down)
              (modifies _ (λ d h. record {
                safe = h.safe;
                sees = ap (λ (u : View F). record u { capture = false }) h.sees;
              }))
              (quietly down (in_world-IsQuiet down w.stop_task)))
          (λ off d h.
            same_view v (record v { capture = false }) d
              (ap (λ b. record v { capture = b }) (ap (λ (u : View F). u.capture) (sym same) ∙ off))
              h))

    end-runs :
        (v : View F) (s : ℕ) (c : Coordinator F S W P)
        → (v.session ≡ none) ⊎ (v.session ≡ some s)
        → Sees down v c
        → (Receiver.end sk s c.receiver).1.session ≡ none
    end-runs v s c (inl out) h =
        rw (end_idle sk c.receiver s (ap (λ (u : View F). u.session) h.sees ∙ out))
          (ap (λ (u : View F). u.session) h.sees ∙ out)
    end-runs v s c (inr runs) h =
        end_running sk c.receiver s (ap (λ (u : View F). u.session) h.sees ∙ runs)

    pub end_lem :
        (v : View F) (s : ℕ)
        → (v.session ≡ none) ⊎ (v.session ≡ some s)
        → Leads
            (Safe down)
            (Sees down v)
            (with_receiver {W = W} {P = P} (Receiver.end sk s))
            (λ _. Sees down (record v { session = none }))
    end_lem v s n =
        with_receiver-none down v (Receiver.end sk s) (λ r. end-IsSafe sk down honest s r)
          (λ c h. end-runs v s c n h)

    pub leave_lem :
        (v : View F) (role : Role F)
        → Agrees v.session role
        → Leads
            (Safe down)
            (Sees down v)
            (leave sk w (session_of role))
            (λ _. Sees down (record v { session = none }))
    unfolding leave session_of
    leave_lem v local agrees =
        skips (λ c h. same_view v _ c (ap (λ n. record v { session = n }) agrees) h)
    leave_lem v (sending session sequence edge fraction) agrees =
        seq (Safe down) (end_lem v session (inl agrees))
          (quietly down (send-IsQuiet (Message.end session none)))
    leave_lem v (receiving session) agrees =
        seq (Safe down) (end_lem v session (inr agrees))
          (quietly down (send-IsQuiet (Message.end session none)))
