-- ===== src/Bridge/Coordinator/Keeps/Locks.antt =====
-- src/bridge.rs, `coordinate_with_control`: the state of the peer's session keeps the invariant.
use niri_bridge.Prelude.{
  if◌then◌else◌, ℕ, ◌≡◌, refl, ap, ◌∙◌, ◌⊎◌, inl, inr, Bool, true, false, not, none, arith,
}
use niri_bridge.Prelude.Action.{Action, ◌>>◌, when}
use niri_bridge.Float.{Float}
use niri_bridge.Receiver as Receiver
use niri_bridge.Receiver.{InputSink, Receiver, peer_lock}
use niri_bridge.Bridge.Role.{Role, local, sending, receiving, session_of}
use niri_bridge.Bridge.Coordinator.{World, Coordinator, with_receiver, set_role, stop_capture}
use niri_bridge.Receiver.Safe.{IsHonest}
use niri_bridge.Prelude.Triple.{Leads, seq, after, skips, modifies, either}
use niri_bridge.Bridge.Coordinator.View.{
  View, IsValid, home-IsValid, Safe, Sees, Sound, check-IsQuiet, when-IsQuiet, change_world-IsQuiet,
  with_receiver_session, quietly,
}
use niri_bridge.Bridge.Coordinator.Steps.{
  lands, reads, ends-Sound, set_role_lem, place_at-IsQuiet, send_end-IsQuiet, stop_capture_lem,
}
use niri_bridge.Receiver.Calls.{peer_lock-IsSafe}
use niri_bridge.Receiver.Leaves.{peer_lock-session}
use niri_bridge.Bridge.Coordinator.Frames.{return_locked, on_locked, on_lock_state}

module _ {F S W P : Type 0} ⦃fl : Float F⦄ (sk : InputSink F S) (down : S → ℕ → Bool)
    (honest : IsHonest sk down) (w : World F W P) where
  return_locked_lem :
      (role : Role F) (v : View F)
      → Leads
          (Safe down)
          (Sees down v)
          (return_locked sk w role)
          (λ _ c. Sees down v c ⊎ Sees down (record v { capture = false }) c)
  unfolding return_locked
  return_locked_lem local v = skips (λ c h. inl h)
  return_locked_lem (receiving session) v = skips (λ c h. inl h)
  return_locked_lem (sending session sequence edge fraction) v =
      after (λ _ c h. inr h)
        (seq (Safe down) (stop_capture_lem down sk honest w v) (
          reads down (λ c same.
            quietly down
              (when-IsQuiet down c.local_ready (place_at-IsQuiet down sk honest w edge fraction)))))

  either_state :
      {A : Type 0} {P1 P2 : Coordinator F S W P → Type 0} {R : A → Coordinator F S W P → Type 0}
      {action : Action (Coordinator F S W P) A}
      → Leads (Safe down) P1 action R
      → Leads (Safe down) P2 action R
      → Leads (Safe down) (λ c. P1 c ⊎ P2 c) action R
  either_state t u = record { runs = λ c h. elim h [ inl a ↦ t.runs c a | inr b ↦ u.runs c b ] }

  pub home_from :
      (v : View F)
      → v.session ≡ none
      → Leads
          (Safe down)
          (Sees down v)
          (set_role {S = S} {W = W} {P = P} local >> stop_capture sk w)
          (λ _. Sound down)
  home_from v out =
      ends-Sound down (home-IsValid _ (out, refl, refl))
        (seq (Safe down) (set_role_lem down v local) (stop_capture_lem down sk honest w _))

  on_locked_lem :
      (v : View F)
      → v.session ≡ none
      → Leads (Safe down) (Sees down v) (on_locked sk w) (λ _. Sound down)
  unfolding on_locked
  on_locked_lem v out = seq (Safe down) (quietly down (change_world-IsQuiet down w.suspend)) (
      reads down (λ c same.
        seq (Safe down) (quietly down (send_end-IsQuiet down sk honest w (session_of c.role))) (
          seq (Safe down) (return_locked_lem c.role v)
            (either_state (home_from v out) (home_from (record v { capture = false }) out)))))

  peer-IsValid : (v : View F) → IsValid v → IsValid (record v { peer_ready = true })
  peer-IsValid v valid = record {
    agrees = valid.agrees;
    unlocked = λ h. ground (arith, valid.unlocked h);
    quiet = valid.quiet;
  }

  peer_lock_lem :
      (v : View F) (b : Bool)
      → Leads
          (Safe down)
          (Sees down v)
          (with_receiver {W = W} {P = P} (Receiver.peer_lock sk b))
          (λ _. Sees down (record v { session = if b then none else v.session }))
  peer_lock_lem v b =
      with_receiver_session down v _ (Receiver.peer_lock sk b)
        (λ r. peer_lock-IsSafe sk down honest b r)
        (λ c h.
          peer_lock-session sk c.receiver down h.safe b
          ∙ ap (λ (u : View F). if b then none else u.session) h.sees)

  pub on_lock_state_lem :
      (locks : Bool) (v : View F)
      → IsValid v
      → Leads (Safe down) (Sees down v) (on_lock_state sk w locks) (λ _. Sound down)
  unfolding on_lock_state
  on_lock_state_lem locks v valid = reads down (λ c same.
      seq (Safe down) (quietly down (check-IsQuiet down _ "Touchpad negotiation is incomplete")) (
        seq (Safe down)
          (modifies _ (λ d h. record {
            safe = h.safe;
            sees = ap (λ (u : View F). record u { peer_ready = not locks }) h.sees;
          }))
          (seq (Safe down) (peer_lock_lem (record v { peer_ready = not locks }) locks)
            (last locks))))
    where
      last :
          (b : Bool)
          → Leads
              (Safe down)
              (Sees down (record v { peer_ready = not b; session = if b then none else v.session }))
              (when b (on_locked sk w))
              (λ _. Sound down)
      last false = either false (λ h. cc) (λ _ c h. lands down _ c (peer-IsValid v valid) h)
      last true = either true (λ _. on_locked_lem _ refl) (λ h. cc)
