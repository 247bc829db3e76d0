-- ===== src/Bridge/Coordinator/Sending.antt =====
-- src/bridge.rs, `coordinate_with_control`: what is sent in a session keeps the invariant.
use niri_bridge.Prelude.{
  Result, ok, err, ℕ, ◌≡◌, refl, sym, ap, ◌∙◌, inl, inr, Bool, true, Option, none, some,
}
use niri_bridge.Float.{Float}
use niri_bridge.Protocol.Event.{InputEvent}
use niri_bridge.Receiver.{InputSink, checked_next}
use niri_bridge.Bridge.Role.{Role, local, sending, receiving, Sender, forward_keyboard}
use niri_bridge.Bridge.Coordinator.{
  World, Coordinator, is_sending_role, next_sequence, send_as, send_input, forward,
}
use niri_bridge.Bridge.Role.Kind.{asks, forward_keyboard-idle, forward_keyboard-sending}
use niri_bridge.Receiver.Safe.{IsHonest}
use niri_bridge.Prelude.Triple.{After, Leads, seq, skips}
use niri_bridge.Bridge.Coordinator.View.{
  View, view, IsValid, Safe, Sees, Sound, fail-IsQuiet, quietly,
}
use niri_bridge.Bridge.Coordinator.Steps.{
  SameKind, SameKind-IsValid, lands, from_Sound, reads, ends-Sound, set_role_lem, send-IsQuiet,
}

-- Another number of the same sending session.
renumbers :
    {F : Type 0} (role next : Role F) (session sequence edge n : ℕ) (fraction : F)
    → role ≡ sending session sequence edge fraction
    → next ≡ sending session n edge fraction
    → SameKind role next
renumbers role next session sequence edge n fraction e e' =
    rw (e, e') (refl, refl, λ m agrees. agrees)

stays : {F : Type 0} (role next : Role F) → next ≡ role → SameKind role next
stays role next e = rw e (refl, refl, λ m agrees. agrees)

module _ {F S W P : Type 0} ⦃fl : Float F⦄ (sk : InputSink F S) (down : S → ℕ → Bool)
    (honest : IsHonest sk down) (w : World F W P) where
  send_as_lem :
      (role : Role F) (v : View F) (event : InputEvent F)
      → v.role ≡ role
      → IsValid v
      → Leads (Safe down) (Sees down v) (send_as sk w role event) (λ _. Sound down)
  unfolding send_as next_sequence
  send_as_lem local v event e valid = skips (λ c h. lands down v c valid h)
  send_as_lem (receiving session) v event e valid = skips (λ c h. lands down v c valid h)
  send_as_lem (sending session sequence edge fraction) v event e valid =
      seq (Safe down) (quietly down (send-IsQuiet down sk honest w _))
        (next_lem (checked_next sequence))
    where
      next_lem :
          (next : Option ℕ)
          → Leads
              (Safe down)
              (Sees down v)
              (next_sequence sk w next session edge fraction)
              (λ _. Sound down)
      next_lem none =
          ends-Sound down valid (quietly down (fail-IsQuiet down "Input sequence exhausted"))
      next_lem (some n) =
          ends-Sound down
            (SameKind-IsValid v (sending session n edge fraction)
              (renumbers v.role _ session sequence edge n fraction e refl) valid)
            (set_role_lem down v (sending session n edge fraction))

  pub send_input_lem :
      (event : InputEvent F)
      → Leads (Safe down) (Sound down) (send_input sk w event) (λ _. Sound down)
  unfolding send_input
  send_input_lem event = from_Sound down (λ v valid.
      reads down
        (λ c same. send_as_lem c.role v event (sym (ap (λ (u : View F). u.role) same)) valid))

  -- The coordinator after `forward_keyboard`.
  abbrev sender : Coordinator F S W P → Sender F W
  sender c = record { role = c.role; held = c.source_keys; writer = c.world }

  forward-kind :
      (event : InputEvent F) (c : Coordinator F S W P) (role : Role F)
      → c.role ≡ role
      → SameKind c.role (forward_keyboard w.send event (sender c)).1.role
        × (asks (forward_keyboard w.send event (sender c)).0 ≡ true → is_sending_role c.role ≡ true)
  forward-kind event c local e =
      let (quiet, same) = forward_keyboard-idle w.send event (sender c) (rw e refl) in
      (stays _ _ same, λ h. cc)
  forward-kind event c (receiving session) e =
      let (quiet, same) = forward_keyboard-idle w.send event (sender c) (rw e refl) in
      (stays _ _ same, λ h. cc)
  forward-kind event c (sending session sequence edge fraction) e = (
    elim (forward_keyboard-sending w.send session sequence edge fraction event (sender c) e) [
      | inl same ↦ stays _ _ same
      | inr (n, next) ↦ renumbers c.role _ session sequence edge n fraction e next
    ],
    λ h. rw e refl,
  )

  forward-After :
      (v : View F) (c : Coordinator F S W P) (o : Result Bool × Sender F W)
      → IsValid v
      → Sees down v c
      → SameKind c.role o.1.role
      → (asks o.0 ≡ true → is_sending_role c.role ≡ true)
      → After
          (Safe down)
          (λ b d. Sound down d × (b ≡ true → is_sending_role d.role ≡ true))
          (o.0, record c { role = o.1.role; source_keys = o.1.held; world = o.1.writer })
  forward-After v c (ok b, s) valid h kind asked = (
    record { safe = h.safe; valid = SameKind-IsValid (view c) s.role kind (rw h.sees valid) },
    λ e. kind.1 ∙ asked e,
  )
  forward-After v c (err e, s) valid h kind asked = h.safe

  -- A call of `forward_keyboard` asks for the end of the session only in the role of sending.
  pub forward_lem :
      (event : InputEvent F)
      → Leads
          (Safe down)
          (Sound down)
          (forward sk w event)
          (λ b c. Sound down c × (b ≡ true → is_sending_role c.role ≡ true))
  unfolding forward
  forward_lem event = from_Sound down (λ v valid. record {
    runs = λ c h.
        let (kind, asked) = forward-kind event c c.role refl in
        forward-After v c (forward_keyboard w.send event (sender c)) valid h kind asked;
  })
