-- ===== src/Bridge/Coordinator/Keeps/Ends.antt =====
-- src/bridge.rs, `coordinate_with_control`: the end of a session by the peer keeps the invariant.
use niri_bridge.Prelude.{
  ==_iff, ℕ, ◌≡◌, refl, ap, ◌∙◌, ◌⊎◌, inl, inr, Bool, true, Option, none, some, List,
}
use niri_bridge.Float.{Float}
use niri_bridge.Protocol.Message.{EdgePosition}
use niri_bridge.Receiver.{InputSink}
use niri_bridge.Bridge.Role.{Role, local, sending, receiving, session_of}
use niri_bridge.Bridge.Coordinator.{World}
use niri_bridge.Receiver.Safe.{IsHonest}
use niri_bridge.Prelude.Triple.{Leads, seq, either}
use niri_bridge.Bridge.Coordinator.View.{
  View, Agrees, home-IsValid, Safe, Sound, IsQuiet, bind-IsQuiet, seq-IsQuiet, lift-IsQuiet,
  pure-IsQuiet, done-IsQuiet, get-IsQuiet, check-IsQuiet, when-IsQuiet, edge_at-IsQuiet, quietly,
}
use niri_bridge.Bridge.Coordinator.Steps.{
  lands, from_Sound, Agrees-of, reads, ends-Sound, set_role_lem, rearm-IsQuiet, place-IsQuiet,
  stop_capture_lem, end_lem,
}
use niri_bridge.Bridge.Coordinator.Frames.{return_place, return_pointer, is_current, on_end}

module _ {F S W P : Type 0} ⦃fl : Float F⦄ (sk : InputSink F S) (down : S → ℕ → Bool)
    (honest : IsHonest sk down) (w : World F W P) where
  return_place-IsQuiet :
      (edge : ℕ) (fraction : F) (exit : Option (EdgePosition F)) (available : List ℕ)
      → IsQuiet down (return_place {S = S} sk w edge fraction exit available)
  unfolding return_place
  return_place-IsQuiet edge fraction none available =
      bind-IsQuiet down (edge_at-IsQuiet down edge) (λ selected. pure-IsQuiet down _)
  return_place-IsQuiet edge fraction (some exit) available =
      bind-IsQuiet down (get-IsQuiet down) (λ c. bind-IsQuiet down (lift-IsQuiet down _) (λ found.
        seq-IsQuiet down (check-IsQuiet down _ "Return edge is unavailable") (pure-IsQuiet down _)))

  return_pointer-IsQuiet :
      (role : Role F) (exit : Option (EdgePosition F)) (available : List ℕ)
      → IsQuiet down (return_pointer sk w role exit available)
  unfolding return_pointer
  return_pointer-IsQuiet local exit available = done-IsQuiet down
  return_pointer-IsQuiet (receiving session) exit available = done-IsQuiet down
  return_pointer-IsQuiet (sending session sequence edge fraction) exit available =
      bind-IsQuiet down (return_place-IsQuiet edge fraction exit available)
        (λ target. place-IsQuiet down sk honest w target.0 target.1)

  -- The receiver's session is that of the role, if any.
  current-session :
      (v : View F) (role : Role F) (session : ℕ)
      → Agrees v.session role
      → is_current sk w (session_of role) session ≡ true
      → (v.session ≡ none) ⊎ (v.session ≡ some session)
  unfolding session_of
  current-session v local session agrees h = inl agrees
  current-session v (sending current sequence edge fraction) session agrees h = inl agrees
  current-session v (receiving current) session agrees h =
      inr (agrees ∙ ap some ((==_iff current session).0 h))

  pub on_end_lem :
      (session : ℕ) (exit : Option (EdgePosition F)) (available : List ℕ)
      → Leads (Safe down) (Sound down) (on_end sk w session exit available) (λ _. Sound down)
  unfolding on_end
  on_end_lem session exit available = from_Sound down (λ v valid. reads down (λ c same.
      either (is_current sk w (session_of c.role) session)
        (λ here. ends-Sound down (home-IsValid _ (refl, refl, refl)) (
          seq (Safe down)
            (end_lem down sk honest w v session
              (current-session v c.role session (Agrees-of down v c valid same) here))
            (seq (Safe down) (stop_capture_lem down sk honest w _) (
              seq (Safe down)
                (quietly down
                  (when-IsQuiet down c.local_ready (return_pointer-IsQuiet c.role exit available)))
                (seq (Safe down) (set_role_lem down _ local)
                  (quietly down (rearm-IsQuiet down sk honest w)))))))
        (λ _ d h. lands down v d valid h)))
