-- ===== src/Bridge/Coordinator/Keeps/Begins.antt =====
-- src/bridge.rs, `coordinate_with_control`: the start of a session of the peer keeps the invariant.
use niri_bridge.Prelude.{
  Result, ok, err, ℕ, ◌≡◌, refl, ap, ◌∙◌, ◌≢◌, ◌⊎◌, inl, inr, Bool, true, false, ◌&&◌, not, Option,
  none, some, List, arith,
}
use niri_bridge.Prelude.Action.{◌>>◌, check}
use niri_bridge.Float.{Float}
use niri_bridge.Protocol.Message.{EdgePosition}
use niri_bridge.Receiver as Receiver
use niri_bridge.Receiver.{InputSink, Receiver, begin, input}
use niri_bridge.Bridge.Edges.{EdgeConfig}
use niri_bridge.Bridge.Role.{receiving}
use niri_bridge.Bridge.Coordinator.{World, Coordinator, with_receiver, set_role, place}
use niri_bridge.Receiver.Safe.{IsHonest, IsSafe}
use niri_bridge.Prelude.Triple.{After, Leads, bind, seq, read, returns, stops}
use niri_bridge.Bridge.Coordinator.View.{
  View, view, IsValid, Safe, Sees, Sound, IsQuiet, bind-IsQuiet, seq-IsQuiet, get-IsQuiet,
  check-IsQuiet, in_world-IsQuiet, quietly,
}
use niri_bridge.Bridge.Coordinator.Steps.{
  from_Sound, reads, ends-Sound, Sound-quietly, set_role_lem, send-IsQuiet, place-IsQuiet,
}
use niri_bridge.Receiver.Begin.{begin-cases, begin-IsSafe}
use niri_bridge.Bridge.Coordinator.Frames.{
  entry_edge, can_receive, is_idle, refuse, enter, enter_if, enter_at, on_begin,
}

module _ {F S W P : Type 0} ⦃fl : Float F⦄ (sk : InputSink F S) (down : S → ℕ → Bool)
    (honest : IsHonest sk down) (w : World F W P) where
  refuse-IsQuiet : (session : ℕ) → IsQuiet down (refuse {S = S} sk w session)
  unfolding refuse
  refuse-IsQuiet session = bind-IsQuiet down (get-IsQuiet down) (λ c.
      seq-IsQuiet down (check-IsQuiet down _ "Unexpected overlapping input session")
        (send-IsQuiet down sk honest w _))

  -- The view after `begin`.
  abbrev begun : View F → ℕ → Bool → View F
  begun v session true = record v { session = some session }
  begun v session false = v

  begin-After :
      (v : View F) (session : ℕ) (c : Coordinator F S W P) (o : Result Bool × Receiver S)
      → IsSafe down o.1
      → Sees down v c
      → ((o.0 ≡ ok true) × (o.1.session ≡ some session)) ⊎ ((o.0 ≢ ok true) × (o.1 ≡ c.receiver))
      → After (Safe down) (λ b. Sees down (begun v session b)) (o.0, record c { receiver = o.1 })
  begin-After v session c (ok true, r) safe h (inl (_, runs)) = record {
    safe = safe;
    sees =
        ap (λ n. record (view c) { session = n }) runs
        ∙ ap (λ (u : View F). record u { session = some session }) h.sees;
  }
  begin-After v session c (ok false, r) safe h (inl (e, runs)) = absurd (ground arith)
  begin-After v session c (ok true, r) safe h (inr (no_start, same)) = absurd (no_start refl)
  begin-After v session c (ok false, r) safe h (inr (no_start, same)) = record {
    safe = safe;
    sees = ap (λ (t : Receiver S). record (view c) { session = t.session }) same ∙ h.sees;
  }
  begin-After v session c (err e, r) safe h cases = safe

  begin_lem :
      (v : View F) (session : ℕ)
      → Leads
          (Safe down)
          (Sees down v)
          (with_receiver {W = W} {P = P} (Receiver.begin sk session))
          (λ b. Sees down (begun v session b))
  unfolding with_receiver
  begin_lem v session = record {
    runs = λ c h.
        begin-After v session c (Receiver.begin sk session c.receiver)
          (begin-IsSafe sk down session c.receiver h.safe) h
          (elim (begin-cases sk session c.receiver) [
            | inl (started, _, _, _, _) ↦ inl (ap (λ o. o.0) started, ap (λ o. o.1.session) started)
            | inr (same, refused, _) ↦ inr (refused, same)
          ]);
  }

  receiving-IsValid :
      (v : View F) (session : ℕ)
      → v.pending ≡ false
      → (v.local_ready && v.peer_ready) ≡ true
      → IsValid (record v { session = some session; role = receiving session })
  receiving-IsValid v session free unlocked = record {
    agrees = refl;
    unlocked = λ h. unlocked;
    quiet = λ h. absurd (ground (arith, free));
  }

  enter_lem :
      (v : View F) (session : ℕ) (edge : EdgeConfig F) (fraction : F)
      → v.pending ≡ false
      → (v.local_ready && v.peer_ready) ≡ true
      → Leads (Safe down) (Sees down v) (enter sk w session edge fraction) (λ _. Sound down)
  unfolding enter
  enter_lem v session edge fraction free unlocked = bind (Safe down) (begin_lem v session) entered
    where
      entered :
          (b : Bool)
          → Leads
              (Safe down)
              (Sees down (begun v session b))
              (check b "Receiver is busy"
                >> (place sk w edge fraction >> set_role (receiving session)))
              (λ _. Sound down)
      entered true = seq (Safe down) (quietly down (check-IsQuiet down true "Receiver is busy")) (
          seq (Safe down) (quietly down (place-IsQuiet down sk honest w edge fraction)) (
            ends-Sound down (receiving-IsValid v session free unlocked)
              (set_role_lem down _ (receiving session))))
      entered false = stops _ "Receiver is busy" (λ c h. h.safe)

  enter_if_lem :
      (v : View F) (idle : Bool) (session : ℕ) (edge : EdgeConfig F) (fraction : F)
      → IsValid v
      → (idle ≡ true → (v.pending ≡ false) × ((v.local_ready && v.peer_ready) ≡ true))
      → Leads (Safe down) (Sees down v) (enter_if sk w idle session edge fraction) (λ _. Sound down)
  unfolding enter_if
  enter_if_lem v true session edge fraction valid free =
      enter_lem v session edge fraction (free refl).0 (free refl).1
  enter_if_lem v false session edge fraction valid free =
      ends-Sound down valid (quietly down (refuse-IsQuiet session))

  is_idle_lem :
      (v : View F) (can : Bool)
      → Leads
          (Safe down)
          (Sees down v)
          (is_idle {S = S} sk w can)
          (λ b c. Sees down v c × (b ≡ true → can ≡ true))
  unfolding is_idle
  is_idle_lem v true =
      bind (Safe down) (quietly down (in_world-IsQuiet down w.sample))
        (λ physical. returns (not physical) (λ c h. (h, λ _. refl)))
  is_idle_lem v false = returns false (λ c h. (h, λ e. e))

  enter_at_lem :
      (session : ℕ) (edge : Option (EdgeConfig F)) (fraction : F) (available : List ℕ)
      → Leads
          (Safe down)
          (Sound down)
          (enter_at sk w session edge fraction available)
          (λ _. Sound down)
  unfolding enter_at
  enter_at_lem session none fraction available = Sound-quietly down (refuse-IsQuiet session)
  enter_at_lem session (some edge) fraction available = from_Sound down (λ v valid.
      reads down (λ c same. bind (Safe down) (is_idle_lem v (can_receive sk w available c)) (λ idle.
        record {
          runs = λ d h.
              (enter_if_lem v idle session edge fraction valid (λ e. (
                rw⁻¹ (ap (λ (u : View F). u.pending) same) (ground (arith, h.1 e)),
                rw⁻¹ (ap (λ (u : View F). u.local_ready && u.peer_ready) same)
                    (ground (arith, h.1 e)),
              ))).runs
                d h.0;
        })))

  pub on_begin_lem :
      (session : ℕ) (entry : EdgePosition F) (available : List ℕ)
      → Leads (Safe down) (Sound down) (on_begin sk w session entry available) (λ _. Sound down)
  unfolding on_begin
  on_begin_lem session entry available = read (λ c h.
      enter_at_lem session (entry_edge c.config.edges 0 entry.edge_id available) entry.fraction
        available)
