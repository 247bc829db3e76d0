-- ===== src/Bridge/Coordinator/Keeps/Tick.antt =====
-- src/bridge.rs, `coordinate_with_control`: a tick keeps the invariant.
use niri_bridge.Prelude.{
  leb, if◌then◌else◌, Result, ℕ, ◌-◌, ◌≡◌, refl, sym, ap, Bool, true, false, ◌&&◌, Option, none,
  some, List, [], ◌∷◌, arith,
}
use niri_bridge.Prelude.Action.{◌>>=◌, ◌>>◌, pure, get, when, each}
use niri_bridge.Float.{Float}
use niri_bridge.Protocol.Event.{InputEvent}
use niri_bridge.Receiver as Receiver
use niri_bridge.Receiver.{InputSink, Receiver, poll, physical_activity}
use niri_bridge.Bridge.Role.{Role, local, sending, receiving, session_of}
use niri_bridge.Bridge.Coordinator.{
  Reply, World, PendingLayout, is_sending_role, is_receiving_role, in_world, change_world,
  with_receiver, send_input,
}
use niri_bridge.Receiver.Safe.{IsHonest}
use niri_bridge.Prelude.Triple.{Leads, bind, seq, read, before, skips, modifies, either, repeats}
use niri_bridge.Bridge.Coordinator.View.{
  View, view, IsValid, home-IsValid, Safe, Sees, Sound, IsQuiet, bind-IsQuiet, seq-IsQuiet,
  lift-IsQuiet, pure-IsQuiet, get-IsQuiet, when-IsQuiet, finally-IsQuiet, in_world-IsQuiet,
  with_world-IsQuiet, change_world-IsQuiet, with_receiver-IsQuiet, with_receiver-none,
  modify-IsQuiet, quietly,
}
use niri_bridge.Bridge.Coordinator.Steps.{
  local-IsValid, uncaptured-IsValid, lands, from_Sound, reads, ends-Sound, Sound-quietly,
  set_role_lem, send-IsQuiet, rearm-IsQuiet, place_at-IsQuiet, send_end-IsQuiet, stop_capture_lem,
}
use niri_bridge.Receiver.Held.{poll-IsSafe}
use niri_bridge.Receiver.Calls.{physical_activity-IsSafe}
use niri_bridge.Receiver.Leaves.{physical_activity-session}
use niri_bridge.Bridge.Coordinator.Sending.{send_input_lem, forward_lem}
use niri_bridge.Bridge.Coordinator.Tick.{
  expire, check_deadline, sample_ready, take_over, stop_sending, emergency_stop, forward_all,
  end_sending, collect_task, send_ping, beat, on_tick,
}

module _ {F S W P : Type 0} ⦃fl : Float F⦄ (sk : InputSink F S) (down : S → ℕ → Bool)
    (honest : IsHonest sk down) (w : World F W P) where
  pub expired-IsValid : (v : View F) → IsValid v → IsValid (record v { pending = false })
  expired-IsValid v valid = record {
    agrees = valid.agrees;
    unlocked = valid.unlocked;
    quiet = λ h. cc;
  }

  pub answer-IsQuiet :
      (b : Bool) (reply : Reply)
      → IsQuiet {F = F} {P = P} down (when b (change_world (w.reply reply)))
  answer-IsQuiet b reply = when-IsQuiet down b (change_world-IsQuiet down (w.reply reply))

  pub expire_lem :
      (p : PendingLayout P) → Leads (Safe down) (Sound down) (expire sk w p) (λ _. Sound down)
  unfolding expire
  expire_lem p = from_Sound down (λ v valid. ends-Sound down (expired-IsValid v valid) (
      seq (Safe down)
        (modifies _ (λ c h. record {
          safe = h.safe;
          sees = ap (λ (u : View F). record u { pending = false }) h.sees;
        }))
        (quietly down (
          finally-IsQuiet down _
            (seq-IsQuiet down (send-IsQuiet down sk honest w _) (answer-IsQuiet p.replies _))
            (λ u c h. record { safe = h.safe; sees = h.sees })))))

  check_deadline_lem :
      (p : Option (PendingLayout P))
      → Leads (Safe down) (Sound down) (check_deadline sk w p) (λ _. Sound down)
  unfolding check_deadline
  check_deadline_lem none = skips (λ c h. h)
  check_deadline_lem (some p) =
      bind (Safe down) (Sound-quietly down (with_world-IsQuiet down w.now))
        (λ t. either (leb p.deadline t) (λ _. expire_lem p) (λ _ c h. h))

  take_over_lem : Leads (Safe down) (Sound down) (take_over sk w) (λ _. Sound down)
  unfolding take_over
  take_over_lem = from_Sound down (λ v valid. ends-Sound down (home-IsValid _ (refl, refl, refl)) (
      seq (Safe down)
        (with_receiver-none down v (Receiver.physical_activity sk)
          (λ r. physical_activity-IsSafe sk down honest r)
          (λ c h. physical_activity-session sk c.receiver down h.safe))
        (reads down (λ c same.
          seq (Safe down) (quietly down (send_end-IsQuiet down sk honest w (session_of c.role))) (
            seq (Safe down) (set_role_lem down _ local) (
              seq (Safe down) (stop_capture_lem down sk honest w _)
                (quietly down (rearm-IsQuiet down sk honest w))))))))

  stop_sending_lem :
      (role : Role F) (v : View F)
      → is_sending_role role ≡ true
      → Leads
          (Safe down)
          (Sees down v)
          (stop_sending sk w role)
          (λ _. Sees down (record v { capture = false }))
  unfolding stop_sending
  stop_sending_lem local v h = absurd (ground arith)
  stop_sending_lem (receiving session) v h = absurd (ground arith)
  stop_sending_lem (sending session sequence edge fraction) v h =
      seq (Safe down) (quietly down (send-IsQuiet down sk honest w _)) (
        seq (Safe down) (stop_capture_lem down sk honest w v)
          (quietly down (place_at-IsQuiet down sk honest w edge fraction)))

  pub sending-session :
      (v : View F) (role : Role F)
      → v.role ≡ role
      → IsValid v
      → is_sending_role role ≡ true
      → v.session ≡ none
  sending-session v local e valid h = absurd (ground arith)
  sending-session v (receiving session) e valid h = absurd (ground arith)
  sending-session v (sending session sequence edge fraction) e valid h = (rw e at valid.agrees)

  -- The chord takes the pointer home.
  pub emergency_stop_home :
      (v : View F)
      → is_sending_role v.role ≡ true
      → Leads
          (Safe down)
          (Sees down v)
          (emergency_stop sk w)
          (λ _. Sees down (record v { role = local; capture = false }))
  unfolding emergency_stop
  emergency_stop_home v sends = reads down (λ c same.
      seq (Safe down) (stop_sending_lem c.role v (rw (ap (λ (u : View F). u.role) same) sends)) (
        seq (Safe down) (set_role_lem down _ local) (
          seq (Safe down) (modifies _ (λ d h. record { safe = h.safe; sees = h.sees }))
            (quietly down (rearm-IsQuiet down sk honest w)))))

  emergency_stop_lem :
      (v : View F)
      → IsValid v
      → is_sending_role v.role ≡ true
      → Leads (Safe down) (Sees down v) (emergency_stop sk w) (λ _. Sound down)
  emergency_stop_lem v valid sends =
      ends-Sound down (home-IsValid _ (sending-session v v.role refl valid sends, refl, refl))
        (emergency_stop_home v sends)

  forward_all_lem :
      (events : List (InputEvent F))
      → Leads (Safe down) (Sound down) (forward_all sk w events) (λ _. Sound down)
  unfolding forward_all
  forward_all_lem [] = skips (λ c h. h)
  forward_all_lem (event ∷ events) =
      bind (Safe down) (forward_lem sk down honest w event)
        (λ chord. after_forward chord (forward_all_lem events))
    where
      after_forward :
          (chord : Bool)
          → Leads (Safe down) (Sound down) (forward_all sk w events) (λ _. Sound down)
          → Leads
              (Safe down)
              (λ c. Sound down c × (chord ≡ true → is_sending_role c.role ≡ true))
              (if chord then emergency_stop sk w else forward_all sk w events)
              (λ _. Sound down)
      after_forward true rest = record {
        runs = λ c h.
            (emergency_stop_lem (view c) h.0.valid (h.1 refl)).runs c
              (record { safe = h.0.safe; sees = refl });
      }
      after_forward false rest = before (λ c h. h.0) rest

  end_sending_lem :
      (role : Role F) (v : View F)
      → v.role ≡ role
      → IsValid v
      → Leads (Safe down) (Sees down v) (end_sending sk w role) (λ _. Sound down)
  unfolding end_sending
  end_sending_lem local v e valid = skips (λ c h. lands down v c valid h)
  end_sending_lem (receiving session) v e valid = skips (λ c h. lands down v c valid h)
  end_sending_lem (sending session sequence edge fraction) v e valid =
      seq (Safe down) (quietly down (send-IsQuiet down sk honest w _))
        (ends-Sound down (local-IsValid v valid (rw e at valid.agrees)) (set_role_lem down v local))

  collect_task_lem : Leads (Safe down) (Sound down) (collect_task sk w) (λ _. Sound down)
  unfolding collect_task
  collect_task_lem = from_Sound down (λ v valid. reads down (λ c same.
      either (c.capture && w.task_finished c.world && w.channel_empty c.world)
        (λ _. seq (Safe down) (stop_capture_lem down sk honest w v) (
          seq (Safe down)
            (end_sending_lem c.role _ (sym (ap (λ (u : View F). u.role) same))
              (uncaptured-IsValid v valid))
            (Sound-quietly down (rearm-IsQuiet down sk honest w))))
        (λ _ d h. lands down v d valid h)))

  send_ping-IsQuiet : IsQuiet down (send_ping {S = S} sk w)
  unfolding send_ping
  send_ping-IsQuiet = bind-IsQuiet down (with_world-IsQuiet down w.now) (λ t.
      seq-IsQuiet down (modify-IsQuiet down _ (λ v d h. record { safe = h.safe; sees = h.sees })) (
        bind-IsQuiet down (get-IsQuiet down) (λ c.
          seq-IsQuiet down (send-IsQuiet down sk honest w _) (
            bind-IsQuiet down (with_world-IsQuiet down w.now)
              (λ u. modify-IsQuiet down _ (λ v d h. record { safe = h.safe; sees = h.sees }))))))

  beat-IsQuiet : IsQuiet down (beat {S = S} sk w)
  unfolding beat
  beat-IsQuiet = bind-IsQuiet down (with_world-IsQuiet down w.now) (λ t.
      bind-IsQuiet down (get-IsQuiet down)
        (λ c. when-IsQuiet down (leb 200 (t - c.last_heartbeat)) send_ping-IsQuiet))

  poll-IsQuiet : IsQuiet {F = F} {W = W} {P = P} down (with_receiver (Receiver.poll sk))
  unfolding Receiver.poll
  poll-IsQuiet =
      with_receiver-IsQuiet down (Receiver.poll sk) (λ r. poll-IsSafe sk down honest r) (λ r. refl)

  sample_ready-IsQuiet : IsQuiet down (sample_ready {S = S} sk w)
  unfolding sample_ready
  sample_ready-IsQuiet =
      bind-IsQuiet down (get-IsQuiet down) (λ c. sampled-IsQuiet (c.local_ready && c.peer_ready))
    where
      sampled-IsQuiet :
          (b : Bool)
          → IsQuiet {F = F} {S = S} {P = P} down (if b then in_world w.sample else pure false)
      sampled-IsQuiet true = in_world-IsQuiet down w.sample
      sampled-IsQuiet false = pure-IsQuiet down false

  pub on_tick_lem :
      (waited : Result (Unit {0}))
      → Leads (Safe down) (Sound down) (on_tick sk w waited) (λ _. Sound down)
  unfolding on_tick
  on_tick_lem waited = seq (Safe down) (Sound-quietly down (lift-IsQuiet down waited)) (
      seq (Safe down) (Sound-quietly down poll-IsQuiet) (
        read (λ c h. seq (Safe down) (check_deadline_lem c.pending_layout) (
          bind (Safe down) (Sound-quietly down sample_ready-IsQuiet) (λ physical.
            bind (Safe down) (Sound-quietly down (with_world-IsQuiet down _)) (λ keys.
              bind (Safe down) (Sound-quietly down (with_world-IsQuiet down _))
                (λ touches. rest physical keys touches)))))))
    where
      rest :
          (physical : Bool) (keys touches : List (InputEvent F))
          → Leads
              (Safe down)
              (Sound down)
              (get >>= (λ c.
                when (physical && is_receiving_role c.role) (take_over sk w)
                >> (forward_all sk w keys
                    >> (each (send_input sk w) touches >> (collect_task sk w >> beat sk w)))))
              (λ _. Sound down)
      rest physical keys touches = read (λ c h.
          seq (Safe down)
            (either (physical && is_receiving_role c.role) (λ _. take_over_lem) (λ _ d g. g))
            (seq (Safe down) (forward_all_lem keys) (
              seq (Safe down) (repeats touches (λ event. send_input_lem sk down honest w event))
                (seq (Safe down) collect_task_lem (Sound-quietly down beat-IsQuiet)))))
