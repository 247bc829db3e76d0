-- ===== src/Bridge/Coordinator/Keeps/Commands.antt =====
-- src/bridge.rs, `coordinate_with_control`: commands and the state of the session keep the invariant.
use niri_bridge.Prelude.{
  if◌then◌else◌, Result, ok, err, ℕ, String, ◌≡◌, refl, ap, ◌∙◌, Bool, true, false, not, none, List,
  arith,
}
use niri_bridge.Prelude.Action.{Action, when, on_error}
use niri_bridge.Float.{Float}
use niri_bridge.Control.Layout.{LogicalOutput, LayoutRequest}
use niri_bridge.Receiver as Receiver
use niri_bridge.Receiver.{InputSink, Receiver, local_lock}
use niri_bridge.Bridge.Edges.{EdgeConfig}
use niri_bridge.Bridge.Role.{local, session_of}
use niri_bridge.Bridge.Coordinator.{World, Coordinator, with_receiver}
use niri_bridge.Receiver.Safe.{IsHonest}
use niri_bridge.Prelude.Triple.{After, Leads, bind, seq, skips, modifies}
use niri_bridge.Bridge.Coordinator.View.{
  View, IsValid, home-IsValid, Safe, Sees, Sound, IsQuiet, bind-IsQuiet, seq-IsQuiet, lift-IsQuiet,
  get-IsQuiet, check-IsQuiet, in_world-IsQuiet, with_world-IsQuiet, change_world-IsQuiet,
  with_receiver_session, attempt-IsQuiet, modify-IsQuiet, quietly,
}
use niri_bridge.Bridge.Coordinator.Steps.{
  lands, from_Sound, Agrees-of, reads, ends-Sound, Sound-quietly, set_role_lem, send-IsQuiet,
  rearm-IsQuiet, place_back-IsQuiet, send_end-IsQuiet, stop_capture_lem, leave_lem,
}
use niri_bridge.Receiver.Calls.{local_lock-IsSafe}
use niri_bridge.Receiver.Leaves.{local_lock-session}
use niri_bridge.Bridge.Coordinator.Commands.{
  Request, status, release, apply_layout, on_outputs, on_release, check_idle, open_edit,
  prepare_request, go_local, drop_edit, set_pending, begin_edit, apply_prepared, on_command,
  locked_out, changed_to, on_status,
}

-- The view at home, with whether a layout is pending.
abbrev pub home : {F : Type 0} → View F → Bool → View F
home v pending = record v { session = none; role = local; capture = false; pending = pending }

module _ {F S W P : Type 0} ⦃fl : Float F⦄ (sk : InputSink F S) (down : S → ℕ → Bool)
    (honest : IsHonest sk down) (w : World F W P) where
  on_outputs-IsQuiet :
      (names : List (String × LogicalOutput F)) → IsQuiet down (on_outputs {S = S} sk w names)
  unfolding on_outputs
  on_outputs-IsQuiet names =
      seq-IsQuiet down (modify-IsQuiet down _ (λ v c h. record { safe = h.safe; sees = h.sees }))
        (bind-IsQuiet down (get-IsQuiet down) (λ c. send-IsQuiet down sk honest w _))

  on_release_lem : Leads (Safe down) (Sound down) (on_release sk w) (λ _. Sound down)
  unfolding on_release
  on_release_lem = from_Sound down (λ v valid. reads down (λ c same.
      ends-Sound down (home-IsValid _ (refl, refl, refl)) (
        seq (Safe down) (leave_lem down sk honest w v c.role (Agrees-of down v c valid same)) (
          seq (Safe down) (stop_capture_lem down sk honest w _) (
            seq (Safe down) (quietly down (place_back-IsQuiet down sk honest w c.role)) (
              seq (Safe down) (set_role_lem down _ local) (
                seq (Safe down) (quietly down (rearm-IsQuiet down sk honest w))
                  (quietly down (change_world-IsQuiet down _)))))))))

  pub go_local_lem :
      (v : View F)
      → IsValid v
      → Leads (Safe down) (Sees down v) (go_local sk w) (λ _. Sees down (home v v.pending))
  unfolding go_local
  go_local_lem v valid = reads down (λ c same.
      seq (Safe down) (leave_lem down sk honest w v c.role (Agrees-of down v c valid same))
        (seq (Safe down) (stop_capture_lem down sk honest w _) (set_role_lem down _ local)))

  pub check_idle-IsQuiet : IsQuiet down (check_idle {S = S} sk w)
  unfolding check_idle
  check_idle-IsQuiet = bind-IsQuiet down (get-IsQuiet down) (λ c.
      seq-IsQuiet down (check-IsQuiet down _ "settings_busy")
        (check-IsQuiet down _ "session_locked"))

  pub open_edit-IsQuiet :
      (revision : String) (edges : List (EdgeConfig F))
      → IsQuiet down (open_edit {S = S} sk w revision edges)
  unfolding open_edit
  open_edit-IsQuiet revision edges =
      bind-IsQuiet down (get-IsQuiet down)
        (λ c. bind-IsQuiet down (lift-IsQuiet down _) (λ path. in_world-IsQuiet down _))

  prepare_request-IsQuiet :
      (request : LayoutRequest F) → IsQuiet down (prepare_request {S = S} sk w request)
  unfolding prepare_request
  prepare_request-IsQuiet request = seq-IsQuiet down check_idle-IsQuiet (
      seq-IsQuiet down (lift-IsQuiet down _) (
        bind-IsQuiet down (get-IsQuiet down) (λ c. bind-IsQuiet down (lift-IsQuiet down _) (λ peer.
          seq-IsQuiet down (check-IsQuiet down _ "settings_conflict")
            (open_edit-IsQuiet request.local_revision request.local_edges)))))

  pub set_pending_lem :
      (v : View F) (id : String) (edit : P) (replies : Bool)
      → Leads
          (Safe down)
          (Sees down v)
          (set_pending sk w id edit replies)
          (λ _. Sees down (record v { pending = true }))
  unfolding set_pending
  set_pending_lem v id edit replies =
      bind (Safe down) (quietly down (with_world-IsQuiet down w.now)) (λ t. modifies _ (λ c h.
        record { safe = h.safe; sees = ap (λ (u : View F). record u { pending = true }) h.sees }))

  drop_edit_lem :
      (edit : P) (c : Coordinator F S W P) → Safe down c → Safe down (drop_edit sk w edit c)
  unfolding drop_edit
  drop_edit_lem edit c h = h

  pub drop_on_error :
      {A : Type 0} {v : View F} {R : A → Coordinator F S W P → Type 0}
      {action : Action (Coordinator F S W P) A} (edit : P)
      → Leads (Safe down) (Sees down v) action R
      → Leads (Safe down) (Sees down v) (on_error action (drop_edit sk w edit)) R
  unfolding on_error
  drop_on_error {A = A} {R = R} {action = action} edit t = record {
    runs = λ c h. go (action c) (t.runs c h);
  }
    where
      go :
          (o : Result A × Coordinator F S W P)
          → After (Safe down) R o
          → After
              (Safe down)
              R
              (elim o.0 [ ok a ↦ (ok a, o.1) | err e ↦ (err e, drop_edit sk w edit o.1) ])
      go (ok a, c) h = h
      go (err e, c) h = drop_edit_lem edit c h

  begin_edit_lem :
      (edit : P) (v : View F)
      → IsValid v
      → Leads (Safe down) (Sees down v) (begin_edit sk w edit) (λ _. Sees down (home v v.pending))
  unfolding begin_edit
  begin_edit_lem edit v valid = drop_on_error edit (
      seq (Safe down) (go_local_lem v valid)
        (quietly down (in_world-IsQuiet down w.transaction_id)))

  apply_prepared_lem :
      (request : LayoutRequest F) (edit : Result P) (v : View F)
      → IsValid v
      → Leads (Safe down) (Sees down v) (apply_prepared sk w request edit) (λ _. Sound down)
  unfolding apply_prepared
  apply_prepared_lem request (err e) v valid =
      ends-Sound down valid (quietly down (change_world-IsQuiet down _))
  apply_prepared_lem request (ok edit) v valid =
      bind (Safe down) (begin_edit_lem edit v valid) (λ id.
        ends-Sound down (home-IsValid _ (refl, refl, refl)) (
          seq (Safe down) (set_pending_lem (home v v.pending) id edit true)
            (quietly down (send-IsQuiet down sk honest w _))))

  pub on_command_lem :
      (request : Request F)
      → Leads (Safe down) (Sound down) (on_command sk w request) (λ _. Sound down)
  unfolding on_command
  on_command_lem status = skips (λ c h. h)
  on_command_lem release = on_release_lem
  on_command_lem (apply_layout request) = from_Sound down (λ v valid.
      bind (Safe down) (quietly down (attempt-IsQuiet down (prepare_request-IsQuiet request)))
        (λ edit. apply_prepared_lem request edit v valid))

  pub on_outputs_lem :
      (names : List (String × LogicalOutput F))
      → Leads (Safe down) (Sound down) (on_outputs sk w names) (λ _. Sound down)
  on_outputs_lem names = Sound-quietly down (on_outputs-IsQuiet names)

  local_lock_lem :
      (v : View F) (b : Bool)
      → Leads
          (Safe down)
          (Sees down v)
          (with_receiver {W = W} {P = P} (Receiver.local_lock sk b))
          (λ _. Sees down (record v { session = if b then none else v.session }))
  local_lock_lem v b =
      with_receiver_session down v _ (Receiver.local_lock sk b)
        (λ r. local_lock-IsSafe sk down honest b r)
        (λ c h.
          local_lock-session sk c.receiver down h.safe b
          ∙ ap (λ (u : View F). if b then none else u.session) h.sees)

  locked_out_lem :
      (v : View F)
      → v.session ≡ none
      → Leads (Safe down) (Sees down v) (locked_out sk w) (λ _. Sound down)
  unfolding locked_out
  locked_out_lem v out = ends-Sound down (home-IsValid _ (out, refl, refl)) (
      seq (Safe down) (quietly down (change_world-IsQuiet down w.suspend)) (
        reads down (λ c same.
          seq (Safe down) (quietly down (send_end-IsQuiet down sk honest w (session_of c.role)))
            (seq (Safe down) (set_role_lem down _ local) (stop_capture_lem down sk honest w _)))))

  unlocked-IsValid : (v : View F) → IsValid v → IsValid (record v { local_ready = true })
  unlocked-IsValid v valid = record {
    agrees = valid.agrees;
    unlocked = λ h. ground (arith, valid.unlocked h);
    quiet = valid.quiet;
  }

  changed_to_lem :
      (ready : Bool) (v : View F)
      → IsValid v
      → Leads (Safe down) (Sees down v) (changed_to sk w ready) (λ _. Sound down)
  unfolding changed_to when locked_out
  changed_to_lem ready v valid =
      seq (Safe down)
        (modifies _ (λ c h. record {
          safe = h.safe;
          sees = ap (λ (u : View F). record u { local_ready = ready }) h.sees;
        }))
        (seq (Safe down) (local_lock_lem (record v { local_ready = ready }) (not ready))
          (seq (Safe down) (quietly down (send-IsQuiet down sk honest w _)) (last ready)))
    where
      last :
          (b : Bool)
          → Leads
              (Safe down)
              (Sees down
                (record v { local_ready = b; session = if not b then none else v.session }))
              (when (not b) (locked_out sk w))
              (λ _. Sound down)
      last true = skips (λ c h. lands down _ c (unlocked-IsValid v valid) h)
      last false = locked_out_lem _ refl

  pub on_status_lem :
      (unlocked : Result Bool)
      → Leads (Safe down) (Sound down) (on_status sk w unlocked) (λ _. Sound down)
  unfolding on_status
  on_status_lem unlocked = from_Sound down (λ v valid.
      bind (Safe down) (quietly down (lift-IsQuiet down unlocked))
        (λ ready. changed_to_lem ready v valid))
