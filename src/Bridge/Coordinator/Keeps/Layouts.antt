-- ===== src/Bridge/Coordinator/Keeps/Layouts.antt =====
-- src/bridge.rs, `coordinate_with_control`: the messages of a layout transaction keep the invariant.
use niri_bridge.Prelude.{
  if◌then◌else◌, Result, ok, err, ℕ, String, ◌≡◌, refl, sym, ap, Bool, true, false, Option, none,
  some, List,
}
use niri_bridge.Prelude.Action.{Action, ◌>>◌, pure, finally}
use niri_bridge.Prelude.Text.{◌==ₛ◌}
use niri_bridge.Float.{Float}
use niri_bridge.Control.Layout.{LayoutMessage}
use niri_bridge.Receiver.{InputSink}
use niri_bridge.Bridge.Edges.{EdgeConfig}
use niri_bridge.Bridge.Coordinator.{Reply, World, PendingLayout, Coordinator, is_some}
use niri_bridge.Receiver.Safe.{IsHonest}
use niri_bridge.Prelude.Triple.{Leads, bind, seq, returns, skips, modifies, either}
use niri_bridge.Bridge.Coordinator.View.{
  View, IsValid, home-IsValid, Safe, Sees, Sound, IsQuiet, bind-IsQuiet, seq-IsQuiet, pure-IsQuiet,
  when-IsQuiet, finally-IsQuiet, with_world-IsQuiet, change_world-IsQuiet, attempt-IsQuiet, quietly,
}
use niri_bridge.Bridge.Coordinator.Steps.{lands, from_Sound, reads, ends-Sound, send-IsQuiet}
use niri_bridge.Bridge.Coordinator.Commands.{drop_edit}
use niri_bridge.Bridge.Coordinator.Layouts.{
  is_pending, take_pending, answer, send_prepared, prepare_edit, prepared_edit, on_prepare,
  commit_edit, commit_if, settle, on_prepared, report, commit_taken, on_commit, conclude, on_result,
  on_abort, on_layout,
}
use niri_bridge.Bridge.Coordinator.Keeps.Tick.{expired-IsValid}
use niri_bridge.Bridge.Coordinator.Keeps.Commands.{
  home, go_local_lem, check_idle-IsQuiet, open_edit-IsQuiet, set_pending_lem, drop_on_error,
}

pending-IsValid :
    {F : Type 0} (v : View F) → IsValid v → v.pending ≡ true → IsValid (record v { pending = true })
pending-IsValid v valid busy = record {
  agrees = valid.agrees;
  unlocked = valid.unlocked;
  quiet = λ h. valid.quiet busy;
}

module _ {F S W P : Type 0} ⦃fl : Float F⦄ (sk : InputSink F S) (down : S → ℕ → Bool)
    (honest : IsHonest sk down) (w : World F W P) where
  take_pending_lem :
      (v : View F)
      → Leads
          (Safe down)
          (Sees down v)
          (take_pending {S = S} sk w)
          (λ _. Sees down (record v { pending = false }))
  unfolding take_pending
  take_pending_lem v = modifies _ (λ c h. record {
    safe = h.safe;
    sees = ap (λ (u : View F). record u { pending = false }) h.sees;
  })

  answer-IsQuiet :
      (p : PendingLayout P) (reply : Reply) → IsQuiet down (answer {S = S} sk w p reply)
  unfolding answer
  answer-IsQuiet p reply = when-IsQuiet down p.replies (change_world-IsQuiet down (w.reply reply))

  dropping-IsQuiet :
      {A : Type 0} {action : Action (Coordinator F S W P) A} (edit : P)
      → IsQuiet down action
      → IsQuiet down (finally action (drop_edit sk w edit))
  unfolding drop_edit
  dropping-IsQuiet edit q =
      finally-IsQuiet down _ q (λ v c h. record { safe = h.safe; sees = h.sees })

  send_prepared-IsQuiet :
      (id : String) (accepted : Bool) (error : Option String)
      → IsQuiet down (send_prepared {S = S} sk w id accepted error)
  unfolding send_prepared
  send_prepared-IsQuiet id accepted error = send-IsQuiet down sk honest w _

  prepared_edit_lem :
      (id : String) (edit : Result P) (v : View F)
      → IsValid v
      → Leads (Safe down) (Sees down v) (prepared_edit sk w id edit) (λ _. Sound down)
  unfolding prepared_edit
  prepared_edit_lem id (err e) v valid =
      ends-Sound down valid (quietly down (send_prepared-IsQuiet id false _))
  prepared_edit_lem id (ok edit) v valid = ends-Sound down (home-IsValid _ (refl, refl, refl)) (
      seq (Safe down) (drop_on_error sk down honest w edit (go_local_lem sk down honest w v valid))
        (seq (Safe down) (set_pending_lem sk down honest w (home v v.pending) id edit false)
          (quietly down (send_prepared-IsQuiet id true none))))

  on_prepare_lem :
      (id : String) (edges : List (EdgeConfig F)) (revision : String)
      → Leads (Safe down) (Sound down) (on_prepare sk w id edges revision) (λ _. Sound down)
  unfolding on_prepare prepare_edit
  on_prepare_lem id edges revision = from_Sound down (λ v valid.
      bind (Safe down)
        (quietly down (
          attempt-IsQuiet down (
            seq-IsQuiet down (check_idle-IsQuiet sk down honest w)
              (open_edit-IsQuiet sk down honest w revision edges))))
        (λ edit. prepared_edit_lem id edit v valid))

  commit_edit-IsQuiet : (p : PendingLayout P) → IsQuiet down (commit_edit {S = S} sk w p)
  unfolding commit_edit
  commit_edit-IsQuiet p = with_world-IsQuiet down _

  commit_if-IsQuiet :
      (accepted : Bool) (error : Option String) (p : PendingLayout P)
      → IsQuiet down (commit_if {S = S} sk w accepted error p)
  unfolding commit_if
  commit_if-IsQuiet true error p = commit_edit-IsQuiet p
  commit_if-IsQuiet false error p = pure-IsQuiet down _

  settle_lem :
      (id : String) (o : Result (Unit {0}) × PendingLayout P) (v : View F)
      → IsValid v
      → v.pending ≡ true
      → Leads
          (Safe down)
          (Sees down (record v { pending = false }))
          (settle sk w id o)
          (λ _. Sound down)
  unfolding settle
  settle_lem id (err e, p) v valid busy =
      ends-Sound down (expired-IsValid sk down honest w v valid) (
        quietly down (
          dropping-IsQuiet p.prepared
            (seq-IsQuiet down (send-IsQuiet down sk honest w _) (answer-IsQuiet p _))))
  settle_lem id (ok _, p) v valid busy = ends-Sound down (pending-IsValid v valid busy) (
      seq (Safe down)
        (modifies _ (λ c h. record {
          safe = h.safe;
          sees = ap (λ (u : View F). record u { pending = true }) h.sees;
        }))
        (quietly down (send-IsQuiet down sk honest w _)))

  on_prepared_lem :
      (id : String) (accepted : Bool) (error : Option String) (p : Option (PendingLayout P))
      (v : View F)
      → IsValid v
      → is_some p ≡ v.pending
      → Leads (Safe down) (Sees down v) (on_prepared sk w id accepted error p) (λ _. Sound down)
  unfolding on_prepared
  on_prepared_lem id accepted error none v valid e = skips (λ c h. lands down v c valid h)
  on_prepared_lem id accepted error (some p) v valid e =
      either (is_pending id true p)
        (λ _. seq (Safe down) (take_pending_lem v) (
          bind (Safe down) (quietly down (commit_if-IsQuiet accepted error p))
            (λ o. settle_lem id o v valid (sym e))))
        (λ _ c h. lands down v c valid h)

  report-IsQuiet :
      (id : String) (o : Result (Unit {0}) × PendingLayout P)
      → IsQuiet down (report {S = S} sk w id o)
  unfolding report
  report-IsQuiet id (ok _, p) =
      seq-IsQuiet down (change_world-IsQuiet down _)
        (seq-IsQuiet down (send-IsQuiet down sk honest w _) (pure-IsQuiet down _))
  report-IsQuiet id (err e, p) =
      dropping-IsQuiet p.prepared
        (seq-IsQuiet down (send-IsQuiet down sk honest w _) (pure-IsQuiet down _))

  taken_lem :
      {A : Type 0} {action : Action (Coordinator F S W P) A} (v : View F)
      → IsValid v
      → IsQuiet down action
      → Leads (Safe down) (Sees down v) (take_pending {S = S} sk w >> action) (λ _. Sound down)
  taken_lem v valid q =
      seq (Safe down) (take_pending_lem v)
        (ends-Sound down (expired-IsValid sk down honest w v valid) (quietly down q))

  if_lem :
      {A : Type 0} {v : View F} (b : Bool) (a : A) {action : Action (Coordinator F S W P) A}
      → IsValid v
      → Leads (Safe down) (Sees down v) action (λ _. Sound down)
      → Leads (Safe down) (Sees down v) (if b then action else pure a) (λ _. Sound down)
  if_lem true a valid t = t
  if_lem {v = v} false a valid t = returns a (λ c h. lands down v c valid h)

  on_commit_lem :
      (id : String) (p : Option (PendingLayout P)) (v : View F)
      → IsValid v
      → Leads (Safe down) (Sees down v) (on_commit sk w id p) (λ _. Sound down)
  unfolding on_commit commit_taken
  on_commit_lem id none v valid = returns none (λ c h. lands down v c valid h)
  on_commit_lem id (some p) v valid =
      if_lem (is_pending id false p) none valid
        (taken_lem v valid (bind-IsQuiet down (commit_edit-IsQuiet p) (λ o. report-IsQuiet id o)))

  conclude-IsQuiet :
      (p : PendingLayout P) (accepted : Bool) (error : Option String)
      → IsQuiet down (conclude {S = S} sk w p accepted error)
  unfolding conclude
  conclude-IsQuiet p true error =
      seq-IsQuiet down (change_world-IsQuiet down _)
        (seq-IsQuiet down (answer-IsQuiet p _) (pure-IsQuiet down _))
  conclude-IsQuiet p false error =
      dropping-IsQuiet p.prepared (seq-IsQuiet down (answer-IsQuiet p _) (pure-IsQuiet down _))

  on_result_lem :
      (id : String) (accepted : Bool) (error : Option String) (p : Option (PendingLayout P))
      (v : View F)
      → IsValid v
      → Leads (Safe down) (Sees down v) (on_result sk w id accepted error p) (λ _. Sound down)
  unfolding on_result
  on_result_lem id accepted error none v valid = returns none (λ c h. lands down v c valid h)
  on_result_lem id accepted error (some p) v valid =
      if_lem (is_pending id true p) none valid
        (taken_lem v valid (conclude-IsQuiet p accepted error))

  on_abort_lem :
      (id : String) (p : Option (PendingLayout P)) (v : View F)
      → IsValid v
      → Leads (Safe down) (Sees down v) (on_abort sk w id p) (λ _. Sound down)
  unfolding on_abort
  on_abort_lem id none v valid = skips (λ c h. lands down v c valid h)
  on_abort_lem id (some p) v valid =
      either (p.id ==ₛ id)
        (λ _. taken_lem v valid (dropping-IsQuiet p.prepared (answer-IsQuiet p _)))
        (λ _ c h. lands down v c valid h)

  finish_lem :
      {A : Type 0} {P' : Coordinator F S W P → Type 0}
      {action : Action (Coordinator F S W P) (Unit {0})} (a : A)
      → Leads (Safe down) P' action (λ _. Sound down)
      → Leads (Safe down) P' (action >> pure a) (λ _. Sound down)
  finish_lem a t = seq (Safe down) t (returns a (λ c h. h))

  pub on_layout_lem :
      (message : LayoutMessage F)
      → Leads (Safe down) (Sound down) (on_layout sk w message) (λ _. Sound down)
  unfolding on_layout
  on_layout_lem (LayoutMessage.prepare id edges revision) =
      finish_lem none (on_prepare_lem id edges revision)
  on_layout_lem (LayoutMessage.prepared id accepted error) = from_Sound down (λ v valid.
      reads down (λ c same. finish_lem none (
        on_prepared_lem id accepted error c.pending_layout v valid
          (ap (λ (u : View F). u.pending) same))))
  on_layout_lem (LayoutMessage.commit id) =
      from_Sound down (λ v valid. reads down (λ c same. on_commit_lem id c.pending_layout v valid))
  on_layout_lem (LayoutMessage.result id accepted revision error) =
      from_Sound down
        (λ v valid. reads down (λ c same. on_result_lem id accepted error c.pending_layout v valid))
  on_layout_lem (LayoutMessage.abort id) =
      from_Sound down (λ v valid.
        reads down (λ c same. finish_lem none (on_abort_lem id c.pending_layout v valid)))
