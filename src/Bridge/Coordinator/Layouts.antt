-- ===== src/Bridge/Coordinator/Layouts.antt =====
-- src/bridge.rs, `coordinate_with_control`: the messages of a layout transaction. `some again` is
-- the coordinator's return value `Ok(again)`; `none` goes on with the loop.
use niri_bridge.Prelude.{
  if◌then◌else◌, Result, ok, err, String, Bool, true, false, ◌&&◌, not, Option, none, some, List,
}
use niri_bridge.Prelude.Action.{
  Action, ◌>>=◌, ◌>>◌, pure, done, get, modify, when, attempt, finally, on_error,
}
use niri_bridge.Prelude.Text.{◌==ₛ◌}
use niri_bridge.Float.{Float}
use niri_bridge.Protocol.Message.{Message}
use niri_bridge.Control.Layout as Layout
use niri_bridge.Control.Layout.{LayoutMessage, prepare, prepared, commit, result, abort}
use niri_bridge.Receiver.{InputSink}
use niri_bridge.Bridge.Edges.{EdgeConfig}
use niri_bridge.Bridge.Coordinator.{
  Reply, success, failure, World, PendingLayout, Coordinator, with_world, change_world, send,
}
use niri_bridge.Bridge.Coordinator.Commands.{
  check_idle, open_edit, go_local, drop_edit, set_pending,
}

-- `p.id == id && p.reply.is_some() == replies` of the pending transaction.
abbrev pub is_pending : {P : Type 0} → String → Bool → PendingLayout P → Bool
is_pending id true p = p.id ==ₛ id && p.replies
is_pending id false p = p.id ==ₛ id && not p.replies

-- `error.unwrap_or("operation_failed")`
abbrev pub or_failed : Option String → String
or_failed none = "operation_failed"
or_failed (some e) = e

module _ {F S W P : Type 0} ⦃fl : Float F⦄ (sk : InputSink F S) (w : World F W P) where
  -- `pending_layout.take()`
  unfoldable pub take_pending : Action (Coordinator F S W P) (Unit {0})
  take_pending = modify (λ c. record c { pending_layout = none })

  -- `if let Some(reply) = pending.reply.take() { reply.send(...) }`
  unfoldable pub answer : PendingLayout P → Reply → Action (Coordinator F S W P) (Unit {0})
  answer p reply = when p.replies (change_world (w.reply reply))

  unfoldable pub send_prepared :
      String → Bool → Option String → Action (Coordinator F S W P) (Unit {0})
  send_prepared id accepted error =
      send sk w (Message.layout (LayoutMessage.prepared id accepted error))

  -- `LayoutMessage::Prepare`
  unfoldable pub prepare_edit : List (EdgeConfig F) → String → Action (Coordinator F S W P) P
  prepare_edit edges revision = check_idle sk w >> open_edit sk w revision edges

  unfoldable pub prepared_edit : String → Result P → Action (Coordinator F S W P) (Unit {0})
  prepared_edit id (err e) = send_prepared id false (some (w.error_code e))
  prepared_edit id (ok edit) = do
    on_error (go_local sk w) (drop_edit sk w edit)
    set_pending sk w id edit false
    send_prepared id true none

  unfoldable pub on_prepare :
      String → List (EdgeConfig F) → String → Action (Coordinator F S W P) (Unit {0})
  on_prepare id edges revision = do
    edit ← attempt (prepare_edit edges revision)
    prepared_edit id edit

  -- `pending.prepared.commit()`: its result, and the transaction after it.
  unfoldable pub commit_edit :
      PendingLayout P → Action (Coordinator F S W P) (Result (Unit {0}) × PendingLayout P)
  commit_edit p = with_world (λ s.
      let (committed, edit, s') = w.commit p.prepared s in
      ((committed, record p { prepared = edit }), s'))

  unfoldable pub commit_if :
      Bool
      → Option String
      → PendingLayout P
      → Action (Coordinator F S W P) (Result (Unit {0}) × PendingLayout P)
  commit_if true error p = commit_edit p
  commit_if false error p = pure (err (or_failed error), p)

  unfoldable pub settle :
      String → Result (Unit {0}) × PendingLayout P → Action (Coordinator F S W P) (Unit {0})
  settle id (err e, p) =
      finally (do send sk w (Message.layout (Layout.abort id)); answer p (failure (w.error_code e)))
        (drop_edit sk w p.prepared)
  settle id (ok _, p) = do
    modify (λ c. record c { pending_layout = some p })
    send sk w (Message.layout (Layout.commit id))

  -- `LayoutMessage::Prepared`, at the side that asked
  unfoldable pub on_prepared :
      String
      → Bool
      → Option String
      → Option (PendingLayout P)
      → Action (Coordinator F S W P) (Unit {0})
  on_prepared id accepted error none = done
  on_prepared id accepted error (some p) =
      when (is_pending id true p)
        (do take_pending; outcome ← commit_if accepted error p; settle id outcome)

  unfoldable pub report :
      String → Result (Unit {0}) × PendingLayout P → Action (Coordinator F S W P) (Option Bool)
  report id (ok _, p) = do
    change_world (w.finish p.prepared)
    send sk w (Message.layout (Layout.result id true (some (w.after_revision p.prepared)) none))
    pure (some false)
  report id (err e, p) =
      finally
        (do
          send sk w (Message.layout (Layout.result id false none (some (w.error_code e))))
          pure none)
        (drop_edit sk w p.prepared)

  unfoldable pub commit_taken :
      String → PendingLayout P → Action (Coordinator F S W P) (Option Bool)
  commit_taken id p = do take_pending; outcome ← commit_edit p; report id outcome

  -- `LayoutMessage::Commit`, at the side that was asked
  unfoldable pub on_commit :
      String → Option (PendingLayout P) → Action (Coordinator F S W P) (Option Bool)
  on_commit id none = pure none
  on_commit id (some p) = if is_pending id false p then commit_taken id p else pure none

  unfoldable pub conclude :
      PendingLayout P → Bool → Option String → Action (Coordinator F S W P) (Option Bool)
  conclude p true error = do change_world (w.finish p.prepared); answer p success; pure (some false)
  conclude p false error =
      finally (answer p (failure (or_failed error)) >> pure none) (drop_edit sk w p.prepared)

  -- `LayoutMessage::Result`
  unfoldable pub on_result :
      String
      → Bool
      → Option String
      → Option (PendingLayout P)
      → Action (Coordinator F S W P) (Option Bool)
  on_result id accepted error none = pure none
  on_result id accepted error (some p) =
      if is_pending id true p then (take_pending >> conclude p accepted error) else pure none

  -- `LayoutMessage::Abort`
  unfoldable pub on_abort :
      String → Option (PendingLayout P) → Action (Coordinator F S W P) (Unit {0})
  on_abort id none = done
  on_abort id (some p) = when (p.id ==ₛ id) (
      take_pending >> finally (answer p (failure "layout_unconfirmed")) (drop_edit sk w p.prepared))

  unfoldable pub on_layout : LayoutMessage F → Action (Coordinator F S W P) (Option Bool)
  on_layout (prepare id edges revision) = on_prepare id edges revision >> pure none
  on_layout (prepared id accepted error) = do
    c ← get
    on_prepared id accepted error c.pending_layout
    pure none
  on_layout (commit id) = do c ← get; on_commit id c.pending_layout
  on_layout (result id accepted revision error) = do
    c ← get
    on_result id accepted error c.pending_layout
  on_layout (abort id) = do c ← get; on_abort id c.pending_layout; pure none
