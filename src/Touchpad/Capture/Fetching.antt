-- ===== src/Touchpad/Capture/Fetching.antt =====
-- src/touchpad.rs, `Router::sample`: that the loop over the fetched batches ends.
use niri_bridge.Prelude.{
  ltb, ◌==◌, Bool-cases, length, length-append, Result, ok, err, ℕ, zero, suc, ◌+◌, ◌≤◌, ◌<◌, inl,
  inr, Option, none, some, List, [], ◌++◌, arith,
}
use niri_bridge.Prelude.Action.{Action, pure, fail}
use niri_bridge.Touchpad.Physical.{RawEvent, Fetched, batch, would_block, failed, Evdev}
use niri_bridge.Touchpad.Virtual.{Uinput}
use niri_bridge.Touchpad.Capture.{fetched_batch, on_fetched, fetch_all, fetch_fuel}

-- An error, or a number of events that is within the limit: not the end of the fuel.
abbrev pub IsFetched : Result (Option (List RawEvent)) → Type 0
IsFetched (err e) = Unit {0}
IsFetched (ok none) = ⊥
IsFetched (ok (some events)) = length events ≤ 4096

module _ {W R D : Type 0} (kernel : Evdev W R) (uinput : Uinput W D) where
  fetch_batch-IsFetched :
      (events new_events : List RawEvent)
      (again : List RawEvent → Action W (Option (List RawEvent))) (w : W)
      → (length events < length (events ++ new_events)
          → length (events ++ new_events) ≤ 4096
          → IsFetched (again (events ++ new_events) w).0)
      → IsFetched (fetched_batch kernel uinput events new_events again w).0
  unfolding fail pure
  fetch_batch-IsFetched events new_events again w h =
      let all = length (events ++ new_events) in
      let grown = length-append events new_events in
      elim (Bool-cases (ltb 4096 all)) [
        | inl full ↦ rw full tt
        | inr room ↦ elim (Bool-cases (all == length events)) [
          | inl last ↦ rw (room, last) (ground arith)
          | inr more ↦ rw (room, more) (h (ground (arith, grown)) (ground arith))
        ]
      ]

  on_fetched-IsFetched :
      (fetched : Fetched) (events : List RawEvent)
      (again : List RawEvent → Action W (Option (List RawEvent))) (w : W)
      → length events ≤ 4096
      → ((all : List RawEvent)
          → length events < length all
          → length all ≤ 4096
          → IsFetched (again all w).0)
      → IsFetched (on_fetched kernel uinput fetched events again w).0
  unfolding fail pure
  on_fetched-IsFetched (batch new_events) events again w few next =
      fetch_batch-IsFetched events new_events again w (next (events ++ new_events))
  on_fetched-IsFetched would_block events again w few next = few
  on_fetched-IsFetched failed events again w few next = tt

  fetch_all-IsFetched :
      (fuel : ℕ) (r : R) (events : List RawEvent) (w : W)
      → length events ≤ 4096
      → 4098 ≤ fuel + length events
      → IsFetched (fetch_all kernel uinput fuel r events w).0
  unfolding fetch_all
  fetch_all-IsFetched zero r events w few enough = absurd (omega (arith, few, enough))
  fetch_all-IsFetched (suc fuel) r events w few enough =
      let (fetched, w') = kernel.fetch_events r w in
      on_fetched-IsFetched fetched events (fetch_all kernel uinput fuel r) w' few
        (λ all more room. fetch_all-IsFetched fuel r all w' room (omega (arith, enough, more)))

  -- Whatever the device gives, a loop over its batches with fuel for 4098 rounds does not run out
  -- of it: it fails, or ends with at most 4096 events.
  pub fetch_all-ends :
      (r : R) (w : W) → IsFetched (fetch_all kernel uinput (fetch_fuel kernel uinput) r [] w).0
  fetch_all-ends r w = fetch_all-IsFetched 4098 r [] w (omega arith) (omega arith)
