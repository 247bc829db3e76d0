-- ===== src/Touchpad/Clock.antt =====
-- src/touchpad.rs, `RemoteClock`: the peer's event times on the local clock.
use niri_bridge.Prelude.{
  ℕ, ◌%◌, ◌≤◌, ◌<◌, min, max, ◌≡◌, refl, Option, none, some, List, [], ◌∷◌, arith,
}
use niri_bridge.Prelude.Int.{
  ℤ, pos, negsuc, ◌+ℤ◌, ◌-ℤ◌, min_ℤ, max_ℤ, +ℤ_parts, -ℤ_parts, eq_of_parts,
}

pub record RemoteClock : Type 0 where
  pub offset : Option ℤ
  pub last : ℕ

-- `RemoteClock::default()`
abbrev pub unset : RemoteClock
unset = record { offset = none; last = 0 }

-- `offset.map_or(observed, |previous| previous.min(observed))`
abbrev pub best : Option ℤ → ℤ → ℤ
best none observed = observed
best (some previous) observed = min_ℤ previous observed

-- `as u64` of an `i128` that is not negative.
abbrev pub as_u64 : ℤ → ℕ
as_u64 (pos n) = n % 18446744073709551616
as_u64 (negsuc n) = 0

-- `map`: the local time of an event, with the clock that it leaves.
unfoldable pub map_time : RemoteClock → ℕ → ℕ → ℕ × RemoteClock
unfolding ◌+ℤ◌ ◌-ℤ◌
map_time clock source now =
    let offset = best clock.offset (pos now -ℤ pos source) in
    let time = min (max (as_u64 (max_ℤ (pos source +ℤ offset) (pos 1))) clock.last) now in
    (time, record { offset = some offset; last = time })

-- The times that a clock gives to events that arrive one after another.
unfoldable pub map_times : RemoteClock → List (ℕ × ℕ) → List ℕ
map_times clock [] = []
map_times clock ((source, now) ∷ events) =
    let (time, next) = map_time clock source now in time ∷ map_times next events

-- The local clock never goes back.
abbrev pub IsArrival : ℕ → List (ℕ × ℕ) → Type 0
IsArrival t [] = Unit {0}
IsArrival t ((source, now) ∷ events) = (t ≤ now) × IsArrival now events

-- Times that do not go back, and of which none lies after its event's arrival.
abbrev pub IsTimed : ℕ → List ℕ → List (ℕ × ℕ) → Type 0
IsTimed t [] [] = Unit {0}
IsTimed t (time ∷ times) ((source, now) ∷ events) =
    (t ≤ time) × (time ≤ now) × IsTimed time times events
IsTimed t _ _ = ⊥

IsArrival-weaken :
    (s t : ℕ) (events : List (ℕ × ℕ)) → s ≤ t → IsArrival t events → IsArrival s events
IsArrival-weaken s t [] k h = tt
IsArrival-weaken s t ((source, now) ∷ events) k h = (omega arith, h.1)

map_time-between :
    (clock : RemoteClock) (source now : ℕ)
    → clock.last ≤ now
    → let (time, next) = map_time clock source now in
      (clock.last ≤ time) × (time ≤ now) × (next.last ≡ time)
unfolding map_time
map_time-between clock source now h =
    let raw = as_u64 (max_ℤ (pos source +ℤ best clock.offset (pos now -ℤ pos source)) (pos 1)) in
    (omega arith, omega arith, refl)

-- On a local clock that does not go back: the times given to any events do not go back either,
-- and none lies after the arrival of its event, whatever times the peer claims.
pub map_times-IsTimed :
    (clock : RemoteClock) (events : List (ℕ × ℕ))
    → IsArrival clock.last events
    → IsTimed clock.last (map_times clock events) events
unfolding map_times
map_times-IsTimed clock [] h = tt
map_times-IsTimed clock ((source, now) ∷ events) h =
    let (up, down, last) = map_time-between clock source now h.0 in
    let next = (map_time clock source now).1 in
    let later = IsArrival-weaken next.last now events (omega (arith, last, down)) h.1 in
    let rest = map_times-IsTimed next events later in (up, down, (rw last at rest))

there_and_back : (a b : ℕ) → (pos a +ℤ (pos b -ℤ pos a)) ≡ pos b
there_and_back a b =
    eq_of_parts _ _ (omega (arith, +ℤ_parts (pos a) (pos b -ℤ pos a), -ℤ_parts (pos b) (pos a)))

as_u64_max : (n : ℕ) → 1 ≤ n → n < 18446744073709551616 → as_u64 (max_ℤ (pos n) (pos 1)) ≡ n
as_u64_max n one small = ground arith

-- An event that took no longer than any before it gets the time of its arrival: where the local
-- clock is running, within 64 bits and not before the last time given.
pub map_time-prompt :
    (clock : RemoteClock) (source now : ℕ)
    → clock.last ≤ now
    → 1 ≤ now
    → now < 18446744073709551616
    → best clock.offset (pos now -ℤ pos source) ≡ (pos now -ℤ pos source)
    → (map_time clock source now).0 ≡ now
unfolding map_time
map_time-prompt clock source now h one small same =
    rw (same, there_and_back source now, as_u64_max now one small) (omega arith)
