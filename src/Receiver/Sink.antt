-- ===== src/Receiver/Sink.antt =====
-- src/receiver.rs: the trait that an input backend implements.
use niri_bridge.Prelude.{◌==◌, length, Result, ok, err, ensure, String, List}
use niri_bridge.Protocol.Event.{InputEvent}
use niri_bridge.Touchpad.Descriptor.{Descriptor}

-- `trait InputSink`: a backend with states `S`. A failed method can have changed its state.
pub record InputSink (F S : Type 0) : Type 0 where
  pub poll : S → Result (Unit {0}) × S
  pub emit : InputEvent F → S → Result (Unit {0}) × S
  pub select_output : String → S → Result (Unit {0}) × S
  pub configure_touchpads : List Descriptor → S → Result (Unit {0}) × S
  pub reset_touchpads : S → Result (Unit {0}) × S

-- A backend that implements `emit` alone has the trait's default methods.
unfoldable pub default_sink :
    {F S : Type 0} → (InputEvent F → S → Result (Unit {0}) × S) → InputSink F S
default_sink emit = record {
  poll = λ s. (ok tt, s);
  emit = emit;
  select_output = λ output s. (err "This input backend cannot select a pointer output", s);
  configure_touchpads = λ devices s.
      (ensure (length devices == 0) "This input backend does not support native touchpads", s);
  reset_touchpads = λ s. (ok tt, s);
}
