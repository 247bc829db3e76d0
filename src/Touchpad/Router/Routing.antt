-- ===== src/Touchpad/Router/Routing.antt =====
-- src/touchpad.rs, `Router::route`: the change of the touchpads' destination.
use niri_bridge.Prelude.Int.{ℤ}
use niri_bridge.Touchpad.State.Showing.{ShowsAll}
use niri_bridge.Prelude.All.{All}
use niri_bridge.Prelude.{Result, ok, err, ℕ, ◌≡◌, Bool, true, false, ◌&&◌, List, [], ◌∷◌, ◌++◌, map}
use niri_bridge.Prelude.Action.{Action}
use niri_bridge.Touchpad.Event.{Event}
use niri_bridge.Touchpad.State.{TouchState, snapshot}
use niri_bridge.Touchpad.State as State
use niri_bridge.Touchpad.Physical.{Evdev}
use niri_bridge.Touchpad.Virtual.{Uinput}
use niri_bridge.Touchpad.Capture.{CapturedFrame, PhysicalTouchpad, View}
use niri_bridge.Touchpad.Router.{Router, Shared, flat}

-- What the peer gets of a touchpad: its contacts, if it is grabbed and the destination is the peer.
abbrev own_snapshots : Bool → Bool → TouchState → List (List Event)
own_snapshots true true s = snapshot s ∷ []
own_snapshots true false s = []
own_snapshots false grabbed s = []

abbrev snapshots_of : {R D : Type 0} → Bool → List (PhysicalTouchpad R D) → List (List Event)
snapshots_of remote [] = []
snapshots_of remote (p ∷ pads) = own_snapshots remote p.grabbed p.state ++ snapshots_of remote pads

-- A frame of a touchpad, if it has one: the first of the frames, which shows each of its contacts.
abbrev pub FirstShows :
    Bool → List (List (ℕ × ℤ)) → List (List Event) → (List (List Event) → Type 0) → Type 0
FirstShows false contacts frames Rest = Rest frames
FirstShows true contacts [] Rest = ⊥
FirstShows true contacts (events ∷ frames) Rest = ShowsAll 0 contacts events × Rest frames

-- The frames for the peer: one for each grabbed touchpad, in order, and none where the destination
-- is not the peer.
abbrev pub FramesShow :
    {R D : Type 0} → Bool → List (PhysicalTouchpad R D) → List (List Event) → Type 0
FramesShow remote [] frames = frames ≡ []
FramesShow remote (p ∷ pads) frames =
    FirstShows (remote && p.grabbed) p.state.contacts frames (FramesShow remote pads)

-- When the destination is the peer, a grabbed touchpad's local mirror holds nothing.
abbrev LocalIsReleased : {R D : Type 0} → Bool → PhysicalTouchpad R D → Type 0
LocalIsReleased true p = p.grabbed ≡ true → p.mirror.state ≡ State.new p.mirror.descriptor
LocalIsReleased false p = Unit {0}

abbrev events_of : List CapturedFrame → List (List Event)
events_of frames = map (λ (f : CapturedFrame). f.events) frames

module _ {W R D : Type 0} (kernel : Evdev W R) (uinput : Uinput W D) where
  abbrev Nothing : {S : Type 0} → S → Type 0
  Nothing s = Unit {0}

  -- The view that a touchpad's round leaves, when it succeeds.
  abbrev Routed : Bool → View W R D → List CapturedFrame → View W R D → Type 0
  Routed remote v frames t =
      (events_of frames ≡ own_snapshots remote v.pad.grabbed v.pad.state)
      × (t.pending ≡ v.pending)
      × LocalIsReleased remote t.pad

  -- What the loop over the touchpads leaves, when it succeeds.
  abbrev AllRouted :
      Bool
      → List (PhysicalTouchpad R D)
      → Shared W
      → Result (List (List CapturedFrame)) × (List (PhysicalTouchpad R D) × Shared W)
      → Type 0
  AllRouted remote pads shared (err e, end) = Unit {0}
  AllRouted remote pads shared (ok frames, end) =
      (events_of (flat kernel uinput frames) ≡ snapshots_of remote pads)
      × (end.1.0 ≡ shared.0)
      × All (LocalIsReleased remote) end.0

  -- After a change of destination: no captured frame waits any more, the frames that it
  -- returns are exactly the contacts of the grabbed touchpads, in order, when the destination is
  -- the peer, and none otherwise; and when it is the peer, the local mirror of each grabbed
  -- touchpad has been released.
  abbrev pub Switched : Bool → Router R D → List CapturedFrame → Router R D → Type 0
  Switched remote router frames router' =
      (router'.remote ≡ remote)
      × (router'.pending ≡ [])
      × FramesShow remote router.pads (events_of frames)
      × All (LocalIsReleased remote) router'.pads
