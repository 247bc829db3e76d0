-- ===== src/Bridge/Coordinator/Safety.antt =====
-- src/bridge.rs, `coordinate_with_control`: what holds while it runs, and what it leaves when it ends.
use niri_bridge.Prelude.{
  if◌then◌else◌, ok, ℕ, ◌≡◌, refl, sym, ap, ◌∙◌, Bool, true, false, not, Option, none, List,
}
use niri_bridge.Prelude.Action.{◌>>=◌, ◌>>◌, attempt}
use niri_bridge.Prelude.Sets.{contains}
use niri_bridge.Float.{Float}
use niri_bridge.Touchpad.Descriptor.{Descriptor}
use niri_bridge.Control.Layout.{Desktop}
use niri_bridge.Receiver as Receiver
use niri_bridge.Receiver.{InputSink, Receiver, new}
use niri_bridge.Bridge.Coordinator.{World, Config, Coordinator, with_receiver}
use niri_bridge.Receiver.Safe.{IsHonest}
use niri_bridge.Prelude.Triple.{After, Leads, bind, seq, read, always}
use niri_bridge.Bridge.Coordinator.View.{View, view, IsHome, home-IsValid, Safe, Sees, Sound}
use niri_bridge.Bridge.Coordinator.Steps.{lands, ends-Sound, send-IsQuiet}
use niri_bridge.Receiver.Calls.{local_lock-IsSafe}
use niri_bridge.Receiver.Leaves.{local_lock-session}
use niri_bridge.Receiver.Run.{new-IsSafe}
use niri_bridge.Bridge.Coordinator.Run.{Event, loop, greet, after_loop, start, run}
use niri_bridge.Bridge.Coordinator.Keeps.Loop.{loop_lem}
use niri_bridge.Bridge.Coordinator.Ending.{
  Ended, after_state, when_ok, After-any, Ended-waits, after_run, clean_lem,
}

module _ {F S W P : Type 0} ⦃fl : Float F⦄ (sk : InputSink F S) (down : S → ℕ → Bool)
    (honest : IsHonest sk down) (w : World F W P) where
  -- The greeting leaves the view as it is, also where it fails.
  greet_lem :
      {E : Coordinator F S W P → Type 0} (devices : List Descriptor) (v : View F)
      → ((c : Coordinator F S W P) → Sees down v c → E c)
      → IsHome v
      → Leads E (Sees down v) (greet sk w devices) (λ _. Sees down v)
  unfolding greet with_receiver
  greet_lem {E = E} devices v fails home = read (λ c _.
      seq E
        (always fails (λ d h. record {
          safe = local_lock-IsSafe sk down honest (not c.local_ready) d.receiver h.safe;
          sees =
              ap (λ n. record (view d) { session = n })
                (local_lock-session sk d.receiver down h.safe (not c.local_ready)
                  ∙ not_session (not c.local_ready) d.receiver.session
                      (ap (λ (u : View F). u.session) h.sees ∙ home.0))
              ∙ (ap (λ (u : View F). record u { session = none }) h.sees
                  ∙ ap (λ n. record v { session = n }) (sym home.0));
        }))
        (seq E (always fails ((send-IsQuiet down sk honest w _).keeps v)) (
          seq E (always fails ((send-IsQuiet down sk honest w _).keeps v))
            (always fails ((send-IsQuiet down sk honest w _).keeps v)))))
    where
      not_session : (b : Bool) (n : Option ℕ) → n ≡ none → (if b then none else n) ≡ none
      not_session true n e = refl
      not_session false n e = e

  module _ (config : Config F) (screens : Desktop F) (physical_keyboard local_ready : Bool)
      (t u : ℕ) (sink : S) (world : W) (up : (code : ℕ) → down sink code ≡ false) where
    abbrev begins : Coordinator F S W P
    begins = start sk w config screens physical_keyboard local_ready t u sink world

    begins-Sees : Sees down (view begins) begins
    unfolding start
    begins-Sees = record { safe = new-IsSafe sk down honest sink up; sees = refl }

    begins-IsHome : IsHome (view begins)
    unfolding start Receiver.new
    begins-IsHome = (refl, refl, refl)

    -- From a start with nothing pressed, and over any events of the rounds, answers of the
    -- connection, the desktop, the capture and the activity source, and failures of the backend:
    -- while the loop goes on, the receiver is in a session exactly in the role of receiving it;
    -- there is a session, of either direction, only while both sides are unlocked; while a layout
    -- transaction is pending there is neither a session nor a capture; and each code that is down
    -- is held or waits for its release, which holds also where the loop fails.
    pub loop-Sound :
        (devices : List Descriptor) (events : List (Event F))
        → After (Safe down) (λ _. Sound down) ((greet sk w devices >> loop sk w events) begins)
    loop-Sound devices events =
        (seq (Safe down)
            (ends-Sound down (home-IsValid (view begins) begins-IsHome)
              (greet_lem devices (view begins) (λ c h. h.safe) begins-IsHome))
            (loop_lem sk down honest w events)).runs
          begins begins-Sees

    -- The loop's own result, and the end of the session after it.
    tail_lem :
        (events : List (Event F))
        → Leads
            (Ended sk down honest w)
            (Sees down (view begins))
            (attempt (loop sk w events) >>= (λ outcome. after_loop sk w outcome))
            (λ _. Ended sk down honest w)
    unfolding attempt
    tail_lem events =
        bind (Ended sk down honest w)
          (record {
            runs = λ c h.
                after_state sk down honest w (Safe down) (loop sk w events c) (λ _ d g. g.safe)
                  (λ d g. g)
                  ((loop_lem sk down honest w events).runs c
                    (lands down (view begins) c (home-IsValid (view begins) begins-IsHome) h));
          })
          (λ outcome. after_run sk down honest w outcome)

    run-Ended :
        (devices : List Descriptor) (events : List (Event F))
        → Ended sk down honest w (run sk w devices events begins).1
    unfolding run
    run-Ended devices events = After-any sk down honest w (run sk w devices events begins) (
        (seq (Ended sk down honest w)
            (greet_lem devices (view begins)
              (λ c h. (h.safe, (ap (λ (v : View F). v.session) h.sees ∙ begins-IsHome.0)))
              begins-IsHome)
            (tail_lem events)).runs
          begins begins-Sees)

    run-Clean :
        (devices : List Descriptor) (events : List (Event F))
        → After
            (λ _. Unit {0})
            (λ _ c. (code : ℕ) → down c.receiver.sink code ≡ false)
            (run sk w devices events begins)
    unfolding run attempt
    run-Clean devices events =
        (seq (λ _. Unit {0}) (greet_lem devices (view begins) (λ c h. tt) begins-IsHome)
            (bind (λ _. Unit {0})
              (record {
                runs = λ c h.
                    after_state sk down honest w (Safe down) (loop sk w events c) (λ _ d g. g.safe)
                      (λ d g. g)
                      ((loop_lem sk down honest w events).runs c
                        (lands down (view begins) c (home-IsValid (view begins) begins-IsHome) h));
              })
              (λ outcome. clean_lem sk down honest w outcome))).runs
          begins begins-Sees

    -- From a start with nothing pressed, and over any events of the rounds, answers of what
    -- surrounds the coordinator, and failures of the backend: when the coordinator ends, whether
    -- it returns or fails, the receiver is in no session, and a code that is still down waits for
    -- its release.
    pub run_ends :
        (devices : List Descriptor) (events : List (Event F)) (code : ℕ)
        → let r = (run sk w devices events begins).1.receiver in
          (r.session ≡ none) × (down r.sink code ≡ true → contains r.pending_releases code ≡ true)
    run_ends devices events code =
        let ended = run-Ended devices events in
        (ended.1, Ended-waits sk down honest w (run sk w devices events begins).1 code ended)

    -- Where the coordinator returns without an error, from a start with nothing pressed, no code is
    -- down: a release that fails at the end is an error.
    pub run_clean :
        (devices : List Descriptor) (events : List (Event F)) (again : Option Bool) (code : ℕ)
        → (run sk w devices events begins).0 ≡ ok again
        → down (run sk w devices events begins).1.receiver.sink code ≡ false
    run_clean devices events again code good =
        when_ok sk down honest w (λ c. (k : ℕ) → down c.receiver.sink k ≡ false)
          (run sk w devices events begins) again good (run-Clean devices events) code
