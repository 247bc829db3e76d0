-- ===== src/Bridge/Service/Lasting.antt =====
-- src/bridge.rs, `run_async`: that the loop goes on after errors, and connects only when unlocked.
use niri_bridge.Prelude.{
  Bool-cases, Result, ok, err, ℕ, zero, suc, ◌+◌, String, ◌≡◌, refl, ap, ◌∙◌, inl, inr, true, false,
  Option, none, some, List, arith,
}
use niri_bridge.Pairing as Pairing
use niri_bridge.Bridge.Service.{
  Cause, Turn, next, leave, throw, waiting, Selected, exited, finished, Attempt, ended, broken,
  Host, Service, ◌follows◌, show_on, poll_pointer, loaded, reload, on_changed, wait_unlocked,
  on_attempt, on_connected, on_slept, cleared, connect_once, sleep_once, round, serve,
}

abbrev Stays : {A : Type 0} → Selected A → Type 0
Stays exited = ⊥
Stays (finished a) = Unit {0}

-- An attempt after which the loop goes on: a session that ends without a request to stop, or any
-- error but that of a capture that is not released.
abbrev GoesOn : Selected Attempt → Type 0
GoesOn exited = ⊥
GoesOn (finished (ended true)) = ⊥
GoesOn (finished (ended false)) = Unit {0}
GoesOn (finished (broken true causes)) = ⊥
GoesOn (finished (broken false causes)) = Unit {0}

abbrev Loads : {A : Type 0} → Result A → Type 0
Loads (ok a) = Unit {0}
Loads (err e) = ⊥

-- A host on which nothing asks the loop to end: no exit signal, no request of a session, no capture
-- that is not released, and a configuration that can be read, on an unlocked desktop. `tries` counts
-- the connections that were tried.
pub record IsQuiet {F W : Type 0} (host : Host F W) (tries : W → ℕ) : Type 0 where
  pub pointer : (w : W) → (host.pointer_lost w).0 ≡ false
  pub load : (path : String) (w : W) → Loads (host.load path w).0
  pub unlocked : (w : W) → host.unlocked w ≡ true
  pub connect : (config : Pairing.Config F) (w : W) → Stays (host.connect config w).0
  pub session : (config : Pairing.Config F) (w : W) → GoesOn (host.session config w).0
  pub sleep : (w : W) → Stays (host.sleep w).0
  pub pointer_tries : (w : W) → tries (host.pointer_lost w).1 ≡ tries w
  pub load_tries : (path : String) (w : W) → tries (host.load path w).1 ≡ tries w
  pub connect_tries :
      (config : Pairing.Config F) (w : W) → tries (host.connect config w).1 ≡ suc (tries w)
  pub session_tries :
      (config : Pairing.Config F) (w : W) → tries (host.session config w).1 ≡ tries w
  pub sleep_tries : (w : W) → tries (host.sleep w).1 ≡ tries w

module _ {F W : Type 0} (host : Host F W) where
  module _ (tries : W → ℕ) (quiet : IsQuiet host tries) where
    -- The loop goes on, with a number of connections tried.
    abbrev Continues : ℕ → Turn (Unit {0}) × Service F W → Type 0
    Continues n o = (o.0 ≡ next tt) × (tries o.1.world ≡ n)

    follows-Continues :
        (n m : ℕ) (o : Turn (Unit {0}) × Service F W)
        (k : Unit {0} → Service F W → Turn (Unit {0}) × Service F W)
        → Continues n o
        → ((s : Service F W) → tries s.world ≡ n → Continues m (k tt s))
        → Continues m (o follows k)
    follows-Continues n m (next _, s) k h rest = rest s h.1
    follows-Continues n m (leave r, s) k h rest = absurd (ground (arith, h.0))
    follows-Continues n m (throw e, s) k h rest = absurd (ground (arith, h.0))
    follows-Continues n m (waiting, s) k h rest = absurd (ground (arith, h.0))

    poll_pointer-Continues : (s : Service F W) → Continues (tries s.world) (poll_pointer host s)
    unfolding poll_pointer
    poll_pointer-Continues s = rw (quiet.pointer s.world) (refl, quiet.pointer_tries s.world)

    loaded-Continues :
        (o : Result (Pairing.Config F) × W) (s : Service F W)
        → Loads o.0
        → Continues (tries o.1) (loaded host o s)
    loaded-Continues (ok config, w) s h = (refl, refl)
    loaded-Continues (err e, w) s h = absurd h

    reload-Continues :
        (o : Option String) (s : Service F W) → Continues (tries s.world) (reload host o s)
    reload-Continues none s = (refl, refl)
    reload-Continues (some path) s =
        let (on, same) = loaded-Continues (host.load path s.world) s (quiet.load path s.world) in
        (on, same ∙ quiet.load_tries path s.world)

    wait_unlocked-Continues :
        (fuel : ℕ) (s : Service F W) → Continues (tries s.world) (wait_unlocked host (suc fuel) s)
    unfolding wait_unlocked
    wait_unlocked-Continues fuel s = rw (quiet.unlocked s.world) (refl, refl)

    on_attempt-Continues :
        (o : Selected Attempt) (s : Service F W)
        → GoesOn o
        → Continues (tries s.world) (on_attempt host o s)
    on_attempt-Continues exited s h = absurd h
    on_attempt-Continues (finished (ended true)) s h = absurd h
    on_attempt-Continues (finished (ended false)) s h = (refl, refl)
    on_attempt-Continues (finished (broken true causes)) s h = absurd h
    on_attempt-Continues (finished (broken false causes)) s h = (refl, refl)

    on_connected-Continues :
        (o : Selected (Option (List Cause))) (s : Service F W)
        → Stays o
        → Continues (tries s.world) (on_connected host o s)
    on_connected-Continues exited s h = absurd h
    on_connected-Continues (finished (some causes)) s h = (refl, refl)
    on_connected-Continues (finished none) s h =
        let (on, same) =
          on_attempt-Continues (host.session s.config s.world).0
            (record s { world = (host.session s.config s.world).1 })
            (quiet.session s.config s.world) in
        (on, same ∙ quiet.session_tries s.config s.world)

    connect_once-Continues :
        (n : ℕ) (s : Service F W) → tries s.world ≡ n → Continues (suc n) (connect_once host s)
    unfolding connect_once
    connect_once-Continues n s e =
        let (on, same) =
          on_connected-Continues (host.connect s.config s.world).0 _
            (quiet.connect s.config s.world) in
        (on, same ∙ quiet.connect_tries s.config s.world ∙ ap suc e)

    on_slept-Continues :
        (o : Selected (Unit {0})) (s : Service F W)
        → Stays o
        → Continues (tries s.world) (on_slept host o s)
    on_slept-Continues exited s h = absurd h
    on_slept-Continues (finished _) s h = (refl, refl)

    sleep_once-Continues :
        (n : ℕ) (s : Service F W) → tries s.world ≡ n → Continues n (sleep_once host s)
    unfolding sleep_once
    sleep_once-Continues n s e =
        let (on, same) =
          on_slept-Continues (host.sleep s.world).0 (record s { world = (host.sleep s.world).1 })
            (quiet.sleep s.world) in
        (on, same ∙ quiet.sleep_tries s.world ∙ e)

    round-Continues :
        (fuel : ℕ) (s : Service F W) → Continues (suc (tries s.world)) (round host (suc fuel) s)
    unfolding round
    round-Continues fuel s =
        let n = tries s.world in
        follows-Continues (suc n) (suc n) _ _
          (follows-Continues n (suc n) _ _
            (follows-Continues n n _ _
              (follows-Continues n n _ _ (poll_pointer-Continues s)
                (λ t e. let (on, same) = reload-Continues t.config.source_path t in (on, same ∙ e)))
              (λ t e.
                let (on, same) = wait_unlocked-Continues fuel (show_on host (cleared host) t) in
                (on, same ∙ e)))
            (connect_once-Continues n))
          (sleep_once-Continues (suc n))

    follows-waiting :
        (n m : ℕ) (o : Turn (Unit {0}) × Service F W)
        (k : Unit {0} → Service F W → Turn (Unit {0}) × Service F W)
        → Continues n o
        → ((s : Service F W)
            → tries s.world ≡ n
            → ((k tt s).0 ≡ waiting) × (tries (k tt s).1.world ≡ m))
        → ((o follows k).0 ≡ waiting) × (tries (o follows k).1.world ≡ m)
    follows-waiting n m (next _, s) k h rest = rest s h.1
    follows-waiting n m (leave r, s) k h rest = absurd (ground (arith, h.0))
    follows-waiting n m (throw e, s) k h rest = absurd (ground (arith, h.0))
    follows-waiting n m (waiting, s) k h rest = absurd (ground (arith, h.0))

    -- On a quiet host the loop goes on and connects again: after any number of rounds it has not
    -- ended, and has tried one more connection for each round, whatever errors the connections and
    -- the sessions end with.
    pub serve_lasts :
        (rounds fuel : ℕ) (s : Service F W)
        → ((serve host rounds (suc fuel) s).0 ≡ waiting)
          × (tries (serve host rounds (suc fuel) s).1.world ≡ tries s.world + rounds)
    unfolding serve
    serve_lasts zero fuel s = (refl, omega arith)
    serve_lasts (suc rounds) fuel s =
        follows-waiting (suc (tries s.world)) (tries s.world + suc rounds) (round host (suc fuel) s)
          _ (round-Continues fuel s)
          (λ t e. let (on, counted) = serve_lasts rounds fuel t in (on, omega (arith, counted, e)))

  on_changed_unlocked :
      (changed : Selected (Result (Unit {0}))) (s : Service F W)
      (again : Service F W → Turn (Unit {0}) × Service F W)
      → ((t : Service F W) → ((again t).0 ≡ next tt) → host.unlocked (again t).1.world ≡ true)
      → (on_changed host changed s again).0 ≡ next tt
      → host.unlocked (on_changed host changed s again).1.world ≡ true
  on_changed_unlocked exited s again h k = cc
  on_changed_unlocked (finished (err e)) s again h k = cc
  on_changed_unlocked (finished (ok _)) s again h k = h s k

  -- The wait that comes before a connection attempt gives way to it only on an unlocked desktop.
  wait_unlocked_lem :
      (fuel : ℕ) (s : Service F W)
      → (wait_unlocked host fuel s).0 ≡ next tt
      → host.unlocked (wait_unlocked host fuel s).1.world ≡ true
  unfolding wait_unlocked
  wait_unlocked_lem zero s h = cc
  wait_unlocked_lem (suc fuel) s h = elim (Bool-cases (host.unlocked s.world)) [
    | inl open_now ↦ rw open_now open_now
    | inr shut ↦ rw shut (
        on_changed_unlocked (host.status_changed s.world).0 _ (wait_unlocked host fuel)
          (λ t k. wait_unlocked_lem fuel t k) (rw shut at h))
  ]
