-- ===== src/Input/Keys/Report.antt =====
-- What the reader of the drained events knows: the keys that it counts as held are those that some
-- device holds.
use mathlib.Core.List.{append_assoc, append-nil}
use niri_bridge.Prelude.{
  ◌==◌, if◌then◌else◌, ==_iff, Bool-cases, in_range, ok, and_then-eq-ok, ℕ, ◌≡◌, refl, sym, ap, ◌∙◌,
  inl, inr, Bool, true, false, List, [], ◌∷◌, ◌++◌, arith,
}
use niri_bridge.Prelude.Sets.{contains}
use niri_bridge.Protocol.Event.{InputEvent, key}
use niri_bridge.Input.Keys.{
  PhysicalKeys, any_holds, update_entry, get_entry, remove_entry, update, release_keys, disconnect,
  drain,
}
use niri_bridge.Input.Keys.Maps.{
  any_holds-update_entry_ne, get_entry-update_entry_release, any_holds-remove_entry,
  any_holds-get_entry,
}

module _ {F : Type 0} where
  -- Whether the events leave the code pressed, where `b` is how they find it.
  abbrev pub note : InputEvent F → ℕ → Bool → Bool
  note (key c pressed) code b = if code == c then pressed else b
  note _ code b = b

  abbrev pub reported : List (InputEvent F) → ℕ → Bool → Bool
  reported [] code b = b
  reported (e ∷ es) code b = reported es code (note e code b)

  reported-append :
      (xs ys : List (InputEvent F)) (code : ℕ) (b : Bool)
      → reported (xs ++ ys) code b ≡ reported ys code (reported xs code b)
  reported-append [] ys code b = refl
  reported-append (x ∷ xs) ys code b = reported-append xs ys code (note x code b)

  -- The events that were drained before, and those that wait.
  abbrev pub Agrees : List (InputEvent F) → PhysicalKeys F → Type 0
  Agrees sent k = (code : ℕ) → reported (sent ++ k.pending) code false ≡ any_holds k.devices code

  abbrev pub InRange : PhysicalKeys F → Type 0
  InRange k = (code : ℕ) → any_holds k.devices code ≡ true → in_range 1 255 code ≡ true

  update-InRange :
      (k : PhysicalKeys F) (d c : ℕ) (p : Bool) → InRange k → InRange (update k d c p).1
  unfolding update
  update-InRange k d c p h code =
      grind (arith, h code, ==_iff code c, any_holds-update_entry_ne k.devices d c p code)

  update-Agrees :
      (sent : List (InputEvent F)) (k : PhysicalKeys F) (d c : ℕ) (p : Bool)
      → Agrees sent k
      → (update k d c p).0 ≡ ok tt
      → Agrees sent (update k d c p).1
  unfolding update
  update-Agrees sent k d c p h done code = ground (
    arith,
    h code,
    any_holds-update_entry_ne k.devices d c p code,
    append_assoc sent k.pending (key c (any_holds (update_entry k.devices d c p) c) ∷ []),
    reported-append (sent ++ k.pending) (key c (any_holds (update_entry k.devices d c p) c) ∷ [])
        code false,
  )

  -- What holds of a device map that its reader has followed.
  pub record IsFollowed (sent : List (InputEvent F)) (k : PhysicalKeys F) : Type 0 where
    pub agrees : Agrees sent k
    pub ranged : InRange k

  pub update-IsFollowed :
      (sent : List (InputEvent F)) (k : PhysicalKeys F) (d c : ℕ) (p : Bool)
      → IsFollowed sent k
      → (update k d c p).0 ≡ ok tt
      → IsFollowed sent (update k d c p).1
  update-IsFollowed sent k d c p v done = record {
    agrees = update-Agrees sent k d c p v.agrees done;
    ranged = update-InRange k d c p v.ranged;
  }

  release_keys-IsFollowed :
      (sent : List (InputEvent F)) (codes : List ℕ) (d : ℕ) (k : PhysicalKeys F)
      → IsFollowed sent k
      → (release_keys codes d k).0 ≡ ok tt
      → IsFollowed sent (release_keys codes d k).1
  unfolding release_keys
  release_keys-IsFollowed sent [] d k v done = v
  release_keys-IsFollowed sent (c ∷ codes) d k v done =
      let (_, first, both) =
        and_then-eq-ok (update k d c false) (λ _ k'. release_keys codes d k') done in
      rw both (
        release_keys-IsFollowed sent codes d (update k d c false).1
          (update-IsFollowed sent k d c false v first) (ap (λ r. r.0) (sym both) ∙ done))

  -- A key that a device still holds after one was released is another key, held before.
  update_release-get_entry :
      (k : PhysicalKeys F) (d c z : ℕ)
      → in_range 1 255 z ≡ true
      → contains (get_entry (update k d c false).1.devices d) z ≡ true
      → ((z == c) ≡ false) × (contains (get_entry k.devices d) z ≡ true)
  unfolding update
  update_release-get_entry k d c z r h =
      ground (arith, ==_iff z c, get_entry-update_entry_release k.devices d c z)

  -- What a device holds after keys were released, it held before, and it is none of them.
  release_keys-get_entry :
      (codes : List ℕ) (d : ℕ) (k : PhysicalKeys F) (z : ℕ)
      → (release_keys codes d k).0 ≡ ok tt
      → in_range 1 255 z ≡ true
      → contains (get_entry (release_keys codes d k).1.devices d) z ≡ true
      → (contains codes z ≡ false) × (contains (get_entry k.devices d) z ≡ true)
  unfolding release_keys
  release_keys-get_entry [] d k z done r h = (refl, h)
  release_keys-get_entry (c ∷ codes) d k z done r h =
      let (_, _, both) =
        and_then-eq-ok (update k d c false) (λ _ k'. release_keys codes d k') done in
      let (fresh, before) =
        release_keys-get_entry codes d (update k d c false).1 z (ap (λ o. o.0) (sym both) ∙ done) r
          (ap (λ o. contains (get_entry o.1.devices d) z) (sym both) ∙ h) in
      ground (arith, update_release-get_entry k d c z r before, fresh)

  -- After its keys were released a device holds nothing.
  release_all_keys-get_entry :
      (sent : List (InputEvent F)) (k : PhysicalKeys F) (d z : ℕ)
      → IsFollowed sent k
      → (release_keys (get_entry k.devices d) d k).0 ≡ ok tt
      → contains (get_entry (release_keys (get_entry k.devices d) d k).1.devices d) z ≡ false
  release_all_keys-get_entry sent k d z v done =
      let after = (release_keys (get_entry k.devices d) d k).1 in
      elim (Bool-cases (contains (get_entry after.devices d) z)) [
        | inl h ↦
            let r =
              (release_keys-IsFollowed sent (get_entry k.devices d) d k v done).ranged z
                (any_holds-get_entry after.devices d z h) in
            let (fresh, before) = release_keys-get_entry (get_entry k.devices d) d k z done r h in
            cc
        | inr h ↦ h
      ]

  pub disconnect-IsFollowed :
      (sent : List (InputEvent F)) (k : PhysicalKeys F) (d : ℕ)
      → IsFollowed sent k
      → (disconnect k d).0 ≡ ok tt
      → IsFollowed sent (disconnect k d).1
  unfolding disconnect
  disconnect-IsFollowed sent k d v done =
      let codes = get_entry k.devices d in
      let released = (release_keys codes d k).1 in
      let (_, first, both) =
        and_then-eq-ok (release_keys codes d k)
          (λ _ k'. (ok tt, record k' { devices = remove_entry k'.devices d })) done in
      let w = release_keys-IsFollowed sent codes d k v first in
      let same = λ (z : ℕ).
        any_holds-remove_entry released.devices d z
          (release_all_keys-get_entry sent k d z v first) in
      rw both (record {
        agrees = λ z. w.agrees z ∙ sym (same z);
        ranged = λ z h. w.ranged z (sym (same z) ∙ h);
      })

  pub drain-IsFollowed :
      (sent : List (InputEvent F)) (k : PhysicalKeys F)
      → IsFollowed sent k
      → IsFollowed (sent ++ (drain k).0) (drain k).1
  unfolding drain
  drain-IsFollowed sent k v = record {
    agrees = λ code. rw append-nil (v.agrees code);
    ranged = v.ranged;
  }
