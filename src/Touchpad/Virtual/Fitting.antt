-- ===== src/Touchpad/Virtual/Fitting.antt =====
-- src/touchpad.rs: the invariant of a virtual touchpad.
use niri_bridge.Prelude.{
  ltb, ◌==◌, ==_iff, Bool-cases, get_elem?, ok, for_each, ℕ, ◌≡◌, refl, ap, inl, inr, true, Option,
  none, some, List, [], ◌∷◌, arith,
}
use niri_bridge.Prelude.Int.{ℤ, pos, eqb_ℤ}
use niri_bridge.Prelude.Sets.{
  contains, insert, remove, contains-insert, contains-remove, IsSorted, insert-IsSorted,
  remove-IsSorted,
}
use niri_bridge.Prelude.All.{ensure-ok, >>-ok}
use niri_bridge.Prelude.Action.{done}
use niri_bridge.Touchpad.Event.{Kind, key, absolute, Event, slot, validate_frame}
use niri_bridge.Touchpad.Descriptor.{Descriptor, validate, advertised, validate_device_frame}
use niri_bridge.Touchpad.Descriptor as Descriptor
use niri_bridge.Touchpad.State.{TouchState, new, put_contact, apply_event, on_some, apply}
use niri_bridge.Touchpad.State as State
use niri_bridge.Touchpad.State.Total.{Fits, apply-Fits, new-Fits}

-- The keys that are down are keys of the touchpad, and ascend.
pub record IsKnown (d : Descriptor) (keys : List ℕ) : Type 0 where
  pub known : (z : ℕ) → contains keys z ≡ true → contains d.keys z ≡ true
  pub sorted : IsSorted keys

-- A validated touchpad with a state that fits it.
pub record IsFitting (d : Descriptor) (s : TouchState) : Type 0 where
  pub valid : Descriptor.validate d ≡ ok tt
  pub fits : Fits d s
  pub keys : IsKnown d s.keys

remove-IsKnown :
    (d : Descriptor) (keys : List ℕ) (c : ℕ) → IsKnown d keys → IsKnown d (remove keys c)
remove-IsKnown d keys c h = record {
  known = λ z k. ground (arith, contains-remove keys c z, h.known z);
  sorted = remove-IsSorted keys c h.sorted;
}

insert-IsKnown :
    (d : Descriptor) (keys : List ℕ) (c : ℕ)
    → contains d.keys c ≡ true
    → IsKnown d keys
    → IsKnown d (insert keys c)
insert-IsKnown d keys c own h = record {
  known = λ z k. elim (Bool-cases (z == c)) [
    | inl same ↦ rw ((==_iff z c).0 same) own
    | inr other ↦ h.known z (ground (arith, contains-insert keys c z))
  ];
  sorted = insert-IsSorted keys c h.sorted;
}

pub some-injective : {A : Type 0} (a b : A) → some a ≡ some b → a ≡ b
some-injective a b h = cc

on_some-some :
    {A B : Type 0} (o : Option A) (f : A → Option B) (b : B)
    → on_some o f ≡ some b
    → (a : A) × (o ≡ some a) × (f a ≡ some b)
on_some-some none f b h = cc
on_some-some (some a) f b h = (a, refl, h)

put_contact-keys :
    (o : Option (List (ℕ × ℤ))) (code : ℕ) (v : ℤ) (s s' : TouchState)
    → put_contact o code v s ≡ some s'
    → s.keys ≡ s'.keys
put_contact-keys none code v s s' h = cc
put_contact-keys (some c) code v s s' h = ap (λ (t : TouchState). t.keys) (some-injective _ s' h)

absolute-keys :
    (e : Event) (s s' : TouchState) → apply_event absolute e s ≡ some s' → s.keys ≡ s'.keys
unfolding apply_event
absolute-keys e s s' h = elim (Bool-cases (e.code == slot)) [
  | inl own ↦ ap (λ (t : TouchState). t.keys) (some-injective _ s' (rw own at h))
  | inr other ↦ elim (Bool-cases (ltb slot e.code)) [
    | inl above ↦
        put_contact-keys (get_elem? s.contacts s.slot) e.code e.value s s' (rw (other, above) at h)
    | inr below ↦ ap (λ (t : TouchState). t.keys) (some-injective _ s' (rw (other, below) at h))
  ]
]

key-IsKnown :
    (d : Descriptor) (e : Event) (s s' : TouchState)
    → advertised d key e ≡ ok tt
    → apply_event key e s ≡ some s'
    → IsKnown d s.keys
    → IsKnown d s'.keys
unfolding apply_event
key-IsKnown d e s s' own h k =
    let same = ap (λ (t : TouchState). t.keys) (some-injective _ s' h) in
    elim (Bool-cases (eqb_ℤ e.value (pos 0))) [
      | inl up ↦ let same = (rw up at same) in (rw same at (remove-IsKnown d s.keys e.code k))
      | inr down ↦
          let same = (rw down at same) in
          (rw same at (insert-IsKnown d s.keys e.code ((ensure-ok _ _).0 own) k))
    ]

apply_event-IsKnown :
    (d : Descriptor) (kind : Kind) (e : Event) (s s' : TouchState)
    → advertised d kind e ≡ ok tt
    → apply_event kind e s ≡ some s'
    → IsKnown d s.keys
    → IsKnown d s'.keys
apply_event-IsKnown d key e s s' own h k = key-IsKnown d e s s' own h k
apply_event-IsKnown d absolute e s s' own h k = let same = absolute-keys e s s' h in (rw same at k)

apply-IsKnown :
    (d : Descriptor) (frame : List Event) (s s' : TouchState)
    → for_each (λ e. advertised d e.kind e) frame ≡ ok tt
    → apply frame s ≡ some s'
    → IsKnown d s.keys
    → IsKnown d s'.keys
unfolding apply
apply-IsKnown d [] s s' own h k =
    let same = ap (λ (t : TouchState). t.keys) (some-injective s s' h) in (rw same at k)
apply-IsKnown d (e ∷ frame) s s' own h k =
    let (one, others) =
      (>>-ok (advertised d e.kind e) (for_each (λ e. advertised d e.kind e) frame) tt).0 own in
    let (s₁, first, rest) = on_some-some (apply_event e.kind e s) (apply frame) s' h in
    apply-IsKnown d frame s₁ s' others rest (apply_event-IsKnown d e.kind e s s₁ one first k)

-- A frame that the descriptor admits is applied, and what it leaves fits again.
pub apply-IsFitting :
    (d : Descriptor) (frame : List Event) (s : TouchState)
    → validate_device_frame d frame ≡ ok tt
    → IsFitting d s
    → (s' : TouchState) × (apply frame s ≡ some s') × IsFitting d s'
unfolding validate_device_frame
apply-IsFitting d frame s h f =
    let (s', done, fits) = apply-Fits d frame s f.valid h f.fits in
    let (_, own) =
      (>>-ok (validate_frame frame) (for_each (λ e. advertised d e.kind e) frame) tt).0 h in
    (
      s',
      done,
      record { valid = f.valid; fits = fits; keys = apply-IsKnown d frame s s' own done f.keys },
    )

pub new-IsFitting : (d : Descriptor) → Descriptor.validate d ≡ ok tt → IsFitting d (State.new d)
unfolding State.new
new-IsFitting d v = record {
  valid = v;
  fits = new-Fits d v;
  keys = record { known = λ z h. absurd (ground arith); sorted = tt };
}
