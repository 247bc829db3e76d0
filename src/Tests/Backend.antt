-- ===== src/Tests/Backend.antt =====
-- A backend that holds keys and buttons down and stops to work after a number of emissions.
use niri_bridge.Prelude.{
  ltb, leb, Result, ok, err, ℕ, zero, suc, ◌+◌, ◌-◌, min, ◌*◌, ◌/◌, ◌≡◌, ◌⊎◌, inl, Bool, true,
  false, Option, none, some, List, arith,
}
use niri_bridge.Prelude.Sets.{contains, insert, remove, contains-insert, contains-remove}
use niri_bridge.Float.{Float}
use niri_bridge.Protocol.Event.{InputEvent, held_transition}
use niri_bridge.Receiver.{InputSink, default_sink}
use niri_bridge.Receiver.Safe.{IsHonest}

instance abbrev pub whole_numbers : Float ℕ
whole_numbers = record {
  is_finite = λ _. true;
  leb = λ a b. leb a b;
  ltb = λ a b. ltb a b;
  add = λ a b. a + b;
  sub = λ a b. a - b;
  mul = λ a b. a * b;
  div = λ a b. a / b;
  abs = λ a. a;
  min = λ a b. min a b;
  to_u32 = λ a. a;
  of_ℕ = λ n. n;
  epsilon = 0;
}

-- The emissions left, and the codes that are down.
pub record Board : Type 0 where
  pub left : ℕ
  pub codes : List ℕ

abbrev pub is_down : Board → ℕ → Bool
is_down b c = contains b.codes c

abbrev pub changed : Option (ℕ × Bool) → List ℕ → List ℕ
changed none codes = codes
changed (some (c, true)) codes = insert codes c
changed (some (c, false)) codes = remove codes c

abbrev pub emit_with : ℕ → InputEvent ℕ → Board → Result (Unit {0}) × Board
emit_with zero e b = (err "The backend has stopped", b)
emit_with (suc n) e b = (ok tt, record { left = n; codes = changed (held_transition e) b.codes })

abbrev pub board : InputSink ℕ Board
board = default_sink (λ e b. emit_with b.left e b)

presses :
    (t : Option (ℕ × Bool)) (codes : List ℕ) (c : ℕ)
    → contains (changed t codes) c ≡ true
    → (contains codes c ≡ true) ⊎ (t ≡ some (c, true))
presses none codes c h = inl h
presses (some (k, true)) codes c h = ground (arith, contains-insert codes k c)
presses (some (k, false)) codes c h = ground (arith, contains-remove codes k c)

emit_with-presses :
    (n : ℕ) (e : InputEvent ℕ) (b : Board) (c : ℕ)
    → is_down (emit_with n e b).1 c ≡ true
    → (is_down b c ≡ true) ⊎ (held_transition e ≡ some (c, true))
emit_with-presses zero e b c h = inl h
emit_with-presses (suc n) e b c h = presses (held_transition e) b.codes c h

emit_with-releases :
    (n : ℕ) (e : InputEvent ℕ) (b : Board) (c : ℕ)
    → (emit_with n e b).0 ≡ ok tt
    → held_transition e ≡ some (c, false)
    → is_down (emit_with n e b).1 c ≡ false
emit_with-releases zero e b c h t = cc
emit_with-releases (suc n) e b c h t = rw t (ground (arith, contains-remove b.codes c c))

pub board-IsHonest : IsHonest board is_down
unfolding default_sink
board-IsHonest = record {
  emit_presses = λ e b c h. emit_with-presses b.left e b c h;
  emit_releases = λ e b c h t. emit_with-releases b.left e b c h t;
  poll_keeps = λ b c h. h;
  select_keeps = λ output b c h. h;
  configure_keeps = λ devices b c h. h;
  reset_keeps = λ b c h. h;
}
