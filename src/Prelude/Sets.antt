-- ===== src/Prelude/Sets.antt =====
-- `BTreeSet<u16>` and `BTreeSet<usize>`: ascending lists of numbers without repetition.
use niri_bridge.Prelude.{
  ℕ, ◌<◌, ◌≡◌, refl, Bool, false, ◌&&◌, ◌||◌, not, List, [], ◌∷◌, arith, ltb, ◌==◌, if◌then◌else◌,
}

abbrev pub contains : List ℕ → ℕ → Bool
contains [] x = false
contains (y ∷ s) x = x == y || contains s x

abbrev pub insert : List ℕ → ℕ → List ℕ
insert [] x = x ∷ []
insert (y ∷ s) x = if ltb x y then x ∷ y ∷ s else y ∷ (if x == y then s else insert s x)

abbrev pub remove : List ℕ → ℕ → List ℕ
remove [] x = []
remove (y ∷ s) x = let rest = remove s x in if x == y then rest else y ∷ rest

-- `set.extend(codes)`
abbrev pub extend : List ℕ → List ℕ → List ℕ
extend s [] = s
extend s (x ∷ xs) = extend (insert s x) xs

pub contains-insert : (s : List ℕ) (x z : ℕ) → contains (insert s x) z ≡ (z == x || contains s z)
contains-insert [] x z = ground arith
contains-insert (y ∷ s) x z = ground (arith, contains-insert s x z)

pub contains-remove :
    (s : List ℕ) (x z : ℕ) → contains (remove s x) z ≡ (not (z == x) && contains s z)
contains-remove [] x z = ground arith
contains-remove (y ∷ s) x z = ground (arith, contains-remove s x z)

pub contains-extend :
    (s xs : List ℕ) (z : ℕ) → contains (extend s xs) z ≡ (contains xs z || contains s z)
contains-extend s [] z = refl
contains-extend s (x ∷ xs) z =
    ground (arith, contains-extend (insert s x) xs z, contains-insert s x z)

-- Every element is above the bound, and the list ascends.
abbrev pub IsAbove : ℕ → List ℕ → Type 0
IsAbove b [] = Unit {0}
IsAbove b (x ∷ s) = (b < x) × IsAbove x s

abbrev pub IsSorted : List ℕ → Type 0
IsSorted [] = Unit {0}
IsSorted (x ∷ s) = IsAbove x s

IsAbove-weaken : (a b : ℕ) (s : List ℕ) → a < b → IsAbove b s → IsAbove a s
IsAbove-weaken a b [] k h = tt
IsAbove-weaken a b (x ∷ s) k h = (omega arith, h.1)

IsSorted-of_IsAbove : (b : ℕ) (s : List ℕ) → IsAbove b s → IsSorted s
IsSorted-of_IsAbove b [] h = tt
IsSorted-of_IsAbove b (x ∷ s) h = h.1

pub insert-IsAbove : (b : ℕ) (s : List ℕ) (x : ℕ) → IsAbove b s → b < x → IsAbove b (insert s x)
insert-IsAbove b [] x h k = omega arith
insert-IsAbove b (y ∷ s) x h k = ground (arith, insert-IsAbove y s x h.1)

pub insert-IsSorted : (s : List ℕ) (x : ℕ) → IsSorted s → IsSorted (insert s x)
insert-IsSorted [] x h = tt
insert-IsSorted (y ∷ s) x h = ground (arith, insert-IsAbove y s x h)

pub remove-IsAbove : (b : ℕ) (s : List ℕ) (x : ℕ) → IsAbove b s → IsAbove b (remove s x)
remove-IsAbove b [] x h = tt
remove-IsAbove b (y ∷ s) x h =
    ground (arith, remove-IsAbove y s x h.1, IsAbove-weaken b y (remove s x))

pub remove-IsSorted : (s : List ℕ) (x : ℕ) → IsSorted s → IsSorted (remove s x)
remove-IsSorted [] x h = tt
remove-IsSorted (y ∷ s) x h =
    ground (arith, remove-IsAbove y s x h, IsSorted-of_IsAbove y (remove s x))
