-- ===== src/Prelude/All.antt =====
-- What holds of each element, and of each pair of elements, of a list.
use niri_bridge.Prelude.{
  Result, ok, err, ◌>>=◌, ◌>>◌, ensure, for_each, String, ◌≡◌, refl, ◌↔◌, Bool, true, false, List,
  [], ◌∷◌, ◌++◌, arith,
}

abbrev pub All {ℓ ℓ'} : {A : Type ℓ} (Holds : A → Type ℓ') (list : List A) → Type ℓ'
All Holds [] = Unit
All Holds (first ∷ others) = Holds first × All Holds others

-- Each element stands in `R` to each later one.
abbrev pub Pairwise {ℓ κ} : {A : Type ℓ} → (A → A → Type κ) → List A → Type κ
Pairwise R [] = Unit
Pairwise R (x ∷ xs) = All (R x) xs × Pairwise R xs

module _ {ℓ κ} {A : Type ℓ} where
  pub All-append : (P : A → Type κ) (xs ys : List A) → All P (xs ++ ys) ↔ (All P xs × All P ys)
  All-append P [] ys = ((λ h. (tt, h)), (λ h. h.1))
  All-append P (x ∷ xs) ys =
      let (split, join) = All-append P xs ys in
      ((λ h. ((h.0, (split h.1).0), (split h.1).1)), (λ h. (h.0.0, join (h.0.1, h.1))))

-- A loop that compares each element with those before it, one step further.
module _ {ℓ κ} {A : Type ℓ} (R : A → A → Type κ) where
  pub All-none_before : (xs : List A) → All (λ d. All (λ p. R p d) []) xs
  All-none_before [] = tt
  All-none_before (d ∷ xs) = (tt, All-none_before xs)

  pub All-one_before :
      (before : List A) (x : A) (xs : List A)
      → All (λ d. All (λ p. R p d) (before ++ x ∷ [])) xs
        ↔ (All (λ d. All (λ p. R p d) before) xs × All (R x) xs)
  All-one_before before x [] = ((λ _. (tt, tt)), (λ _. tt))
  All-one_before before x (d ∷ xs) =
      let (split, join) = All-append (λ p. R p d) before (x ∷ []) in
      let (fore, back) = All-one_before before x xs in
      (
        (λ h. let (a, b) = split h.0 in let (c, k) = fore h.1 in ((a, c), (b.0, k))),
        (λ h. (join (h.0.0, (h.1.0, tt)), back (h.0.1, h.1.1))),
      )

pub ensure-ok : (b : Bool) (e : String) → (ensure b e ≡ ok tt) ↔ (b ≡ true)
ensure-ok true e = ((λ _. refl), (λ _. refl))
ensure-ok false e = ground arith

pub >>-ok {ℓ} :
    {B : Type ℓ} (m : Result (Unit {0})) (k : Result B) (b : B)
    → ((m >> k) ≡ ok b) ↔ ((m ≡ ok tt) × (k ≡ ok b))
>>-ok (ok _) k b = ((λ h. (refl, h)), (λ h. h.1))
>>-ok (err e) k b = ((λ h. cc), (λ h. cc))

pub for_each-ok {ℓ} :
    {A : Type ℓ} (f : A → Result (Unit {0})) (xs : List A)
    → (for_each f xs ≡ ok tt) ↔ All (λ x. f x ≡ ok tt) xs
for_each-ok f [] = ((λ _. tt), (λ _. refl))
for_each-ok f (x ∷ xs) =
    let (split, join) = >>-ok (f x) (for_each f xs) tt in
    let (rest, back) = for_each-ok f xs in
    ((λ h. ((split h).0, rest (split h).1)), (λ h. join (h.0, back h.1)))

pub >>=-ok {ℓ κ} :
    {A : Type ℓ} {B : Type κ} (m : Result A) (k : A → Result B) (b : B)
    → (m >>= k) ≡ ok b
    → (a : A) × (m ≡ ok a) × (k a ≡ ok b)
>>=-ok (ok a) k b h = (a, refl, h)
>>=-ok (err e) k b h = cc

pub ok-injective {ℓ} : {A : Type ℓ} (a b : A) → ok a ≡ ok b → a ≡ b
ok-injective a b h = cc
