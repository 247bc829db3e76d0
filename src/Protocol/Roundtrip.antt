-- ===== src/Protocol/Roundtrip.antt =====
-- src/protocol.rs: what `read_frame` makes of a written frame, and of any other bytes.
use niri_bridge.Prelude.{
  ltb, leb, leb→le, Bool-cases, length, length-append, take, drop, length-drop, Result, ok, ensure,
  is_ok, Result-cases, ℕ, ◌+◌, ◌*◌, ◌/◌, ◌%◌, ◌≤◌, ◌≡◌, refl, sym, ap, ◌∙◌, ◌⊎◌, inl, inr, true,
  false, ◌&&◌, List, [], ◌∷◌, ◌++◌, arith,
}
use native.Mathlib.Nat.{le_refl}
use niri_bridge.Prelude.All.{>>=-ok, ensure-ok, ok-injective}
use niri_bridge.Float.{Float}
use niri_bridge.Protocol.Message as Message
use niri_bridge.Protocol.Message.{Message, validate}
use niri_bridge.Protocol.Frame.{
  Codec, max_frame_bytes, be_bytes, read_u32, read_exact, frame_of, parse_body, read_body,
  read_frame,
}

-- What is relied on of the JSON library: no message is written as nothing.
abbrev pub IsJson : {F : Type 0} → Codec F → Type 0
IsJson {F} codec = (m : Message F) (bytes : List ℕ) → codec.to_vec m ≡ ok bytes → 1 ≤ length bytes

-- What the JSON library reads in what it wrote of a message, which is another one where numbers are
-- rounded.
pub record ReadsAs {F : Type 0} (codec : Codec F) (m m' : Message F) : Type 0 where
  pub body : List ℕ
  pub wrote : codec.to_vec m ≡ ok body
  pub reads : codec.from_slice body ≡ ok m'

take-append_length : {A : Type 0} (xs ys : List A) → take (length xs) (xs ++ ys) ≡ xs
take-append_length [] ys = refl
take-append_length (x ∷ xs) ys = ap (λ (zs : List _). x ∷ zs) (take-append_length xs ys)

drop-append_length : {A : Type 0} (xs ys : List A) → drop (length xs) (xs ++ ys) ≡ ys
drop-append_length [] ys = refl
drop-append_length (x ∷ xs) ys = drop-append_length xs ys

four_bytes :
    (n : ℕ)
    → n ≤ max_frame_bytes
    → n / 16777216 % 256 * 16777216 + n / 65536 % 256 * 65536 + n / 256 % 256 * 256 + n % 256 ≡ n
four_bytes n h = omega arith

read_u32-be_bytes :
    (n : ℕ) (rest : List ℕ) → n ≤ max_frame_bytes → read_u32 (be_bytes n ++ rest) ≡ (ok n, rest)
read_u32-be_bytes n rest h = rw (four_bytes n h) refl

read_exact-append :
    (bytes rest : List ℕ) → read_exact (length bytes) (bytes ++ rest) ≡ (ok bytes, rest)
read_exact-append bytes rest =
    let fits : leb (length bytes) (length (bytes ++ rest)) ≡ true =
      ground (arith, length-append bytes rest) in
    rw (fits, take-append_length bytes rest, drop-append_length bytes rest) refl

module _ {F : Type 0} ⦃fl : Float F⦄ (codec : Codec F) where
  -- What a written frame consists of.
  abbrev Written : Message F → List ℕ → List ℕ → Type 0
  Written m frame bytes =
      (Message.validate m ≡ ok tt)
      × (codec.to_vec m ≡ ok bytes)
      × (length bytes ≤ max_frame_bytes)
      × (frame ≡ be_bytes (length bytes) ++ bytes)

  frame_of-Written :
      (m : Message F) (frame : List ℕ)
      → frame_of codec m ≡ ok frame
      → (bytes : List ℕ) × Written m frame bytes
  unfolding frame_of
  frame_of-Written m frame h =
      let (_, good, h1) = >>=-ok (Message.validate m) _ frame h in
      let (bytes, vec, h2) = >>=-ok (codec.to_vec m) _ frame h1 in
      let (_, small, same) = >>=-ok (ensure (leb (length bytes) max_frame_bytes) _) _ frame h2 in
      (
        bytes,
        (
          good,
          vec,
          leb→le (length bytes) max_frame_bytes ((ensure-ok _ _).0 small),
          sym (ok-injective _ frame same),
        ),
      )

  -- Where the JSON library writes no message as nothing, a frame that is written of a message is
  -- read as the message that the library reads in its body, where that is valid. What follows the
  -- frame on the connection is left for the next read.
  pub read_frame-frame_of :
      (m m' : Message F) (frame rest : List ℕ)
      → IsJson codec
      → ReadsAs codec m m'
      → Message.validate m' ≡ ok tt
      → frame_of codec m ≡ ok frame
      → read_frame codec (frame ++ rest) ≡ (ok m', rest)
  unfolding read_frame read_body parse_body
  read_frame-frame_of m m' frame rest json as' valid h =
      let (bytes, (good, vec, small, same)) = frame_of-Written m frame h in
      let same_body = ok-injective as'.body bytes (sym as'.wrote ∙ vec) in
      let fits : (ltb 0 (length bytes) && leb (length bytes) max_frame_bytes) ≡ true =
        ground (arith, json m bytes vec) in
      rw
        (
          same,
          four_bytes (length bytes) small,
          fits,
          read_exact-append bytes rest,
          ap codec.from_slice (sym same_body) ∙ as'.reads,
          valid,
        )
        refl

  -- A result that is a valid message, or an error.
  abbrev pub IsChecked : Result (Message F) → Type 0
  IsChecked result =
      ((m : Message F) × (result ≡ ok m) × (Message.validate m ≡ ok tt)) ⊎ (is_ok result ≡ false)

  parse_body-IsChecked : (bytes : List ℕ) → IsChecked (parse_body codec bytes)
  unfolding parse_body
  parse_body-IsChecked bytes = elim (Result-cases (codec.from_slice bytes)) [
    | inr (_, bad) ↦ inr (rw bad refl)
    | inl (m, parsed) ↦ elim (Result-cases (Message.validate m)) [
      | inr (_, bad) ↦ inr (rw (parsed, bad) refl)
      | inl (_, good) ↦ inl (m, rw (parsed, good) refl, good)
    ]
  ]

  read_body-bounded :
      (n : ℕ) (stream : List ℕ)
      → let (result, rest) = read_body codec n stream in
        (length rest ≤ length stream) × (length stream ≤ length rest + 65536) × IsChecked result
  unfolding read_body
  read_body-bounded n stream = elim (Bool-cases (ltb 0 n && leb n max_frame_bytes)) [
    | inr odd ↦ rw odd (le_refl _, omega arith, inr refl)
    | inl size ↦ elim (Bool-cases (leb n (length stream))) [
      | inr early ↦ rw (size, early) (omega arith, ground arith, inr refl)
      | inl there ↦
          rw (size, there)
            (
              ground (arith, length-drop n stream),
              ground (arith, length-drop n stream),
              parse_body-IsChecked (take n stream),
            )
    ]
  ]

  -- Whatever bytes arrive: a message that is read is valid, and a read takes no more than the
  -- header and a body of 65536 bytes.
  pub read_frame-bounded :
      (stream : List ℕ)
      → let (result, rest) = read_frame codec stream in
        (length rest ≤ length stream) × (length stream ≤ length rest + 65540) × IsChecked result
  unfolding read_frame
  read_frame-bounded [] = (omega arith, omega arith, inr refl)
  read_frame-bounded (a ∷ []) = (omega arith, omega arith, inr refl)
  read_frame-bounded (a ∷ b ∷ []) = (omega arith, omega arith, inr refl)
  read_frame-bounded (a ∷ b ∷ c ∷ []) = (omega arith, omega arith, inr refl)
  read_frame-bounded (a ∷ b ∷ c ∷ d ∷ rest) =
      let n = a * 16777216 + b * 65536 + c * 256 + d in
      let (fewer, near, checked) = read_body-bounded n rest in (omega arith, omega arith, checked)
