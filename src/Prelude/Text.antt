-- ===== src/Prelude/Text.antt =====
-- Texts: what the sources ask of `String` and `char`.
use Prim.Native.String as Str
use Prim.Native.String.{String}
use Prim.Native.Char.{code}
use text.Mathlib.Text as Text
use text.Mathlib.TextEquality as Equality
use niri_bridge.Prelude.{
  ltb, in_range, ◌==◌, if◌then◌else◌, ◌+◌, ◌&&◌, ℕ, ◌≡◌, ◌↔◌, Bool, true, false, ◌||◌, List, [],
  ◌∷◌,
}

-- `String::len`: the bytes of its UTF-8.
abbrev pub bytes : String → ℕ
bytes s = Str.len s

infix 50 ◌==ₛ◌
abbrev pub ◌==ₛ◌ : String → String → Bool
s ==ₛ t = Text.◌==◌ s t

pub ==ₛ_iff : (s t : String) → ((s ==ₛ t) ≡ true) ↔ (s ≡ t)
==ₛ_iff s t = Equality.eq_iff s t

-- `chars().any(p)`
abbrev pub any_char : (ℕ → Bool) → String → Bool
any_char p Str.[] = false
any_char p (Str.◌∷◌ c s) = p (code c) || any_char p s

-- `char::is_control`: the characters of category Cc.
abbrev pub is_control : ℕ → Bool
is_control c = ltb c 32 || in_range 127 159 c

abbrev pub is_ascii_alphanumeric : ℕ → Bool
is_ascii_alphanumeric c = in_range 48 57 c || in_range 65 90 c || in_range 97 122 c

abbrev pub is_ascii_hexdigit : ℕ → Bool
is_ascii_hexdigit c = in_range 48 57 c || in_range 65 70 c || in_range 97 102 c

-- `texts.contains(s)`, and `BTreeSet<&String>::insert`: whether the text was new.
abbrev pub has_text : List String → String → Bool
has_text [] s = false
has_text (t ∷ ts) s = s ==ₛ t || has_text ts s

-- `chars()`, as code points.
abbrev pub chars : String → List ℕ
chars Str.[] = []
chars (Str.◌∷◌ c s) = code c ∷ chars s

abbrev pub starts_with : List ℕ → List ℕ → Bool
starts_with [] cs = true
starts_with (p ∷ ps) [] = false
starts_with (p ∷ ps) (c ∷ cs) = p == c && starts_with ps cs

-- `str::contains`, the pattern first.
abbrev pub contains_text : List ℕ → List ℕ → Bool
contains_text ps [] = starts_with ps []
contains_text ps (c ∷ cs) = starts_with ps (c ∷ cs) || contains_text ps cs

-- `to_ascii_lowercase`, of a character.
abbrev pub ascii_lowercase : ℕ → ℕ
ascii_lowercase c = if in_range 65 90 c then c + 32 else c
