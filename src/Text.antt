-- ===== src/Text.antt =====
-- Python's `str` methods that the program calls, over the code points of a text.
-- Upper and lower case follow the Unicode character table, which is data outside the repository: it
-- enters as the record `CaseTable`, with what the program relies on, its values at ASCII.
use Prim.Native.Char.{code}
use astra_indexator.Prelude.{
  ℕ, ◌+◌, ◌<◌, ◌≡◌, Bool, true, false, ◌&&◌, ◌||◌, List, [], ◌∷◌, ◌++◌, String, leb, ◌==◌,
  if◌then◌else◌,
}
use mathlib.Core.List.{reverse}

abbrev pub Codes : Type 0
Codes = List ℕ

-- The code points of a text. `String` has its own `[]` and `∷`.
abbrev pub codes : String → Codes
codes String.[] = []
codes (String.◌∷◌ c s) = code c ∷ codes s

abbrev pub in_range : ℕ → ℕ → ℕ → Bool
in_range lo hi c = leb lo c && leb c hi

-- `str.isspace` of one character: the characters that `str.strip` removes.
unfoldable pub is_space : ℕ → Bool
is_space c =
    in_range 0x9 0xd c
    || (in_range 0x1c 0x20 c
        || (c == 0x85
            || (c == 0xa0
                || (c == 0x1680
                    || (in_range 0x2000 0x200a c
                        || (in_range 0x2028 0x2029 c
                            || (c == 0x202f || (c == 0x205f || c == 0x3000))))))))

unfoldable pub lstrip : Codes → Codes
lstrip [] = []
lstrip (c ∷ cs) = let rest = lstrip cs in if is_space c then rest else c ∷ cs

unfoldable pub strip : Codes → Codes
unfolding lstrip
strip s = reverse (lstrip (reverse (lstrip s)))

abbrev pub is_empty {ℓ} : {A : Type ℓ} → List A → Bool
is_empty [] = true
is_empty (_ ∷ _) = false

-- `not value.strip()`
unfoldable pub is_blank : String → Bool
unfolding strip is_space
is_blank s = is_empty (strip (codes s))

-- Equality of texts, as lists of code points.
unfoldable pub codes_eq : Codes → Codes → Bool
codes_eq [] [] = true
codes_eq (a ∷ s) (b ∷ t) = (a == b) && codes_eq s t
codes_eq _ _ = false

unfoldable pub starts_with : Codes → Codes → Bool
starts_with [] s = true
starts_with (p ∷ ps) [] = false
starts_with (p ∷ ps) (c ∷ cs) = (p == c) && starts_with ps cs

-- `marker in text`
unfoldable pub contains : Codes → Codes → Bool
unfolding starts_with
contains m [] = is_empty m
contains m (c ∷ cs) = starts_with m (c ∷ cs) || contains m cs

-- `text[len(prefix):]` behind a successful `text.startswith(prefix)`, and the text unchanged else.
unfoldable pub drop_prefix : Codes → Codes → Codes
drop_prefix [] s = s
drop_prefix (p ∷ ps) [] = []
drop_prefix (p ∷ ps) (c ∷ cs) = drop_prefix ps cs

-- `text.endswith(suffix)`
unfoldable pub ends_with : Codes → Codes → Bool
unfolding starts_with
ends_with m s = starts_with (reverse m) (reverse s)

-- `str.upper` and `str.lower`, character by character (one may become several).
pub record CaseTable : Type 0 where
  pub upper_char : ℕ → Codes
  pub upper_lower : (c : ℕ) → c < 26 → upper_char (c + 97) ≡ (c + 65) ∷ []
  pub upper_other : (c : ℕ) → c < 128 → in_range 97 122 c ≡ false → upper_char c ≡ c ∷ []
  pub lower_char : ℕ → Codes
  pub lower_upper : (c : ℕ) → c < 26 → lower_char (c + 65) ≡ (c + 97) ∷ []
  pub lower_other : (c : ℕ) → c < 128 → in_range 65 90 c ≡ false → lower_char c ≡ c ∷ []

unfoldable pub upper : CaseTable → Codes → Codes
upper t [] = []
upper t (c ∷ cs) = t.upper_char c ++ upper t cs

-- A final sigma, whose lower case depends on the text around it, is taken as any other character.
unfoldable pub lower : CaseTable → Codes → Codes
lower t [] = []
lower t (c ∷ cs) = t.lower_char c ++ lower t cs
