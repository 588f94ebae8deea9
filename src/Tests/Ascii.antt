-- ===== src/Tests/Ascii.antt =====
-- A character table that knows the letters of ASCII only.
use astra_indexator.Prelude.{ℕ, ◌+◌, ◌-◌, ◌<◌, ◌≡◌, false, arith, [], ◌∷◌, if◌then◌else◌}
use astra_indexator.Text.{Codes, CaseTable, in_range}

abbrev ascii_upper : ℕ → Codes
ascii_upper c = if in_range 97 122 c then (c - 32) ∷ [] else c ∷ []

abbrev pub ascii_lower : ℕ → Codes
ascii_lower c = if in_range 65 90 c then (c + 32) ∷ [] else c ∷ []

pub ascii_upper-lower : (c : ℕ) → c < 26 → ascii_upper (c + 97) ≡ (c + 65) ∷ []
ascii_upper-lower c h = ground (arith, h)

pub ascii_upper-other : (c : ℕ) → c < 128 → in_range 97 122 c ≡ false → ascii_upper c ≡ c ∷ []
ascii_upper-other c h k = ground (arith, h, k)

pub ascii_lower-upper : (c : ℕ) → c < 26 → ascii_lower (c + 65) ≡ (c + 97) ∷ []
ascii_lower-upper c h = ground (arith, h)

pub ascii_lower-other : (c : ℕ) → c < 128 → in_range 65 90 c ≡ false → ascii_lower c ≡ c ∷ []
ascii_lower-other c h k = ground (arith, h, k)

abbrev pub ascii : CaseTable
ascii = record {
  upper_char = ascii_upper;
  upper_lower = ascii_upper-lower;
  upper_other = ascii_upper-other;
  lower_char = ascii_lower;
  lower_upper = ascii_lower-upper;
  lower_other = ascii_lower-other;
}
