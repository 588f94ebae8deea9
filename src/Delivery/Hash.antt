-- ===== src/Delivery/Hash.antt =====
-- The normal form of a SHA-256 text, `normalize_sha256_hex` of astravector/canonical_hash.py.
use mathlib.Core.List.{reverse, reverse_aux, reverse-reverse}
use astra_indexator.Prelude.{ℕ, ◌≡◌, refl, true, false, [], ◌∷◌, arith, all, if◌then◌else◌}
use astra_indexator.Text.{Codes, is_space, lstrip, strip, starts_with, CaseTable, lower}
use astra_indexator.Exec.{ok, err, value_error}
use astra_indexator.Checkpoints.{is_hex, is_sha256, without_prefix, normalize_sha256_hex}

hex_not_space : (c : ℕ) → is_hex c ≡ true → is_space c ≡ false
unfolding is_space
hex_not_space c h = ground (arith, h)

lstrip-hex : (s : Codes) → all is_hex s ≡ true → lstrip s ≡ s
unfolding lstrip
lstrip-hex [] h = refl
lstrip-hex (c ∷ cs) h = ground (arith, h, hex_not_space c)

all-reverse_aux :
    (xs ys : Codes)
    → all is_hex xs ≡ true
    → all is_hex ys ≡ true
    → all is_hex (reverse_aux xs ys) ≡ true
all-reverse_aux [] ys h k = k
all-reverse_aux (x ∷ xs) ys h k =
    all-reverse_aux xs (x ∷ ys) (ground (arith, h)) (ground (arith, h, k))

strip-hex : (s : Codes) → all is_hex s ≡ true → strip s ≡ s
unfolding strip
strip-hex s h =
    rw (lstrip-hex s h, lstrip-hex (reverse s) (all-reverse_aux s [] h refl)) (reverse-reverse s)

lower-hex : (t : CaseTable) (s : Codes) → all is_hex s ≡ true → lower t s ≡ s
unfolding lower
lower-hex t [] h = refl
lower-hex t (c ∷ cs) h =
    let one : t.lower_char c ≡ c ∷ [] = t.lower_other c (ground (arith, h)) (ground (arith, h)) in
    rw (one, lower-hex t cs (ground (arith, h))) refl

without_prefix-hex : (s : Codes) → all is_hex s ≡ true → without_prefix s ≡ s
unfolding without_prefix starts_with
without_prefix-hex [] h = refl
without_prefix-hex (c ∷ cs) h = ground (arith, h)

all_hex : (s : Codes) → is_sha256 s ≡ true → all is_hex s ≡ true
unfolding is_sha256
all_hex s h = ground (arith, h)

normalize-is_sha256 :
    (t : CaseTable) (raw h : Codes) → normalize_sha256_hex t raw ≡ ok h → is_sha256 h ≡ true
unfolding normalize_sha256_hex
normalize-is_sha256 t raw h e = go (lower t (without_prefix (strip raw))) e
  where
    go : (s : Codes) → (if is_sha256 s then ok s else err value_error) ≡ ok h → is_sha256 h ≡ true
    go s e = ground (arith, e)

-- A normalised hash is 64 lower-case hexadecimal digits, and normalising it again changes nothing.
pub normalize_sha256_hex_idempotent :
    (t : CaseTable) (raw h : Codes)
    → normalize_sha256_hex t raw ≡ ok h
    → (is_sha256 h ≡ true) × (normalize_sha256_hex t h ≡ ok h)
unfolding normalize_sha256_hex
normalize_sha256_hex_idempotent t raw h e =
    let valid = normalize-is_sha256 t raw h e in
    let hex = all_hex h valid in
    (valid, rw (strip-hex h hex, without_prefix-hex h hex, lower-hex t h hex, valid) refl)
