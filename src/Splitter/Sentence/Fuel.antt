-- ===== src/Splitter/Sentence/Fuel.antt =====
-- Every turn of `_split_unicode` goes forward, and skips nothing but white space between sentences; so
-- the fuel suffices.
use astra_indexator.Prelude.{
  ℕ, zero, suc, ◌+◌, ◌≤◌, ◌<◌, ◌≡◌, refl, ap, sym, ◌∙◌, Bool, true, false, not, ◌&&◌, ◌||◌, List,
  [], ◌∷◌, ◌++◌, Option, none, some, length, arith, ltb, ◌==◌, ==_iff, if◌then◌else◌,
}
use astra_indexator.Text.{Codes, CaseTable, codes, is_space, starts_with}
use astra_indexator.Splitter.Solid.{solid, solid_space}
use astra_indexator.Splitter.Sentence.Profiles.{
  SentenceBoundaryProfile, profile_for, primary_language_of,
}
use astra_indexator.Splitter.Sentence.{
  Unicode, Move, skip, cut, drop, head, passes, count_while, cut_at, terminal_end, closers_at,
  terminal_move, move_at, looks_like_reporting_continuation, ellipsis_is_terminal,
  is_sentence_terminal, period_is_protected, sentence_between, tail_from, after_move, turn_at,
  unicode_loop, split_unicode,
}

pub drop-add : (a b : ℕ) (xs : Codes) → drop (a + b) xs ≡ drop b (drop a xs)
drop-add zero b xs = ap (λ (n : ℕ). drop n xs) (omega arith)
drop-add (suc a) b [] = ap (λ (n : ℕ). drop {A = ℕ} n []) (add_suc a b) ∙ drop_nil b
  where
    add_suc : (a b : ℕ) → suc a + b ≡ suc (a + b)
    add_suc a b = omega arith

    drop_nil : (n : ℕ) → [] ≡ drop {A = ℕ} n []
    drop_nil zero = refl
    drop_nil (suc n) = refl
drop-add (suc a) b (x ∷ xs) =
    ap (λ (n : ℕ). drop n (x ∷ xs)) (let e : suc a + b ≡ suc (a + b) = omega arith in e)
    ∙ drop-add a b xs

-- What is skipped by a test that only white space passes.
solid-skipped :
    (test : ℕ → Bool)
    → ((c : ℕ) → test c ≡ true → is_space c ≡ true)
    → (xs : Codes) → solid (drop (count_while test xs) xs) ≡ solid xs
unfolding count_while solid
solid-skipped test blank [] = refl
solid-skipped test blank (c ∷ cs) = go (test c) refl (solid-skipped test blank cs)
  where
    go :
        (x : Bool)
        → test c ≡ x
        → solid (drop (count_while test cs) cs) ≡ solid cs
        → solid (drop (if x then suc (count_while test cs) else 0) (c ∷ cs)) ≡ solid (c ∷ cs)
    go false e h = refl
    go true e h = h ∙ sym (solid_space c cs (blank c e))

newline-space : (c : ℕ) → (c == 0xa) ≡ true → is_space c ≡ true
unfolding is_space
newline-space c e = let k : c ≡ 0xa = omega (arith, (==_iff c 0xa).0 e) in rw k refl

newlines_pos :
    (i : ℕ) (rest : Codes)
    → starts_with (0xa ∷ 0xa ∷ []) rest ≡ true
    → i < i + count_while (λ (k : ℕ). k == 0xa) rest
unfolding starts_with count_while
newlines_pos i [] h = cc
newlines_pos i (c ∷ cs) h = ground (arith, h)

module _ (text : Codes) where
  -- A move from a position: forward, and past white space only between two sentences.
  abbrev pub Advances : ℕ → Move → Type 0
  Advances i (skip j) = i < j
  Advances i (cut end j) = (i ≤ end) × (i < j) × (solid (drop j text) ≡ solid (drop end text))

  solid-past :
      (test : ℕ → Bool)
      → ((c : ℕ) → test c ≡ true → is_space c ≡ true)
      → (end : ℕ)
      → solid (drop (end + count_while test (drop end text)) text) ≡ solid (drop end text)
  solid-past test blank end =
      ap solid (drop-add end (count_while test (drop end text)) text)
      ∙ solid-skipped test blank (drop end text)

  module _ (t : CaseTable) (u : Unicode) (profile : SentenceBoundaryProfile)
      (language : Codes) where
    terminal_move-Advances :
        (i start : ℕ) (a e d : Bool)
        → i < start
        → Advances i (terminal_move t u text language i start a e d)
    unfolding terminal_move
    terminal_move-Advances i start a e d h =
        go
          (looks_like_reporting_continuation t u text (start + closers_at t u text start) language
            (ltb 0 (closers_at t u text start)))
          ((a || e)
            && not (ellipsis_is_terminal t u text (start + closers_at t u text start) language))
          (passes (λ (c : ℕ). not (is_space c))
              (head (drop (start + closers_at t u text start) text))
            && (d && not a))
      where
        go :
            (x y z : Bool)
            → Advances i (
                if x
                then skip (start + closers_at t u text start)
                else if y
                then skip (start + closers_at t u text start)
                else if z
                then skip (i + 1)
                else cut_at t u text (start + closers_at t u text start))
        go true y z = omega (arith, h)
        go false true z = omega (arith, h)
        go false false true = omega arith
        go false false false = (
          omega (arith, h),
          omega (arith, h),
          solid-past is_space (λ c e. e) (start + closers_at t u text start),
        )

    newline_move-Advances :
        (i : ℕ)
        → starts_with (0xa ∷ 0xa ∷ []) (drop i text) ≡ true
        → Advances i (cut i (i + count_while (λ (k : ℕ). k == 0xa) (drop i text)))
    newline_move-Advances i h = (
      omega arith,
      newlines_pos i (drop i text) h,
      solid-past (λ (k : ℕ). k == 0xa) newline-space i,
    )

    terminal_end-lt : (i : ℕ) (a : Bool) → i < terminal_end t u profile text i a
    terminal_end-lt i true = omega arith
    terminal_end-lt i false = omega arith

    pub move_at-Advances : (i c : ℕ) → Advances i (move_at t u profile language text i c)
    unfolding move_at
    move_at-Advances i c =
        go (starts_with (0xa ∷ 0xa ∷ []) (drop i text)) refl
          (not (is_sentence_terminal t u profile c)
            && (not (starts_with (codes "...") (drop i text)) && not (c == 0x2026)))
          ((c == 0x2e)
            && (not (starts_with (codes "...") (drop i text))
                && period_is_protected t u text i profile))
      where
        go :
            (x : Bool)
            → starts_with (0xa ∷ 0xa ∷ []) (drop i text) ≡ x
            → (y z : Bool)
            → Advances i (
                let a = starts_with (codes "...") (drop i text) in
                if x
                then cut i (i + count_while (λ (k : ℕ). k == 0xa) (drop i text))
                else if y
                then skip (i + 1)
                else if z
                then skip (i + 1)
                else terminal_move t u text language i
                    (terminal_end t u profile text i a)
                    a
                    (c == 0x2026)
                    (c == 0x2e))
        go true e y z = newline_move-Advances i e
        go false e true z = omega arith
        go false e false true = omega arith
        go false e false false =
            terminal_move-Advances i _ _ _ _
              (terminal_end-lt i (starts_with (codes "...") (drop i text)))

    head-none : (i : ℕ) (xs : Codes) → length xs ≤ i → head (drop i xs) ≡ none
    head-none zero [] h = refl
    head-none zero (x ∷ xs) h = absurd (omega (arith, h))
    head-none (suc i) [] h = refl
    head-none (suc i) (x ∷ xs) h = head-none i xs (omega (arith, h))

    -- Two loops that both end from here, with the same sentences.
    abbrev Alike : (ℕ → ℕ → Option (List Codes)) → (ℕ → ℕ → Option (List Codes)) → ℕ → ℕ → Type 0
    Alike f g start i = (ss : List Codes) × (f start i ≡ some ss) × (g start i ≡ some ss)

    after_move-fuel :
        (f g : ℕ → ℕ → Option (List Codes)) (start i : ℕ) (m : Move)
        → Advances i m
        → ((start j : ℕ) → i < j → Alike f g start j)
        → (ss : List Codes) × (after_move t u f text start m ≡ some ss)
          × (after_move t u g text start m ≡ some ss)
    after_move-fuel f g start i (skip j) a same = same start j a
    after_move-fuel f g start i (cut end j) a same =
        let (ss, k, l) = same j j a.1 in
        (sentence_between t u text start end ++ ss, rw k refl, rw l refl)

    turn_at-fuel :
        (f g : ℕ → ℕ → Option (List Codes)) (start i : ℕ) (o : Option ℕ)
        → ((start j : ℕ) → i < j → Alike f g start j)
        → (ss : List Codes) × (turn_at t u f profile language text start i o ≡ some ss)
          × (turn_at t u g profile language text start i o ≡ some ss)
    turn_at-fuel f g start i none same = (tail_from t u text start, refl, refl)
    turn_at-fuel f g start i (some c) same =
        after_move-fuel f g start i (move_at t u profile language text i c) (move_at-Advances i c)
          same

    past_end :
        (f : ℕ → ℕ → Option (List Codes)) (start i : ℕ)
        → length text ≤ i
        → turn_at t u f profile language text start i (head (drop i text))
          ≡ some (tail_from t u text start)
    past_end f start i h = ap (turn_at t u f profile language text start i) (head-none i text h)

    -- A turn for every character that is left, and one for the end, are enough: the loop ends, and more
    -- fuel changes nothing.
    pub unicode_loop-fuel :
        (fuel more start i : ℕ)
        → length text ≤ i + fuel
        → length text ≤ i + more
        → (ss : List Codes) × (unicode_loop t u profile language text (suc fuel) start i ≡ some ss)
          × (unicode_loop t u profile language text (suc more) start i ≡ some ss)
    unfolding unicode_loop
    unicode_loop-fuel zero more start i h k =
        let here : length text ≤ i = omega (arith, h) in
        (
          tail_from t u text start,
          past_end (unicode_loop t u profile language text zero) start i here,
          past_end (unicode_loop t u profile language text more) start i here,
        )
    unicode_loop-fuel (suc fuel) zero start i h k =
        let here : length text ≤ i = omega (arith, k) in
        (
          tail_from t u text start,
          past_end (unicode_loop t u profile language text (suc fuel)) start i here,
          past_end (unicode_loop t u profile language text zero) start i here,
        )
    unicode_loop-fuel (suc fuel) (suc more) start i h k =
        turn_at-fuel (unicode_loop t u profile language text (suc fuel))
          (unicode_loop t u profile language text (suc more)) start i (head (drop i text))
          (λ s j a. unicode_loop-fuel fuel more s j (omega (arith, a, h)) (omega (arith, a, k)))

-- `_split_unicode` ends: with a turn for every character and one for the end, and with any more, the
-- loop comes to its end and does not run out of fuel, and its sentences are those of `split_unicode`.
pub split_unicode-fuel :
    (t : CaseTable) (u : Unicode) (text hint : Codes) (more : ℕ)
    → unicode_loop t u
        (profile_for t hint)
        (primary_language_of t hint)
        text
        (suc (length text + more))
        0
        0
      ≡ some (split_unicode t u text hint)
unfolding split_unicode
split_unicode-fuel t u text hint more =
    let (ss, k, l) =
      unicode_loop-fuel text t u (profile_for t hint) (primary_language_of t hint) (length text)
        (length text + more) 0 0 (omega arith) (omega arith) in
    rw l (rw k refl)
