-- ===== src/Splitter/Loop.antt =====
-- Rules for the loops of splitter/service.py: an invariant of the variables with a property of what is
-- emitted and of what is raised, and a measure of the content that a loop passes on.
use mathlib.Core.List.{append_assoc, append-nil}
use astra_indexator.Prelude.{
  ◌⊎◌, inl, inr, ◌≡◌, refl, ap, sym, ◌∙◌, List, [], ◌∷◌, ◌++◌, map, All, All-append,
}
use astra_indexator.Splitter.{Fault, Result, ok, err, run_loop, ◌>>=◌}

-- What holds of a result: of a value, or of what is raised.
abbrev pub Ensures {ℓ κ} : {A : Type ℓ} → (A → Type κ) → (Fault → Type κ) → Result A → Type κ
Ensures P Q (ok a) = P a
Ensures P Q (err e) = Q e

pub >>=-Ensures {ℓ κ μ} :
    {A : Type ℓ} {B : Type κ} (P : A → Type μ) (R : B → Type μ) (Q : Fault → Type μ) (m : Result A)
    (f : A → Result B)
    → Ensures P Q m
    → ((a : A) → P a → Ensures R Q (f a))
    → Ensures R Q (m >>= f)
>>=-Ensures P R Q (ok a) f h k = k a h
>>=-Ensures P R Q (err e) f h k = h

pub Ensures-map {ℓ κ} :
    {A : Type ℓ} (P P' : A → Type κ) (Q : Fault → Type κ) (m : Result A)
    → Ensures P Q m
    → ((a : A) → P a → P' a)
    → Ensures P' Q m
Ensures-map P P' Q (ok a) h f = f a h
Ensures-map P P' Q (err e) h f = h

pub Ensures-weaken {ℓ κ} :
    {A : Type ℓ} (P P' : A → Type κ) (Q Q' : Fault → Type κ) (m : Result A)
    → Ensures P Q m
    → ((a : A) → P a → P' a)
    → ((e : Fault) → Q e → Q' e)
    → Ensures P' Q' m
Ensures-weaken P P' Q Q' (ok a) h f g = f a h
Ensures-weaken P P' Q Q' (err e) h f g = g e h

-- The variables keep `I`, what is emitted has `P`, and what is raised has `Q`.
pub run_loop-Ensures {ℓ κ μ} :
    {S : Type ℓ} {A : Type κ} {B : Type μ} (step : S → A → Result (List B × S)) (I : S → Type 0)
    (P : B → Type 0) (Q : Fault → Type 0)
    → ((s : S) (a : A) → I s → Ensures (λ r. All P r.0 × I r.1) Q (step s a))
    → (s : S) (items : List A) → I s
    → Ensures (λ r. All P r.0 × I r.1) Q (run_loop step s items)
unfolding run_loop
run_loop-Ensures step I P Q keep s [] i = (tt, i)
run_loop-Ensures {S} {A} {B} step I P Q keep s (a ∷ rest) i =
    >>=-Ensures (λ r. All P r.0 × I r.1) (λ r. All P r.0 × I r.1) Q (step s a) _ (keep s a i)
      (λ r h.
        >>=-Ensures (λ q. All P q.0 × I q.1) (λ q. All P q.0 × I q.1) Q (run_loop step r.1 rest) _
          (run_loop-Ensures step I P Q keep r.1 rest h.1)
          (λ q k. (All-append P r.0 q.0 h.0 k.0, k.1)))

-- The same, for items that have `C`.
pub run_loop-Ensures_on {ℓ κ μ} :
    {S : Type ℓ} {A : Type κ} {B : Type μ} (step : S → A → Result (List B × S)) (I : S → Type 0)
    (P : B → Type 0) (Q : Fault → Type 0) (C : A → Type 0)
    → ((s : S) (a : A) → C a → I s → Ensures (λ r. All P r.0 × I r.1) Q (step s a))
    → (s : S) (items : List A) → All C items
    → I s
    → Ensures (λ r. All P r.0 × I r.1) Q (run_loop step s items)
unfolding run_loop
run_loop-Ensures_on step I P Q C keep s [] c i = (tt, i)
run_loop-Ensures_on {S} {A} {B} step I P Q C keep s (a ∷ rest) c i =
    >>=-Ensures (λ r. All P r.0 × I r.1) (λ r. All P r.0 × I r.1) Q (step s a) _ (keep s a c.0 i)
      (λ r h.
        >>=-Ensures (λ q. All P q.0 × I q.1) (λ q. All P q.0 × I q.1) Q (run_loop step r.1 rest) _
          (run_loop-Ensures_on step I P Q C keep r.1 rest c.1 h.1)
          (λ q k. (All-append P r.0 q.0 h.0 k.0, k.1)))

-- What holds of a value, with the result that it is.
pub Ensures-eq {ℓ} :
    {A : Type ℓ} (P : A → Type ℓ) (Q : Fault → Type ℓ) (m : Result A)
    → Ensures P Q m
    → Ensures (λ a. P a × (m ≡ ok a)) Q m
Ensures-eq P Q (ok a) h = (h, refl)
Ensures-eq P Q (err e) h = h

-- An item of a list.
abbrev pub Among : {A : Type 0} → A → List A → Type 0
Among x [] = ⊥
Among x (y ∷ ys) = (x ≡ y) ⊎ Among x ys

pub All-weaken {ℓ} :
    {A : Type ℓ} (P Q : A → Type ℓ) (xs : List A) → ((x : A) → P x → Q x) → All P xs → All Q xs
All-weaken P Q [] f h = tt
All-weaken P Q (x ∷ xs) f h = (f x h.0, All-weaken P Q xs f h.1)

pub All-Among : {A : Type 0} (xs : List A) → All (λ x. Among x xs) xs
All-Among [] = tt
All-Among (x ∷ xs) = (
  inl refl,
  All-weaken (λ y. Among y xs) (λ y. Among y (x ∷ xs)) xs (λ y h. inr h) (All-Among xs),
)

pub All-both {ℓ} :
    {A : Type ℓ} (P Q : A → Type ℓ) (xs : List A) → All P xs → All Q xs → All (λ x. P x × Q x) xs
All-both P Q [] h k = tt
All-both P Q (x ∷ xs) h k = ((h.0, k.0), All-both P Q xs h.1 k.1)

-- The content of a list, item by item.
unfoldable pub flat_map {ℓ κ} : {A : Type ℓ} {B : Type κ} → (A → List B) → List A → List B
flat_map f [] = []
flat_map f (x ∷ xs) = f x ++ flat_map f xs

pub flat_map_nil {ℓ κ} : {A : Type ℓ} {B : Type κ} (f : A → List B) → flat_map f [] ≡ []
unfolding flat_map
flat_map_nil f = refl

pub flat_map_one {ℓ κ} :
    {A : Type ℓ} {B : Type κ} (f : A → List B) (x : A) → flat_map f (x ∷ []) ≡ f x
unfolding flat_map
flat_map_one f x = append-nil (f x)

pub flat_map_cons {ℓ κ} :
    {A : Type ℓ} {B : Type κ} (f : A → List B) (x : A) (xs : List A)
    → flat_map f (x ∷ xs) ≡ f x ++ flat_map f xs
unfolding flat_map
flat_map_cons f x xs = refl

pub flat_map-append {ℓ κ} :
    {A : Type ℓ} {B : Type κ} (f : A → List B) (xs ys : List A)
    → flat_map f (xs ++ ys) ≡ flat_map f xs ++ flat_map f ys
unfolding flat_map
flat_map-append f [] ys = refl
flat_map-append f (x ∷ xs) ys = simp (flat_map-append f xs ys, append_assoc)

pub flat_map-map {ℓ κ μ} :
    {A : Type ℓ} {B : Type κ} {C : Type μ} (g : A → B) (f : B → List C) (xs : List A)
    → flat_map f (map g xs) ≡ flat_map (λ x. f (g x)) xs
unfolding flat_map
flat_map-map g f [] = refl
flat_map-map g f (x ∷ xs) = ap (λ (l : List _). f (g x) ++ l) (flat_map-map g f xs)

-- `emitted` is the content of what is emitted, `pending` that of the variables, `content` that of an
-- item. Where every turn passes its content on, so does the loop.
module _ {ℓ κ μ ν} {S : Type ℓ} {A : Type κ} {B : Type μ} {C : Type ν}
    (step : S → A → Result (List B × S)) (emitted : B → List C) (pending : S → List C)
    (content : A → List C) where
  abbrev pub Passes : S → List C → List B × S → Type ν
  Passes s items r = flat_map emitted r.0 ++ pending r.1 ≡ pending s ++ items

  pub run_loop-Passes :
      ((s : S) (a : A) → Ensures (Passes s (content a)) (λ _. Unit) (step s a))
      → (s : S) (items : List A)
      → Ensures (Passes s (flat_map content items)) (λ _. Unit) (run_loop step s items)
  unfolding run_loop flat_map
  run_loop-Passes keep s [] = sym (append-nil (pending s))
  run_loop-Passes keep s (a ∷ rest) =
      >>=-Ensures (Passes s (content a)) (Passes s (content a ++ flat_map content rest)) (λ _. Unit)
        (step s a) _ (keep s a)
        (λ r h.
          >>=-Ensures (Passes r.1 (flat_map content rest))
            (Passes s (content a ++ flat_map content rest)) (λ _. Unit) (run_loop step r.1 rest) _
            (run_loop-Passes keep r.1 rest)
            (λ q k.
              ap (λ (l : List C). l ++ pending q.1) (flat_map-append emitted r.0 q.0)
              ∙ append_assoc (flat_map emitted r.0) (flat_map emitted q.0) (pending q.1)
              ∙ ap (λ (l : List C). flat_map emitted r.0 ++ l) k
              ∙ sym (append_assoc (flat_map emitted r.0) (pending r.1) (flat_map content rest))
              ∙ ap (λ (l : List C). l ++ flat_map content rest) h
              ∙ append_assoc (pending s) (content a) (flat_map content rest)))
