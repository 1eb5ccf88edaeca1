-- ===== src/Base/Points.antt =====
-- Lists, point by point.
use Prim.Native.Nat.{ℕ, zero, suc, ◌+◌, ◌-◌, ◌≤◌, ◌<◌}
use mathlib.Core.Path.{◌≡◌, refl, sym, ap, ap₂, ◌∙◌}
use mathlib.Core.Bool.{Bool, true, false, ◌&&◌}
use mathlib.Core.List.{List, [], ◌∷◌, ◌++◌}
use mathlib.Core.Option.{some, some-injective}
use native.Mathlib.Omega.{arith}
use libopod.Base.Tests.{ltb, leb, if◌then◌else◌}
use libopod.Base.Lists.{length, take, drop, slice, splice, get_elem?}

-- whether `i` is one of the `n` points from `p` on
abbrev pub within : ℕ → ℕ → ℕ → Bool
within p n i = leb p i && ltb i (p + n)

ltb-suc : (i n : ℕ) → ltb (suc i) (suc n) ≡ ltb i n
ltb-suc i n = ground arith

suc_add : (n i : ℕ) → suc (n + i) ≡ suc n + i
suc_add n i = omega arith

zero_add : (i : ℕ) → i ≡ 0 + i
zero_add i = omega arith

minus-suc : (i p : ℕ) → i - p ≡ suc i - suc p
minus-suc i p = omega arith

minus-zero : (i : ℕ) → i ≡ i - 0
minus-zero i = omega arith

ltb-zero : (i : ℕ) → ltb i 0 ≡ false
ltb-zero i = ground arith

ltb_positive : (n : ℕ) → ltb 0 (suc n) ≡ true
ltb_positive n = ground arith

within-suc : (p n i : ℕ) → within (suc p) n (suc i) ≡ within p n i
within-suc p n i = ground arith

within_before : (p n : ℕ) → within (suc p) n 0 ≡ false
within_before p n = ground arith

within_start : (n i : ℕ) → within 0 n i ≡ ltb i n
within_start n i = ground arith

module _ {ℓ} {A : Type ℓ} where
  pub get_elem?-ext : (xs ys : List A) → ((i : ℕ) → get_elem? xs i ≡ get_elem? ys i) → xs ≡ ys
  get_elem?-ext [] [] h = refl
  get_elem?-ext [] (y ∷ ys) h = cc (h 0)
  get_elem?-ext (x ∷ xs) [] h = cc (h 0)
  get_elem?-ext (x ∷ xs) (y ∷ ys) h =
      ap₂ ◌∷◌ (some-injective x y (h 0)) (get_elem?-ext xs ys λ i. h (suc i))

  get_elem?-overwrite :
      (ys xs : List A) (i : ℕ)
      → length ys ≤ length xs
      → get_elem? (ys ++ drop (length ys) xs) i
        ≡ (if ltb i (length ys) then get_elem? ys i else get_elem? xs i)
  get_elem?-overwrite [] xs i h = rw (ltb-zero i) refl
  get_elem?-overwrite (y ∷ ys) [] i h = absurd (omega arith)
  get_elem?-overwrite (y ∷ ys) (x ∷ xs) zero h = rw (ltb_positive (length ys)) refl
  get_elem?-overwrite (y ∷ ys) (x ∷ xs) (suc i) h =
      get_elem?-overwrite ys xs i (omega (arith, h))
      ∙ ap (λ b. if b then get_elem? ys i else get_elem? xs i) (sym (ltb-suc i (length ys)))

  -- What a list reads where a part was overwritten.
  pub get_elem?-splice :
      (xs : List A) (p : ℕ) (ys : List A) (i : ℕ)
      → p + length ys ≤ length xs
      → get_elem? (splice xs p ys) i
        ≡ (if within p (length ys) i then get_elem? ys (i - p) else get_elem? xs i)
  get_elem?-splice xs zero ys i h =
      ap (λ (n : ℕ). get_elem? (ys ++ drop n xs) i) (sym (zero_add (length ys)))
      ∙ get_elem?-overwrite ys xs i (omega (arith, h))
      ∙ ap₂ (λ b (t : ℕ). if b then get_elem? ys t else get_elem? xs i)
          (sym (within_start (length ys) i)) (minus-zero i)
  get_elem?-splice [] (suc p) ys i h = absurd (omega arith)
  get_elem?-splice (x ∷ xs) (suc p) ys zero h =
      ap (λ b. if b then get_elem? ys (0 - suc p) else some x) (sym (within_before p (length ys)))
  get_elem?-splice (x ∷ xs) (suc p) ys (suc i) h =
      ap (λ (n : ℕ). get_elem? (take p xs ++ (ys ++ drop n (x ∷ xs))) i)
        (sym (suc_add p (length ys)))
      ∙ get_elem?-splice xs p ys i (omega (arith, h))
      ∙ ap₂ (λ b (t : ℕ). if b then get_elem? ys t else get_elem? xs i)
          (sym (within-suc p (length ys) i)) (minus-suc i p)

  get_elem?-take : (n : ℕ) (xs : List A) (i : ℕ) → i < n → get_elem? (take n xs) i ≡ get_elem? xs i
  get_elem?-take zero xs i h = absurd (omega arith)
  get_elem?-take (suc n) [] i h = refl
  get_elem?-take (suc n) (x ∷ xs) zero h = refl
  get_elem?-take (suc n) (x ∷ xs) (suc i) h = get_elem?-take n xs i (omega arith)

  get_elem?-drop : (n : ℕ) (xs : List A) (i : ℕ) → get_elem? (drop n xs) i ≡ get_elem? xs (n + i)
  get_elem?-drop zero xs i = ap (λ (t : ℕ). get_elem? xs t) (zero_add i)
  get_elem?-drop (suc n) [] i = refl
  get_elem?-drop (suc n) (x ∷ xs) i =
      get_elem?-drop n xs i ∙ ap (λ (t : ℕ). get_elem? (x ∷ xs) t) (suc_add n i)

  pub get_elem?-slice :
      (xs : List A) (a b i : ℕ) → a ≤ i → i < b → get_elem? (slice xs a b) (i - a) ≡ get_elem? xs i
  get_elem?-slice xs a b i h k =
      get_elem?-take (b - a) (drop a xs) (i - a) (omega arith)
      ∙ get_elem?-drop a xs (i - a)
      ∙ ap (λ (t : ℕ). get_elem? xs t) (omega arith)

  -- the same, for a part of known length
  pub get_elem?-splice_of :
      (xs : List A) (p : ℕ) (ys : List A) (n i : ℕ)
      → length ys ≡ n
      → p + n ≤ length xs
      → get_elem? (splice xs p ys) i
        ≡ (if within p n i then get_elem? ys (i - p) else get_elem? xs i)
  get_elem?-splice_of xs p ys n i size fits =
      get_elem?-splice xs p ys i (omega (arith, size, fits))
      ∙ ap (λ (m : ℕ). if within p m i then get_elem? ys (i - p) else get_elem? xs i) size
