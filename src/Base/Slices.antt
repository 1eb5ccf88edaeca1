-- ===== src/Base/Slices.antt =====
-- What a slice reads from a list in which another slice was overwritten.
use libopod.Base.Lists.{
  length, take, drop, slice, splice, length-append, length-take, take-append_at, take-append_le,
  drop-append_at, drop-drop,
}
use Prim.Native.Nat.{ℕ, zero, suc, ◌+◌, ◌-◌, ◌≤◌}
use mathlib.Core.Path.{◌≡◌, refl, sym, ap, ◌∙◌}
use mathlib.Core.List.{List, [], ◌∷◌, ◌++◌, append_assoc}
use native.Mathlib.Omega.{arith}

module _ {ℓ} {A : Type ℓ} where
  pub slice-eq-drop-take : (xs : List A) (a b : ℕ) → a ≤ b → slice xs a b ≡ drop a (take b xs)
  slice-eq-drop-take xs zero b h = ap (λ (t : ℕ). take t xs) (omega arith)
  slice-eq-drop-take [] (suc a) zero h = absurd (omega arith)
  slice-eq-drop-take (x ∷ xs) (suc a) zero h = absurd (omega arith)
  slice-eq-drop-take [] (suc a) (suc b) h = nothing (suc b - suc a)
    where
      nothing : (n : ℕ) → take {A = A} n [] ≡ []
      nothing zero = refl
      nothing (suc n) = refl
  slice-eq-drop-take (x ∷ xs) (suc a) (suc b) h =
      ap (λ (t : ℕ). take t (drop a xs)) (omega arith) ∙ slice-eq-drop-take xs a b (omega arith)

  pub take-take_le : (m n : ℕ) (xs : List A) → m ≤ n → take m (take n xs) ≡ take m xs
  take-take_le zero n xs h = refl
  take-take_le (suc m) zero xs h = absurd (omega arith)
  take-take_le (suc m) (suc n) [] h = refl
  take-take_le (suc m) (suc n) (x ∷ xs) h = ap (λ t. x ∷ t) (take-take_le m n xs (omega arith))

  pub drop-splice :
      (xs : List A) (at : ℕ) (ys : List A) (a : ℕ)
      → at + length ys ≤ length xs
      → at + length ys ≤ a
      → drop a (splice xs at ys) ≡ drop a xs
  drop-splice xs at ys a h k =
      sym (drop-drop (a - e) e a (splice xs at ys) (omega arith))
      ∙ ap (drop (a - e)) past
      ∙ drop-drop (a - e) e a xs (omega arith)
    where
      e : ℕ
      e = at + length ys

      past : drop e (splice xs at ys) ≡ drop e xs
      past =
          ap (drop e) (sym (append_assoc (take at xs) ys (drop e xs)))
          ∙ drop-append_at e (take at xs ++ ys) (drop e xs)
              (omega (arith, length-append (take at xs) ys, length-take at xs))

  pub take-splice :
      (xs : List A) (at : ℕ) (ys : List A) (b : ℕ)
      → at ≤ length xs
      → b ≤ at
      → take b (splice xs at ys) ≡ take b xs
  take-splice xs at ys b h k =
      take-append_le b (take at xs) _ (omega (arith, length-take at xs)) ∙ take-take_le b at xs k

  pub slice-splice_after :
      (xs : List A) (at : ℕ) (ys : List A) (a b : ℕ)
      → at + length ys ≤ length xs
      → at + length ys ≤ a
      → slice (splice xs at ys) a b ≡ slice xs a b
  slice-splice_after xs at ys a b h k = ap (take (b - a)) (drop-splice xs at ys a h k)

  pub slice-splice_before :
      (xs : List A) (at : ℕ) (ys : List A) (a b : ℕ)
      → at ≤ length xs
      → a ≤ b
      → b ≤ at
      → slice (splice xs at ys) a b ≡ slice xs a b
  slice-splice_before xs at ys a b h k l =
      slice-eq-drop-take (splice xs at ys) a b k
      ∙ ap (drop a) (take-splice xs at ys b h l)
      ∙ sym (slice-eq-drop-take xs a b k)

  pub slice-splice_self :
      (xs : List A) (at : ℕ) (ys : List A) (b : ℕ)
      → at ≤ length xs
      → b ≡ at + length ys
      → slice (splice xs at ys) at b ≡ ys
  slice-splice_self xs at ys b h k =
      ap (take (b - at)) (
        drop-append_at at (take at xs) (ys ++ drop (at + length ys) xs)
          (omega (arith, length-take at xs)))
      ∙ take-append_at (b - at) ys (drop (at + length ys) xs) (omega arith)

  -- a slice inside the first part of an append
  pub slice-append_le :
      (xs ys : List A) (a b : ℕ) → a ≤ b → b ≤ length xs → slice (xs ++ ys) a b ≡ slice xs a b
  slice-append_le xs ys a b h k =
      slice-eq-drop-take (xs ++ ys) a b h
      ∙ ap (drop a) (take-append_le b xs ys k)
      ∙ sym (slice-eq-drop-take xs a b h)

  -- the second of three parts
  pub slice-append_mid :
      (xs ys zs : List A) (a b : ℕ)
      → a ≡ length xs
      → b ≡ a + length ys
      → slice (xs ++ (ys ++ zs)) a b ≡ ys
  slice-append_mid xs ys zs a b h k =
      ap (take (b - a)) (drop-append_at a xs (ys ++ zs) h)
      ∙ take-append_at (b - a) ys zs (omega arith)

  -- a slice behind the first part of an append
  pub slice-append_ge :
      (xs ys : List A) (a b a' b' : ℕ)
      → a' ≡ length xs + a
      → b' ≡ length xs + b
      → slice (xs ++ ys) a' b' ≡ slice ys a b
  slice-append_ge xs ys a b a' b' h k =
      ap (take (b' - a')) (
        sym (drop-drop a (length xs) a' (xs ++ ys) h)
        ∙ ap (drop a) (drop-append_at (length xs) xs ys refl))
      ∙ ap (λ (t : ℕ). take t (drop a ys)) (omega arith)

  -- a slice of a slice
  pub slice-slice :
      (xs : List A) (a b c d c' d' : ℕ)
      → c ≤ d
      → a + d ≤ b
      → c' ≡ a + c
      → d' ≡ a + d
      → slice (slice xs a b) c d ≡ slice xs c' d'
  slice-slice xs a b c d c' d' cd inner ec ed =
      slice-eq-drop-take (slice xs a b) c d cd
      ∙ ap (drop c) (take-take_le d (b - a) (drop a xs) (omega arith))
      ∙ sym (slice-eq-drop-take (drop a xs) c d cd)
      ∙ ap (take (d - c)) (drop-drop c a c' xs ec)
      ∙ ap (λ (t : ℕ). take t (drop c' xs)) (omega arith)
