-- ===== src/Base/Tests.antt =====
-- Boolean tests on the native numbers, the conditional, and case lemmas that keep the equation.
use native.Mathlib.Decide.{dec_lt}
use Prim.Native.Nat.{ℕ, zero, suc, ◌≤◌, ◌<◌, compare, Ordering}
use mathlib.Core.Path.{◌≡◌, refl}
use mathlib.Core.Logic.{◌↔◌, ◌⊎◌, inl, inr}
use mathlib.Core.Bool.{Bool, true, false, ◌&&◌}
use mathlib.Core.Option.{Option, none, some}
use native.Mathlib.Omega.{arith}

abbrev pub ltb : ℕ → ℕ → Bool
ltb a b = elim (compare a b) [ Ordering.lt ↦ true | _ ↦ false ]

abbrev pub leb : ℕ → ℕ → Bool
leb a b = elim (compare a b) [ Ordering.gt ↦ false | _ ↦ true ]

infix 50 ◌==◌
abbrev pub ◌==◌ : ℕ → ℕ → Bool
a == b = elim (compare a b) [ Ordering.eq ↦ true | _ ↦ false ]

infix 1 if◌then◌else◌
abbrev pub if◌then◌else◌ {ℓ} : {A : Type ℓ} → Bool → A → A → A
if true then x else y = x
if false then x else y = y

pub ltb→lt : (a b : ℕ) → ltb a b ≡ true → a < b
ltb→lt a b h = ground arith

pub lt→ltb : (a b : ℕ) → a < b → ltb a b ≡ true
lt→ltb a b h = ground arith

pub leb→le : (a b : ℕ) → leb a b ≡ true → a ≤ b
leb→le a b h = ground arith

pub le→leb : (a b : ℕ) → a ≤ b → leb a b ≡ true
le→leb a b h = ground arith

pub ==_iff : (a b : ℕ) → ((a == b) ≡ true) ↔ (a ≡ b)
==_iff a b = ground arith

pub ==_refl : (a : ℕ) → (a == a) ≡ true
==_refl a = ground arith

pub Bool-cases : (b : Bool) → (b ≡ true) ⊎ (b ≡ false)
Bool-cases true = inl refl
Bool-cases false = inr refl

pub Option-cases {ℓ} : {A : Type ℓ} (o : Option A) → (o ≡ none) ⊎ ((a : A) × (o ≡ some a))
Option-cases none = inl refl
Option-cases (some a) = inr (a, refl)

pub le→ltb_false : (a b : ℕ) → b ≤ a → ltb a b ≡ false
le→ltb_false a b h = ground arith

pub &&_inv : (a b : Bool) → (a && b) ≡ true → (a ≡ true) × (b ≡ true)
&&_inv true b h = (refl, h)
&&_inv false b h = cc

-- a test of every number below `n`
unfoldable pub passes_below : (ℕ → Bool) → ℕ → Bool
passes_below test zero = true
passes_below test (suc n) = passes_below test n && test n

pub passes_below_at :
    (test : ℕ → Bool) (n i : ℕ) → passes_below test n ≡ true → i < n → test i ≡ true
unfolding passes_below
passes_below_at test zero i h k = absurd (omega arith)
passes_below_at test (suc n) i h k =
    let both = &&_inv (passes_below test n) (test n) h in
    elim (last_or_before i n k) [
      | inl before ↦ passes_below_at test n i both.0 before
      | inr last ↦ rw last both.1
    ]
  where
    last_or_before : (i n : ℕ) → i < suc n → (i < n) ⊎ (i ≡ n)
    last_or_before i n k = elim (dec_lt i n) [ yes p ↦ inl p | no p ↦ inr (omega arith) ]

pub passes_below_all :
    (test : ℕ → Bool) (n : ℕ) → ((i : ℕ) → i < n → test i ≡ true) → passes_below test n ≡ true
unfolding passes_below
passes_below_all test zero h = refl
passes_below_all test (suc n) h =
    rw (passes_below_all test n (λ i lt. h i (omega (arith, lt))), h n (omega arith)) refl
