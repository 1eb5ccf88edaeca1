-- ===== src/Hash58/Gcd.antt =====
-- The arithmetic of the key derivation.
use libopod.Base.{
  ℕ, zero, suc, ◌+◌, ◌-◌, ◌*◌, ◌/◌, ◌%◌, ◌≤◌, ◌<◌, ◌≡◌, refl, sym, ap, ap₂, ◌∙◌, false, arith,
}
use native.Mathlib.Nat.{
  mul_assoc, mul_comm, add-mul, mul-add, mul-sub, div-add-mod', mul-div_cancel, div-le_self,
  mul-le-mul_right,
}
use libopod.Base.Tests.{◌==◌}
use libopod.Hash58.{gcd_loop, gcd, lcm}

-- `g` divides `a`
abbrev pub Divides : ℕ → ℕ → Type 0
Divides g a = (m : ℕ) × (a ≡ m * g)

Divides-step : (g a c m n : ℕ) → suc c ≡ m * g → a % suc c ≡ n * g → a ≡ (a / suc c * m + n) * g
Divides-step g a c m n h k =
    sym (div-add-mod' a (suc c))
    ∙ ap₂ ◌+◌ (ap (λ (t : ℕ). a / suc c * t) h ∙ sym (mul_assoc (a / suc c) m g)) k
    ∙ sym (add-mul (a / suc c * m) n g)

gcd_loop-Divides :
    (fuel a b : ℕ) → b < fuel → Divides (gcd_loop fuel a b) a × Divides (gcd_loop fuel a b) b
unfolding gcd_loop
gcd_loop-Divides zero a b h = absurd (omega arith)
gcd_loop-Divides (suc fuel) a zero h = ((1, omega arith), (0, omega arith))
gcd_loop-Divides (suc fuel) a (suc c) h =
    let ((m, left), (n, right)) = gcd_loop-Divides fuel (suc c) (a % suc c) (omega (arith, h)) in
    ((a / suc c * m + n, Divides-step _ a c m n left right), (m, left))

gcd_loop-pos : (fuel a b : ℕ) → 0 < a → 0 < gcd_loop fuel a b
unfolding gcd_loop
gcd_loop-pos zero a b h = h
gcd_loop-pos (suc fuel) a zero h = h
gcd_loop-pos (suc fuel) a (suc c) h = gcd_loop-pos fuel (suc c) (a % suc c) (omega arith)

lcm_of : (a b g m n : ℕ) → 0 < g → a ≡ m * g → b ≡ n * g → (a * b / g ≡ n * a) × (a * b / g ≡ m * b)
lcm_of a b g m n pos ha hb = (
  ap (λ (t : ℕ). t / g) (ap (λ (t : ℕ). a * t) hb ∙ sym (mul_assoc a n g))
      ∙ mul-div_cancel (a * n) pos
      ∙ mul_comm a n,
  ap (λ (t : ℕ). t / g) (mul_comm a b ∙ ap (λ (t : ℕ). b * t) ha ∙ sym (mul_assoc b m g))
      ∙ mul-div_cancel (b * m) pos
      ∙ mul_comm b m,
)

lcm_positive : (a b : ℕ) → 0 < a → 0 < b → lcm a b ≡ a * b / gcd a b
unfolding lcm
lcm_positive a b h k = rw (positive a h, positive b k) refl
  where
    positive : (n : ℕ) → 0 < n → (n == 0) ≡ false
    positive n p = ground arith

product_lt : (a b : ℕ) → a < 256 → b < 256 → a * b < 65536
product_lt a b h k =
    let le : a * b ≤ 255 * b = mul-le-mul_right b (omega (arith, h)) in omega (arith, le, k)

-- a factor of `c * a` and `c * b` is one of `c` times their remainder
Divides-remainder :
    (d c a k : ℕ) → Divides d (c * a) → Divides d (c * suc k) → Divides d (c * (a % suc k))
Divides-remainder d c a k (p, left) (q, right) = (p - a / suc k * q, difference)
  where
    parts : c * a ≡ a / suc k * q * d + c * (a % suc k)
    parts =
        ap (λ (t : ℕ). c * t) (sym (div-add-mod' a (suc k)))
        ∙ mul-add c (a / suc k * suc k) (a % suc k)
        ∙ ap (λ (t : ℕ). t + c * (a % suc k))
            (sym (mul_assoc c (a / suc k) (suc k))
              ∙ ap (λ (t : ℕ). t * suc k) (mul_comm c (a / suc k))
              ∙ mul_assoc (a / suc k) c (suc k)
              ∙ ap (λ (t : ℕ). a / suc k * t) right
              ∙ sym (mul_assoc (a / suc k) q d))

    difference : c * (a % suc k) ≡ (p - a / suc k * q) * d
    difference = omega (
      arith,
      parts,
      left,
      mul-sub d p (a / suc k * q),
      mul_comm d p,
      mul_comm d (a / suc k * q),
      mul_comm d (p - a / suc k * q),
    )

-- a factor of `c * a` and `c * b` is one of `c * gcd a b`
gcd_loop_greatest :
    (fuel a b c d : ℕ)
    → b < fuel
    → Divides d (c * a)
    → Divides d (c * b)
    → Divides d (c * gcd_loop fuel a b)
unfolding gcd_loop
gcd_loop_greatest zero a b c d h x y = absurd (omega arith)
gcd_loop_greatest (suc fuel) a zero c d h x y = x
gcd_loop_greatest (suc fuel) a (suc k) c d h x y =
    gcd_loop_greatest fuel (suc k) (a % suc k) c d (omega (arith, h)) y
      (Divides-remainder d c a k x y)

-- The multiple that divides every common multiple is the least one.
lcm_least : (a b g l c : ℕ) → 0 < g → a * b ≡ l * g → Divides (a * b) (c * g) → Divides l c
lcm_least a b g l c pos whole (q, h) = (
  q,
  sym (mul-div_cancel c pos)
      ∙ ap (λ (t : ℕ). t / g) (h ∙ ap (λ (t : ℕ). q * t) whole ∙ sym (mul_assoc q l g))
      ∙ mul-div_cancel (q * l) pos,
)

-- `l` is the least common multiple of `a` and `b`: a multiple of both, that every other one is a
-- multiple of.
pub record IsLcm (a b l : ℕ) : Type 0 where
  pub left : Divides a l
  pub right : Divides b l
  pub least : (c : ℕ) → Divides a c → Divides b c → Divides l c

-- For two bytes that are not zero, `lcm` gives the least common multiple, with the fuel that it takes;
-- it fits in the two bytes by which the tables are read.
pub lcm-IsLcm :
    (a b : ℕ)
    → 0 < a
    → 0 < b
    → a < 256
    → b < 256
    → IsLcm a b (lcm a b) × (lcm a b / 256 % 256 * 256 + lcm a b % 256 ≡ lcm a b)
unfolding gcd
lcm-IsLcm a b pa pb ha hb =
    let g = gcd_loop (suc b) a b in
    let ((m, left), (n, right)) = gcd_loop-Divides (suc b) a b (omega arith) in
    let is = lcm_positive a b pa pb in
    let pos = gcd_loop-pos (suc b) a b pa in
    let (x, y) = lcm_of a b g m n pos left right in
    let small = div-le_self (a * b) g in
    let below = product_lt a b ha hb in
    let whole : a * b ≡ lcm a b * g =
      ap (λ (t : ℕ). t * b) left
      ∙ mul_assoc m g b
      ∙ ap (λ (t : ℕ). m * t) (mul_comm g b)
      ∙ sym (mul_assoc m b g)
      ∙ ap (λ (t : ℕ). t * g) (sym (is ∙ y)) in
    (
      record {
        left = (n, is ∙ x);
        right = (m, is ∙ y);
        least = λ c u v. lcm_least a b g (lcm a b) c pos whole (
            gcd_loop_greatest (suc b) a b c (a * b) (omega arith) (times_right a b c v)
              (times_left a b c u));
      },
      omega (arith, is, small, below),
    )
  where
    times_right : (a b c : ℕ) → Divides b c → Divides (a * b) (c * a)
    times_right a b c (k, h) =
        (k, ap (λ (t : ℕ). t * a) h ∙ mul_assoc k b a ∙ ap (λ (t : ℕ). k * t) (mul_comm b a))

    times_left : (a b c : ℕ) → Divides a c → Divides (a * b) (c * b)
    times_left a b c (k, h) = (k, ap (λ (t : ℕ). t * b) h ∙ mul_assoc k a b)
