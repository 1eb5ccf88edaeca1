-- ===== src/Cdb/Index/Renumber.antt =====
-- How positions move when some are removed: the arithmetic of `renumber` and `regroup`.
use libopod.Base.{
  ℕ, zero, suc, ◌+◌, ◌-◌, ◌≤◌, ◌<◌, ◌≡◌, refl, ap, inl, inr, true, false, List, [], ◌∷◌, arith,
}
use libopod.Base.Tests.{◌==◌, if◌then◌else◌, Bool-cases}
use libopod.Base.Lists.{get_elem?, count_if}
use libopod.Cdb.Index.{contains, before, inside, renumber, u32_mod, regroup}

-- No position is listed twice.
abbrev pub Once : List ℕ → Type 0
Once removed = (v : ℕ) → count_if (λ p. p == v) removed ≤ 1

pub before-suc :
    (removed : List ℕ) (v : ℕ)
    → before removed (suc v) ≡ before removed v + count_if (λ p. p == v) removed
before-suc [] v = omega arith
before-suc (p ∷ removed) v = ground (arith, before-suc removed v)

pub before-zero : (removed : List ℕ) → before removed 0 ≡ 0
before-zero [] = refl
before-zero (p ∷ removed) = ground (arith, before-zero removed)

pub before-le : (removed : List ℕ) (v : ℕ) → Once removed → before removed v ≤ v
before-le removed zero h = omega (arith, before-zero removed)
before-le removed (suc v) h = omega (arith, before-suc removed v, before-le removed v h, h v)

-- between two positions, at most as many are removed as lie between them
pub before-le-add :
    (removed : List ℕ) (a n : ℕ) → Once removed → before removed (n + a) ≤ before removed a + n
before-le-add removed a zero h = ground arith
before-le-add removed a (suc n) h =
    let e : suc n + a ≡ suc (n + a) = omega arith in
    rw e (omega (arith, before-suc removed (n + a), before-le-add removed a n h, h (n + a)))

pub before_mono : (removed : List ℕ) (a n : ℕ) → before removed a ≤ before removed (n + a)
before_mono removed a zero = ground arith
before_mono removed a (suc n) =
    let e : suc n + a ≡ suc (n + a) = omega arith in
    rw e (omega (arith, before-suc removed (n + a), before_mono removed a n))

pub inside-add-before :
    (slots : List ℕ) (a b : ℕ) → a ≤ b → inside slots a b + before slots a ≡ before slots b
inside-add-before [] a b h = refl
inside-add-before (s ∷ slots) a b h = ground (arith, inside-add-before slots a b h)

pub contains-count :
    (removed : List ℕ) (v : ℕ) → contains removed v ≡ false → count_if (λ p. p == v) removed ≡ 0
contains-count [] v h = refl
contains-count (p ∷ removed) v h = ground (arith, contains-count removed v)

-- On a `u32` position the saturation never shows.
pub renumber-eq :
    (removed : List ℕ) (v : ℕ) → v < u32_mod → renumber removed v ≡ v - before removed v
unfolding renumber
renumber-eq removed v h = ground arith

pub regroup-eq :
    (slots : List ℕ) (start n : ℕ)
    → start + n < u32_mod
    → regroup slots start n ≡ n - inside slots start (start + n)
unfolding regroup
regroup-eq slots start n h = ground arith

pub renumber-le : (removed : List ℕ) (v : ℕ) → renumber removed v ≤ v
unfolding renumber
renumber-le removed v = omega arith

pub regroup-le : (slots : List ℕ) (start n : ℕ) → regroup slots start n ≤ n
unfolding regroup
regroup-le slots start n = omega arith

-- A list without the elements at the removed positions, counted from `i`.
abbrev pub retain {ℓ} : {A : Type ℓ} → List ℕ → ℕ → List A → List A
retain removed i [] = []
retain removed i (x ∷ xs) =
    if contains removed i then retain removed (suc i) xs else x ∷ retain removed (suc i) xs

count-contains :
    (removed : List ℕ) (v : ℕ) → contains removed v ≡ true → 1 ≤ count_if (λ p. p == v) removed
count-contains [] v h = cc
count-contains (p ∷ removed) v h = ground (arith, count-contains removed v)

retain-get_kept {ℓ} :
    {A : Type ℓ} (removed : List ℕ) (i : ℕ) (x : A) (xs : List A) (q p k : ℕ)
    → Once removed
    → p ≡ suc q + i
    → k + (i - before removed i) ≡ p - before removed p
    → contains removed i ≡ false
    → ((k' : ℕ)
        → k' + (suc i - before removed (suc i)) ≡ p - before removed p
        → get_elem? (retain removed (suc i) xs) k' ≡ get_elem? xs q)
    → get_elem? (x ∷ retain removed (suc i) xs) k ≡ get_elem? xs q
retain-get_kept removed i x xs q p zero once e h kept rec =
    let e' : p ≡ q + suc i = omega arith in
    absurd (
      omega (
        arith,
        h,
        before-suc removed i,
        contains-count removed i kept,
        before-le-add removed (suc i) q once,
        ap (before removed) e',
        before-le removed i once,
      ))
retain-get_kept removed i x xs q p (suc k) once e h kept rec = rec k (
    omega (arith, h, before-suc removed i, contains-count removed i kept, before-le removed i once))

retain-get {ℓ} :
    {A : Type ℓ} (removed : List ℕ) (i : ℕ) (xs : List A) (q p k : ℕ)
    → Once removed
    → p ≡ q + i
    → contains removed p ≡ false
    → k + (i - before removed i) ≡ p - before removed p
    → get_elem? (retain removed i xs) k ≡ get_elem? xs q
retain-get removed i [] q p k once e free h = refl
retain-get removed i (x ∷ xs) zero p k once e free h =
    let e' : p ≡ i = omega arith in
    let free' : contains removed i ≡ false = rw (← e') free in
    let k' : k ≡ 0 = omega (arith, ap (before removed) e') in rw (free', k') refl
retain-get removed i (x ∷ xs) (suc q) p k once e free h = elim (Bool-cases (contains removed i)) [
  | inl gone ↦ rw gone (
      retain-get removed (suc i) xs q p k once (omega arith) free (
        omega (
          arith,
          h,
          before-suc removed i,
          once i,
          count-contains removed i gone,
          before-le removed i once,
        )))
  | inr kept ↦ rw kept (
      retain-get_kept removed i x xs q p k once e h kept
        (λ k'. retain-get removed (suc i) xs q p k' once (omega arith) free))
]

-- A track that is not removed stands, in the list without the removed ones, at the position that
-- `renumber` gives it.
pub retain-renumber {ℓ} :
    {A : Type ℓ} (removed : List ℕ) (xs : List A) (p : ℕ)
    → Once removed
    → p < u32_mod
    → contains removed p ≡ false
    → get_elem? (retain removed 0 xs) (renumber removed p) ≡ get_elem? xs p
retain-renumber removed xs p once fits free =
    rw (renumber-eq removed p fits)
      (retain-get removed 0 xs p p (p - before removed p) once (omega arith) free (omega arith))
