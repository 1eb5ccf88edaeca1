-- ===== src/Hashab/Random.antt =====
-- A signature carries the random bytes that it was made with.
use libopod.Base.{
  ℕ, zero, suc, ◌≡◌, refl, sym, ap, ◌∙◌, Bool, true, false, ◌&&◌, List, [], ◌∷◌, map, arith,
}
use libopod.Base.Tests.{&&_inv}
use libopod.Base.Lists.{length, take, drop, replicate}
use libopod.Cdb.Chunk.{eq_bytes}
use libopod.Cdb.Chunk.Equal.{eq_bytes_refl, eq_bytes→≡}
use libopod.Hashab.Word.{at}
use libopod.Hashab.{
  calculate, find_random, signature_byte, permutation_56, random_bytes, all_true,
  verify_digest_signature, stage2_output,
}

-- the first `n` items from `i` on
collect : ℕ → ℕ → List ℕ → List ℕ
collect zero i xs = []
collect (suc n) i xs = at xs i ∷ collect n (suc i) xs

collect-cons : (n i x : ℕ) (xs : List ℕ) → collect n (suc i) (x ∷ xs) ≡ collect n i xs
unfolding collect
collect-cons zero i x xs = refl
collect-cons (suc n) i x xs = ap (λ t. at xs i ∷ t) (collect-cons n (suc i) x xs)

collect-all : (n : ℕ) (xs : List ℕ) → length xs ≡ n → collect n 0 xs ≡ xs
unfolding collect
collect-all zero [] h = refl
collect-all zero (x ∷ xs) h = absurd (omega arith)
collect-all (suc n) [] h = absurd (omega arith)
collect-all (suc n) (x ∷ xs) h =
    ap (λ t. x ∷ t) (collect-cons n 0 x xs ∙ collect-all n xs (omega arith))

find_random-calculate_at :
    (random output : List ℕ)
    → find_random
        (map (signature_byte random output) (take 55 permutation_56))
        permutation_56
        (replicate random_bytes 0)
        (replicate random_bytes false)
      ≡ (collect 23 0 random, replicate random_bytes true)
unfolding find_random signature_byte collect
find_random-calculate_at random output = refl

-- The random bytes are found again, each of them.
pub find_random-calculate :
    (digest guid random : List ℕ)
    → length random ≡ 23
    → find_random
        (drop 2 (calculate digest guid random))
        permutation_56
        (replicate random_bytes 0)
        (replicate random_bytes false)
      ≡ (random, replicate random_bytes true)
unfolding calculate
find_random-calculate digest guid random h =
    find_random-calculate_at random (stage2_output digest guid random)
    ∙ ap (λ (t : List ℕ). (t, replicate random_bytes true)) (collect-all 23 random h)

-- A signature of a digest verifies for that digest and device, whatever the random bytes.
pub verify_digest_signature-calculate :
    (digest guid random : List ℕ)
    → length random ≡ 23
    → verify_digest_signature digest guid (calculate digest guid random) ≡ true
unfolding verify_digest_signature
verify_digest_signature-calculate digest guid random h =
    ap
      (λ (r : List ℕ × List Bool).
        all_true r.1 && eq_bytes (calculate digest guid r.0) (calculate digest guid random))
      (find_random-calculate digest guid random h)
    ∙ eq_bytes_refl (calculate digest guid random)

pub verify_digest_signature_inv :
    (digest guid signature : List ℕ)
    → verify_digest_signature digest guid signature ≡ true
    → (random : List ℕ) × (signature ≡ calculate digest guid random)
unfolding verify_digest_signature
verify_digest_signature_inv digest guid signature h =
    let r =
      find_random (drop 2 signature) permutation_56 (replicate random_bytes 0)
        (replicate random_bytes false) in
    (
      r.0,
      sym (
          eq_bytes→≡ (calculate digest guid r.0) signature
            (&&_inv (all_true r.1) (eq_bytes (calculate digest guid r.0) signature) h).1),
    )
