-- ===== src/Cdb/Chunk/Equal.antt =====
-- `eq_bytes` decides equality.
use libopod.Base.{ℕ, ◌≡◌, refl, ap₂, true, List, [], ◌∷◌, arith}
use libopod.Base.Tests.{==_refl}
use libopod.Cdb.Chunk.{eq_bytes}

pub eq_bytes_refl : (xs : List ℕ) → eq_bytes xs xs ≡ true
eq_bytes_refl [] = refl
eq_bytes_refl (x ∷ xs) = rw (==_refl x) (eq_bytes_refl xs)

pub eq_bytes→≡ : (xs ys : List ℕ) → eq_bytes xs ys ≡ true → xs ≡ ys
eq_bytes→≡ [] [] h = refl
eq_bytes→≡ [] (y ∷ ys) h = cc
eq_bytes→≡ (x ∷ xs) [] h = cc
eq_bytes→≡ (x ∷ xs) (y ∷ ys) h =
    let same : x ≡ y = ground arith in
    let rest : eq_bytes xs ys ≡ true = ground arith in ap₂ ◌∷◌ same (eq_bytes→≡ xs ys rest)
