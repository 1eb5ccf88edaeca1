-- ===== src/Hashab/Edonr.antt =====
-- src/crypto/hashab/edonr.rs: the compression function over sixteen words.
use libopod.Base.{List, [], ◌∷◌, ◌++◌, reverse}
use libopod.Base.Lists.{take, drop}
use libopod.Hashab.Word.{Word, at, ◌+◌, ◌^◌, rotate_left, xor_words}

unfoldable pub initial_state : List Word
initial_state =
    0x40414243 ∷ 0x44454647 ∷ 0x48494a4b ∷ 0x4c4d4e4f ∷ 0x50515253 ∷ 0x54555657 ∷ 0x58595a5b
    ∷ 0x5c5d5e5f ∷ 0x60616263 ∷ 0x64656667 ∷ 0x68696a6b ∷ 0x6c6d6e6f ∷ 0x70717273 ∷ 0x74757677
    ∷ 0x78797a7b ∷ 0x7c7d7e7f ∷ []

-- the half of `q256` over `x`
q256_left : List Word → List Word
q256_left x =
    let t8 = at x 0 + at x 4 in
    let t9 = at x 1 + at x 7 in
    let t12 = t8 + t9 in
    let t10 = at x 2 + at x 3 in
    let t11 = at x 5 + at x 6 in
    let t13 = t10 + t11 in
    let t0 = 0xaaaaaaaa + t12 + at x 2 in
    let t1 = rotate_left (t12 + at x 3) 4 in
    let t2 = rotate_left (t12 + at x 6) 8 in
    let t3 = rotate_left (t13 + at x 7) 13 in
    let t4 = rotate_left (at x 1 + t13) 17 in
    let t5 = rotate_left (t8 + t10 + at x 5) 22 in
    let t6 = rotate_left (at x 0 + t9 + t11) 24 in
    let t7 = rotate_left (t13 + at x 4) 29 in
    let t16 = t0 ^ t4 in
    let t17 = t1 ^ t7 in
    let t18 = t2 ^ t3 in
    let t19 = t5 ^ t6 in
    let a5 = t3 ^ t19 in
    let a6 = t2 ^ t19 in
    let a7 = t18 ^ t5 in
    let a0 = t16 ^ t1 in
    let a1 = t16 ^ t7 in
    let a2 = t17 ^ t6 in
    let a3 = t18 ^ t4 in let a4 = t0 ^ t17 in a0 ∷ a1 ∷ a2 ∷ a3 ∷ a4 ∷ a5 ∷ a6 ∷ a7 ∷ []

-- the half over `y`
q256_right : List Word → List Word
q256_right y =
    let t16 = at y 0 + at y 1 in
    let t17 = at y 2 + at y 5 in
    let t20 = t16 + t17 in
    let t18 = at y 3 + at y 4 in
    let t22 = t16 + t18 in
    let t19 = at y 6 + at y 7 in
    let t21 = t18 + t19 in
    let t23 = t17 + t19 in
    let t0 = 0x55555555 + t20 + at y 7 in
    let t1 = rotate_left (t22 + at y 6) 5 in
    let t2 = rotate_left (t20 + at y 3) 9 in
    let t3 = rotate_left (at y 2 + t21) 11 in
    let t4 = rotate_left (t22 + at y 5) 15 in
    let t5 = rotate_left (t23 + at y 4) 20 in
    let t6 = rotate_left (at y 1 + t23) 25 in
    let t7 = rotate_left (at y 0 + t21) 27 in
    let t16 = t0 ^ t1 in
    let t17 = t2 ^ t5 in
    let t18 = t3 ^ t4 in
    let t19 = t6 ^ t7 in
    (t16 ^ t5)
    ∷ (t2 ^ t19)
    ∷ (t16 ^ t3)
    ∷ (t0 ^ t18)
    ∷ (t1 ^ t17)
    ∷ (t18 ^ t6)
    ∷ (t17 ^ t7)
    ∷ (t4 ^ t19)
    ∷ []

-- the halves are added word by word
unfoldable pub q256 : List Word → List Word → List Word
unfolding q256_left q256_right
q256 x y =
    let a = q256_left x in
    let b = q256_right y in
    (at a 0 + at b 0)
    ∷ (at a 1 + at b 1)
    ∷ (at a 2 + at b 2)
    ∷ (at a 3 + at b 3)
    ∷ (at a 4 + at b 4)
    ∷ (at a 5 + at b 5)
    ∷ (at a 6 + at b 6)
    ∷ (at a 7 + at b 7)
    ∷ []

unfoldable pub compress : List Word → List Word → List Word
unfolding q256
compress state block =
    let low = take 8 block in
    let high = drop 8 block in
    let p16 = q256 (reverse high) low in
    let p24 = q256 p16 high in
    let p16 = q256 (drop 8 state) p16 in
    let p24 = q256 p16 p24 in
    let p16 = q256 p16 (take 8 state) in
    let p24 = q256 p24 p16 in
    let p16 = q256 (reverse low) p16 in
    let p24 = q256 p16 p24 in
    xor_words (take 8 state) (xor_words high p16) ++ xor_words (drop 8 state) (xor_words low p24)
