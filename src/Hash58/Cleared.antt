-- ===== src/Hash58/Cleared.antt =====
-- What is digested of the file that src/crypto/hash58.rs signs, byte by byte.
use libopod.Base.{ℕ, ◌-◌, ◌≤◌, ◌≡◌, refl, ap, ◌∙◌, Bool, true, false, List, arith}
use libopod.Base.Tests.{if◌then◌else◌}
use libopod.Base.Lists.{length, splice, length-splice, get_elem?, replicate}
use libopod.Base.Points.{within, get_elem?-splice}
use libopod.Bytes.{to_le_bytes}
use libopod.Hash58.{cleared}

-- the same conditions again change nothing
pub pick_again :
    {A : Type 0} (a b c d : Bool) (s z y x back v w digest : A)
    → (if a
        then s
        else if b
        then z
        else if c
        then y
        else if d
        then x
        else if c
        then w
        else if d
        then back
        else if b
        then digest
        else if a
        then s
        else if b
        then z
        else if c
        then y
        else if d
        then x
        else v)
      ≡ (if a then s else if b then z else if c then y else if d then x else v)
pick_again true b c d s z y x back v w digest = refl
pick_again false true c d s z y x back v w digest = refl
pick_again false false true d s z y x back v w digest = refl
pick_again false false false true s z y x back v w digest = refl
pick_again false false false false s z y x back v w digest = refl

module _ (db : List ℕ) (long : 0x6c ≤ length db) where
  pub length-cleared_steps :
      (length (splice db 0x18 (replicate 8 0)) ≡ length db)
      × (length (splice (splice db 0x18 (replicate 8 0)) 0x32 (replicate 20 0)) ≡ length db)
      × (length (
            splice
              (splice (splice db 0x18 (replicate 8 0)) 0x32 (replicate 20 0))
              0x58
              (replicate 20 0))
          ≡ length db)
      × (length (cleared db) ≡ length db)
  unfolding cleared to_le_bytes
  length-cleared_steps =
      let one = length-splice db 0x18 (replicate 8 0) (omega (arith, long)) in
      let two =
        length-splice (splice db 0x18 (replicate 8 0)) 0x32 (replicate 20 0)
          (omega (arith, long, one))
        ∙ one in
      let three =
        length-splice (splice (splice db 0x18 (replicate 8 0)) 0x32 (replicate 20 0)) 0x58
          (replicate 20 0) (omega (arith, long, two))
        ∙ two in
      (
        one,
        two,
        three,
        length-splice
              (splice (splice (splice db 0x18 (replicate 8 0)) 0x32 (replicate 20 0)) 0x58
                (replicate 20 0))
              0x30 (to_le_bytes 2 1) (omega (arith, long, three))
            ∙ three,
      )

  pub get_elem?-cleared :
      (i : ℕ)
      → get_elem? (cleared db) i ≡ (
          if within 0x30 2 i
          then get_elem? (to_le_bytes 2 1) (i - 0x30)
          else if within 0x58 20 i
          then get_elem? (replicate 20 0) (i - 0x58)
          else if within 0x32 20 i
          then get_elem? (replicate 20 0) (i - 0x32)
          else if within 0x18 8 i
          then get_elem? (replicate 8 0) (i - 0x18)
          else get_elem? db i)
  unfolding cleared to_le_bytes
  get_elem?-cleared i =
      let (one, two, three, _) = length-cleared_steps in
      get_elem?-splice _ 0x30 (to_le_bytes 2 1) i (omega (arith, long, three))
      ∙ ap (λ t. if within 0x30 2 i then get_elem? (to_le_bytes 2 1) (i - 0x30) else t)
          (get_elem?-splice _ 0x58 (replicate 20 0) i (omega (arith, long, two))
            ∙ ap (λ t. if within 0x58 20 i then get_elem? (replicate 20 0) (i - 0x58) else t)
                (get_elem?-splice _ 0x32 (replicate 20 0) i (omega (arith, long, one))
                  ∙ ap (λ t. if within 0x32 20 i then get_elem? (replicate 20 0) (i - 0x32) else t)
                      (get_elem?-splice db 0x18 (replicate 8 0) i (omega (arith, long)))))
