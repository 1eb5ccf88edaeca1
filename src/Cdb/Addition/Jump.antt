-- ===== src/Cdb/Addition/Jump.antt =====
-- The groups of a jump table, as the loop over the letters builds them.
use libopod.Base.{
  ℕ, zero, suc, ◌+◌, ◌≡◌, inl, inr, refl, sym, ap, ap₂, ◌∙◌, true, false, Option, none, some, List,
  [], ◌∷◌, ◌++◌, append_assoc, append-nil, arith,
}
use mathlib.Core.Path.{subst}
use libopod.Base.Tests.{◌==◌, ==_iff, Bool-cases}
use libopod.Base.Lists.{length, replicate, length-append}
use libopod.Error.{ok, ok-injective, >>=-eq-ok}
use libopod.Cdb.Index.{u32_from}
use libopod.Cdb.Index.Writes.{u32_from_inv}
use libopod.Cdb.Index.Jump.{Group, Tiles}
use libopod.Cdb.Addition.{count_last, is_letter, group_letters}

-- the letters of the slots, as the groups give them
abbrev pub spread : List Group → List ℕ
spread [] = []
spread ((letter, start, count) ∷ gs) = replicate count letter ++ spread gs

-- no two neighbours have the same letter
abbrev pub Apart : List Group → Type 0
Apart [] = Unit {0}
Apart (g ∷ []) = Unit {0}
Apart (g ∷ h ∷ gs) = (g.0 ≡ h.0 → ⊥) × Apart (h ∷ gs)

-- the letter of the last group
abbrev last_letter : List Group → Option ℕ
last_letter [] = none
last_letter ((letter, start, count) ∷ []) = some letter
last_letter (g ∷ h ∷ gs) = last_letter (h ∷ gs)

some-injective : {a b : ℕ} → some a ≡ some b → a ≡ b
some-injective h = cc

replicate-snoc : (n a : ℕ) → replicate (n + 1) a ≡ replicate n a ++ (a ∷ [])
replicate-snoc zero a = refl
replicate-snoc (suc n) a = ap (λ k. replicate k a) (shift n) ∙ ap (λ t. a ∷ t) (replicate-snoc n a)
  where
    shift : (n : ℕ) → suc n + 1 ≡ suc (n + 1)
    shift n = omega arith

Tiles-snoc :
    (a b letter count : ℕ) (gs : List Group)
    → Tiles a gs b
    → Tiles a (gs ++ ((letter, b, count) ∷ [])) (b + count)
Tiles-snoc a b letter count [] h = (sym h, ap (λ (x : ℕ). x + count) h)
Tiles-snoc a b letter count ((l, start, n) ∷ gs) h = (h.0, Tiles-snoc (a + n) b letter count gs h.1)

Tiles-count_last :
    (a b : ℕ) (gs : List Group) (letter : ℕ)
    → last_letter gs ≡ some letter
    → Tiles a gs b
    → Tiles a (count_last gs) (b + 1)
Tiles-count_last a b [] letter l h = cc
Tiles-count_last a b ((x, start, n) ∷ []) letter l h = (h.0, omega (arith, h.1))
Tiles-count_last a b ((x, start, n) ∷ g ∷ gs) letter l h =
    (h.0, Tiles-count_last (a + n) b (g ∷ gs) letter l h.1)

spread-snoc :
    (gs : List Group) (letter start : ℕ)
    → spread (gs ++ ((letter, start, 1) ∷ [])) ≡ spread gs ++ (letter ∷ [])
spread-snoc [] letter start = refl
spread-snoc ((l, s, n) ∷ gs) letter start =
    ap (λ t. replicate n l ++ t) (spread-snoc gs letter start)
    ∙ sym (append_assoc (replicate n l) (spread gs) (letter ∷ []))

spread-count_last :
    (gs : List Group) (letter : ℕ)
    → last_letter gs ≡ some letter
    → spread (count_last gs) ≡ spread gs ++ (letter ∷ [])
spread-count_last [] letter l = cc
spread-count_last ((x, start, n) ∷ []) letter l =
    append-nil (replicate (n + 1) x)
    ∙ replicate-snoc n x
    ∙ ap₂ (λ xs y. xs ++ (y ∷ [])) (sym (append-nil (replicate n x))) (some-injective l)
spread-count_last ((x, start, n) ∷ g ∷ gs) letter l =
    ap (λ t. replicate n x ++ t) (spread-count_last (g ∷ gs) letter l)
    ∙ sym (append_assoc (replicate n x) (spread (g ∷ gs)) (letter ∷ []))

last_letter-snoc :
    (gs : List Group) (letter start count : ℕ)
    → last_letter (gs ++ ((letter, start, count) ∷ [])) ≡ some letter
last_letter-snoc [] letter start count = refl
last_letter-snoc (g ∷ []) letter start count = refl
last_letter-snoc (g ∷ h ∷ gs) letter start count = last_letter-snoc (h ∷ gs) letter start count

last_letter-count_last : (gs : List Group) → last_letter (count_last gs) ≡ last_letter gs
last_letter-count_last [] = refl
last_letter-count_last ((x, start, n) ∷ []) = refl
last_letter-count_last (f ∷ g ∷ []) = refl
last_letter-count_last (f ∷ g ∷ h ∷ gs) = last_letter-count_last (g ∷ h ∷ gs)

Apart-snoc :
    (gs : List Group) (letter start count : ℕ)
    → (last_letter gs ≡ some letter → ⊥)
    → Apart gs
    → Apart (gs ++ ((letter, start, count) ∷ []))
Apart-snoc [] letter start count new h = tt
Apart-snoc ((x, s, n) ∷ []) letter start count new h = ((λ same. new (ap some same)), tt)
Apart-snoc (g ∷ h ∷ gs) letter start count new a =
    (a.0, Apart-snoc (h ∷ gs) letter start count new a.1)

Apart-count_last : (gs : List Group) → Apart gs → Apart (count_last gs)
Apart-count_last [] h = tt
Apart-count_last ((x, s, n) ∷ []) h = tt
Apart-count_last (f ∷ (x, s, n) ∷ []) h = h
Apart-count_last (f ∷ g ∷ h ∷ gs) a = (a.0, Apart-count_last (g ∷ h ∷ gs) a.1)

is_letter-some : (last : Option ℕ) (letter : ℕ) → is_letter last letter ≡ true → last ≡ some letter
is_letter-some none letter h = cc
is_letter-some (some previous) letter h = ap some ((==_iff previous letter).0 h)

is_letter-other :
    (last : Option ℕ) (letter : ℕ) → is_letter last letter ≡ false → last ≡ some letter → ⊥
is_letter-other none letter h e = cc
is_letter-other (some previous) letter h e = different previous letter h (some-injective e)
  where
    different : (a b : ℕ) → (a == b) ≡ false → a ≡ b → ⊥
    different a b h e = ground arith

-- The groups cover the slots from 0 on, one after the other; they give each slot its letter; no two
-- neighbours have the same one.
pub record IsRuns (letters : List ℕ) (gs : List Group) : Type 0 where
  pub tiles : Tiles 0 gs (length letters)
  pub spreads : spread gs ≡ letters
  pub apart : Apart gs

group_letters_loop :
    (index : ℕ) (done : List ℕ) (gs : List Group) (letters : List ℕ) {out : List Group}
    → index ≡ length done
    → IsRuns done gs
    → group_letters index (last_letter gs) gs letters ≡ ok out
    → IsRuns (done ++ letters) out
unfolding group_letters
group_letters_loop index done gs [] {out} size r h =
    subst (λ l. IsRuns l out) (sym (append-nil done)) (subst (IsRuns done) (ok-injective h) r)
group_letters_loop index done gs (letter ∷ rest) {out} size r h =
    let shift = append_assoc done (letter ∷ []) rest in
    let longer = length-append done (letter ∷ []) in
    elim (Bool-cases (is_letter (last_letter gs) letter)) [
      | inl same ↦
          let l = is_letter-some (last_letter gs) letter same in
          subst (λ t. IsRuns t out) shift
            (group_letters_loop (index + 1) (done ++ (letter ∷ [])) (count_last gs) rest
              (omega (arith, size, longer))
              (record {
                tiles = rw longer (Tiles-count_last 0 (length done) gs letter l r.tiles);
                spreads = spread-count_last gs letter l ∙ ap (λ t. t ++ (letter ∷ [])) r.spreads;
                apart = Apart-count_last gs r.apart;
              })
              (ap (λ t. group_letters (index + 1) t (count_last gs) rest)
                  (last_letter-count_last gs)
                ∙ rw (group_letters, same) at h))
      | inr other ↦
          let (start, counted, left) =
            >>=-eq-ok (u32_from index) _ (rw (group_letters, other) at h) in
          let at_index : start ≡ length done = (u32_from_inv index counted).0 ∙ size in
          let new = gs ++ ((letter, start, 1) ∷ []) in
          subst (λ t. IsRuns t out) shift
            (group_letters_loop (index + 1) (done ++ (letter ∷ [])) new rest
              (omega (arith, size, longer))
              (record {
                tiles = rw (longer, at_index) (Tiles-snoc 0 (length done) letter 1 gs r.tiles);
                spreads = spread-snoc gs letter start ∙ ap (λ t. t ++ (letter ∷ [])) r.spreads;
                apart =
                    Apart-snoc gs letter start 1 (is_letter-other (last_letter gs) letter other)
                      r.apart;
              })
              (ap (λ t. group_letters (index + 1) t new rest) (last_letter-snoc gs letter start 1)
                ∙ left))
    ]

-- The groups of a jump table that is built are the runs of equal letters: each group starts where
-- the one before ends, from slot 0 to the last; each slot has the letter of its group; neighbours
-- have different letters.
pub group_letters-IsRuns :
    (letters : List ℕ) {groups : List Group}
    → group_letters 0 none [] letters ≡ ok groups
    → IsRuns letters groups
group_letters-IsRuns letters h =
    group_letters_loop 0 [] [] letters refl (record { tiles = refl; spreads = refl; apart = tt }) h
