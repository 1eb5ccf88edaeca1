-- ===== src/Cdb/Split/Progress.antt =====
-- When the loop of `split_datasets` ends. A round moves by the dataset's own length field, which
-- is not checked against the size of a header: a field of zero stops the loop from moving.
use native.Mathlib.Decide.{dec_lt}
use libopod.Base.{
  ℕ, zero, suc, ◌+◌, ◌-◌, ◌<◌, ◌≡◌, refl, ap, ◌∙◌, none, some, List, [], ◌∷◌, ◌++◌, arith, inl, inr,
}
use libopod.Base.Lists.{length, slice}
use libopod.Error.{Result, ok, err, ◌>>=◌, and_then, Result-cases}
use libopod.Bytes.{read_u32}
use libopod.Cdb.Chunk.{mhsd, require_magic, read_usize, checked_end, usize_mod}
use libopod.Cdb.Split.{split_step, split_loop, expect_count, split_datasets}
use libopod.Cdb.Split.Partition.{split_loop_done, split_loop_more, split_loop_fault}

-- The offsets that the loop comes to from one of them.
pub data Reaches (payload : List ℕ) : ℕ → ℕ → Type 0 where
  here : {offset : ℕ} → Reaches payload offset offset
  round :
      {offset next to : ℕ}
      → offset < length payload
      → split_step payload offset ≡ ok next
      → Reaches payload next to
      → Reaches payload offset to

split_loop_stuck :
    (fuel : ℕ) (payload : List ℕ) {offset stop : ℕ} (ds : List (List ℕ))
    → Reaches payload offset stop
    → stop < length payload
    → split_step payload stop ≡ ok stop
    → split_loop fuel payload offset ds ≡ none
split_loop_stuck zero payload ds r h s = unfold split_loop in refl
split_loop_stuck (suc fuel) payload ds (here {offset = o}) h s =
    split_loop_more fuel payload o ds h s ∙ split_loop_stuck fuel payload _ here h s
split_loop_stuck (suc fuel) payload ds (round {offset = o} {next = n} below st rest) h s =
    split_loop_more fuel payload o ds below st ∙ split_loop_stuck fuel payload _ rest h s

zero_length_step :
    (payload : List ℕ) (offset : ℕ)
    → offset < length payload
    → length payload < usize_mod
    → require_magic payload offset mhsd ≡ ok tt
    → read_u32 payload (offset + 8) ≡ ok 0
    → split_step payload offset ≡ ok offset
unfolding split_step read_usize checked_end
zero_length_step payload offset h k magic zero_field = ground arith

-- Where the loop comes to a dataset whose length field is zero, no fuel is enough: the source
-- pushes empty datasets for ever.
pub split_datasets-zero_length :
    (payload : List ℕ) (stop : ℕ)
    → Reaches payload 0 stop
    → stop < length payload
    → length payload < usize_mod
    → require_magic payload stop mhsd ≡ ok tt
    → read_u32 payload (stop + 8) ≡ ok 0
    → (fuel expected : ℕ) → split_datasets fuel payload expected ≡ none
unfolding split_datasets
split_datasets-zero_length payload stop r h k magic zero_field fuel expected =
    ap (λ m. and_then m (expect_count expected))
      (split_loop_stuck fuel payload [] r h (zero_length_step payload stop h k magic zero_field))

-- Every round that is reached moves on.
abbrev pub Moves : List ℕ → Type 0
Moves payload =
    (offset end : ℕ) → Reaches payload 0 offset → split_step payload offset ≡ ok end → offset < end

Reaches-snoc :
    {payload : List ℕ} {a b c : ℕ}
    → Reaches payload a b
    → b < length payload
    → split_step payload b ≡ ok c
    → Reaches payload a c
Reaches-snoc here h s = round h s here
Reaches-snoc (round h' s' r) h s = round h' s' (Reaches-snoc r h s)

split_loop_returns :
    (fuel : ℕ) (payload : List ℕ) (offset : ℕ) (ds : List (List ℕ))
    → Moves payload
    → Reaches payload 0 offset
    → length payload - offset < fuel
    → (r : Result (List (List ℕ))) × (split_loop fuel payload offset ds ≡ some r)
split_loop_returns zero payload offset ds moves at h = absurd (omega arith)
split_loop_returns (suc fuel) payload offset ds moves at h = elim (dec_lt offset (length payload)) [
  | no past ↦ (ok ds, split_loop_done fuel payload offset ds (omega arith))
  | yes more ↦ elim (Result-cases (split_step payload offset)) [
    | inr (x, s) ↦ (err x, split_loop_fault fuel payload offset ds more s)
    | inl (end, s) ↦
        let (r, ran) =
          split_loop_returns fuel payload end (ds ++ (slice payload offset end ∷ [])) moves
            (Reaches-snoc at more s) (omega (arith, moves offset end at s)) in
        (r, split_loop_more fuel payload offset ds more s ∙ ran)
  ]
]

-- Where every round that is reached moves on, one round for each byte and one more are enough:
-- `split_datasets` returns its datasets or an error.
pub split_datasets_returns :
    (payload : List ℕ) (expected fuel : ℕ)
    → Moves payload
    → length payload < fuel
    → (r : Result (List (List ℕ))) × (split_datasets fuel payload expected ≡ some r)
unfolding split_datasets
split_datasets_returns payload expected fuel moves h =
    let (r, ran) = split_loop_returns fuel payload 0 [] moves here (omega arith) in
    (r >>= expect_count expected, ap (λ m. and_then m (expect_count expected)) ran)
