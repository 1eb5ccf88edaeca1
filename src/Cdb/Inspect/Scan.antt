-- ===== src/Cdb/Inspect/Scan.antt =====
-- The scan of the payload ends, and agrees with `split_datasets`.
use native.Mathlib.Decide.{dec_lt}
use libopod.Base.{
  ℕ, zero, suc, ◌+◌, ◌-◌, ◌≤◌, ◌<◌, ◌≡◌, refl, sym, ap, ◌∙◌, some, List, [], ◌∷◌, ◌++◌, map, arith,
  inl, inr,
}
use mathlib.Core.List.{map-append}
use libopod.Base.Lists.{length, slice, length-slice}
use libopod.Error.{Result, ok, err, Error, ◌>>=◌, and_then, and_then-eq-ok, Result-cases}
use libopod.Cdb.Chunk.{require_magic, read_usize, checked_end}
use libopod.Cdb.Split.{split_step, split_loop, split_datasets, expect_count}
use libopod.Cdb.Split.Partition.{split_loop_done, split_loop_more}
use libopod.Cdb.Inspect.{CdbDatasetInfo, scan_step, scan_loop, declared_count, scan_datasets}

pub scan_step_bounds :
    (payload : List ℕ) (declared offset found : ℕ) {t : CdbDatasetInfo × ℕ}
    → scan_step payload declared offset found ≡ ok t
    → (t.1 ≡ offset + t.0.total_length)
      × (16 ≤ t.0.header_length)
      × (t.0.header_length ≤ t.0.total_length)
      × (t.1 ≤ length payload)
      × (found < declared)
unfolding scan_step
scan_step_bounds payload declared offset found h = ground arith

-- A round of the scan that passes is a round of `split_datasets` that passes.
pub scan_step-split_step :
    (payload : List ℕ) (declared offset found : ℕ) {t : CdbDatasetInfo × ℕ}
    → scan_step payload declared offset found ≡ ok t
    → split_step payload offset ≡ ok t.1
unfolding scan_step split_step require_magic read_usize checked_end
scan_step-split_step payload declared offset found h = ground arith

module _ (fuel : ℕ) (payload : List ℕ) (declared offset : ℕ) (ds : List CdbDatasetInfo) where
  pub scan_loop_done :
      length payload ≤ offset → scan_loop (suc fuel) payload declared offset ds ≡ some (ok ds)
  unfolding scan_loop
  scan_loop_done h = ground arith

  pub scan_loop_more :
      {t : CdbDatasetInfo × ℕ}
      → offset < length payload
      → scan_step payload declared offset (length ds) ≡ ok t
      → scan_loop (suc fuel) payload declared offset ds
        ≡ scan_loop fuel payload declared t.1 (ds ++ (t.0 ∷ []))
  unfolding scan_loop
  scan_loop_more h s = ground arith

  pub scan_loop_fault :
      {x : Error}
      → offset < length payload
      → scan_step payload declared offset (length ds) ≡ err x
      → scan_loop (suc fuel) payload declared offset ds ≡ some (err x)
  unfolding scan_loop
  scan_loop_fault h s = ground arith

scan_loop_returns :
    (fuel : ℕ) (payload : List ℕ) (declared offset : ℕ) (ds : List CdbDatasetInfo)
    → length payload - offset < fuel
    → (r : Result (List CdbDatasetInfo)) × (scan_loop fuel payload declared offset ds ≡ some r)
scan_loop_returns zero payload declared offset ds h = absurd (omega arith)
scan_loop_returns (suc fuel) payload declared offset ds h = elim (dec_lt offset (length payload)) [
  | no past ↦ (ok ds, scan_loop_done fuel payload declared offset ds (omega arith))
  | yes more ↦ elim (Result-cases (scan_step payload declared offset (length ds))) [
    | inr (x, s) ↦ (err x, scan_loop_fault fuel payload declared offset ds more s)
    | inl (t, s) ↦
        let (r, ran) =
          scan_loop_returns fuel payload declared t.1 (ds ++ (t.0 ∷ []))
            (omega (arith, scan_step_bounds payload declared offset (length ds) s)) in
        (r, scan_loop_more fuel payload declared offset ds more s ∙ ran)
  ]
]

-- Whatever the payload, the scan ends, with its datasets or with an error: the fuel of one round for
-- each byte and one more is never used up.
pub scan_datasets_returns :
    (payload : List ℕ) (declared : ℕ)
    → (r : Result (List CdbDatasetInfo)) × (scan_datasets payload declared ≡ some r)
unfolding scan_datasets
scan_datasets_returns payload declared =
    let (r, ran) = scan_loop_returns (suc (length payload)) payload declared 0 [] (omega arith) in
    (r >>= declared_count declared, ap (λ m. and_then m (declared_count declared)) ran)

abbrev pub total_lengths : List CdbDatasetInfo → List ℕ
total_lengths = map (λ d. d.total_length)

-- The two loops go in step, from datasets of the same lengths.
scan_loop-split_loop :
    (fuel : ℕ) (payload : List ℕ) (declared offset : ℕ) (ds : List CdbDatasetInfo)
    (cut : List (List ℕ)) {out : List CdbDatasetInfo}
    → map length cut ≡ total_lengths ds
    → scan_loop fuel payload declared offset ds ≡ some (ok out)
    → (pieces : List (List ℕ)) × (split_loop fuel payload offset cut ≡ some (ok pieces))
      × (map length pieces ≡ total_lengths out)
scan_loop-split_loop zero payload declared offset ds cut same e = unfold scan_loop in cc
scan_loop-split_loop (suc fuel) payload declared offset ds cut {out} same e =
    elim (dec_lt offset (length payload)) [
      | no past ↦
          let kept : ds ≡ out = cc (scan_loop_done fuel payload declared offset ds (omega arith)) in
          (cut, split_loop_done fuel payload offset cut (omega arith), same ∙ ap total_lengths kept)
      | yes more ↦ elim (Result-cases (scan_step payload declared offset (length ds))) [
        | inr (x, s) ↦ absurd (cc (scan_loop_fault fuel payload declared offset ds more s))
        | inl (t, s) ↦
            let bounds = scan_step_bounds payload declared offset (length ds) s in
            let piece = slice payload offset t.1 in
            let measured : length piece ≡ t.0.total_length =
              omega (arith, length-slice payload offset t.1, bounds) in
            let (pieces, ran, lengths) =
              scan_loop-split_loop fuel payload declared t.1 (ds ++ (t.0 ∷ []))
                (cut ++ (piece ∷ [])) (simp (map-append, same, measured))
                (sym (scan_loop_more fuel payload declared offset ds more s) ∙ e) in
            (
              pieces,
              split_loop_more fuel payload offset cut more
                    (scan_step-split_step payload declared offset (length ds) s)
                  ∙ ran,
              lengths,
            )
      ]
    ]

length-map {ℓ κ} :
    {A : Type ℓ} {B : Type κ} (f : A → B) (xs : List A) → length (map f xs) ≡ length xs
length-map f [] = refl
length-map f (x ∷ xs) = ap suc (length-map f xs)

-- A payload that `inspect_cdb` scans without an error is cut by `split_datasets` too, with the
-- fuel of the scan, into datasets of the lengths that the scan reported.
pub scan_datasets-split_datasets :
    (payload : List ℕ) (declared : ℕ) {infos : List CdbDatasetInfo}
    → scan_datasets payload declared ≡ some (ok infos)
    → (pieces : List (List ℕ)) × (split_datasets (suc (length payload)) payload declared
        ≡ some (ok pieces))
      × (map length pieces ≡ total_lengths infos)
unfolding scan_datasets split_datasets
scan_datasets-split_datasets payload declared {infos} e =
    let (out, ran, checked) =
      and_then-eq-ok (scan_loop (suc (length payload)) payload declared 0 []) _ e in
    let counted : (out ≡ infos) × (length out ≡ declared) = ground (arith, checked) in
    let (pieces, cut, lengths) =
      scan_loop-split_loop (suc (length payload)) payload declared 0 [] [] refl ran in
    let number : length pieces ≡ declared =
      sym (length-map length pieces) ∙ ap length lengths ∙ length-map _ out ∙ counted.1 in
    let passed : expect_count declared pieces ≡ ok pieces = ground (arith, number) in
    (
      pieces,
      ap (λ m. and_then m (expect_count declared)) cut ∙ ap some passed,
      lengths ∙ ap total_lengths counted.0,
    )
