-- ===== src/Cdb/Split/Partition.antt =====
-- The datasets are the payload, cut into consecutive pieces.
use libopod.Base.{
  ℕ, zero, suc, ◌≤◌, ◌<◌, ◌≡◌, sym, ap, ◌∙◌, some, List, [], ◌∷◌, ◌++◌, flatten, append-nil,
  append_assoc, arith, inl, inr,
}
use libopod.Base.Lists.{length, slice, drop, drop_all, slice-append-drop}
use native.Mathlib.Decide.{dec_lt}
use libopod.Error.{Error, ok, err, Result-cases, and_then-eq-ok}
use libopod.Cdb.Chunk.{checked_end}
use libopod.Cdb.Split.{split_step, split_loop, split_datasets}

pub split_step_bounds :
    (payload : List ℕ) (offset : ℕ) {end : ℕ}
    → split_step payload offset ≡ ok end
    → (offset ≤ end) × (end ≤ length payload)
unfolding split_step checked_end
split_step_bounds payload offset h = ground arith

pub flatten-snoc : (ds : List (List ℕ)) (d : List ℕ) → flatten (ds ++ (d ∷ [])) ≡ flatten ds ++ d
unfolding flatten
flatten-snoc [] d = append-nil d
flatten-snoc (e ∷ ds) d = ap (λ t. e ++ t) (flatten-snoc ds d) ∙ sym (append_assoc e (flatten ds) d)

-- The three ways a round goes.
module _ (fuel : ℕ) (payload : List ℕ) (offset : ℕ) (ds : List (List ℕ)) where
  pub split_loop_done :
      length payload ≤ offset → split_loop (suc fuel) payload offset ds ≡ some (ok ds)
  unfolding split_loop
  split_loop_done h = ground arith

  pub split_loop_more :
      {end : ℕ}
      → offset < length payload
      → split_step payload offset ≡ ok end
      → split_loop (suc fuel) payload offset ds
        ≡ split_loop fuel payload end (ds ++ (slice payload offset end ∷ []))
  unfolding split_loop
  split_loop_more h s = ground arith

  pub split_loop_fault :
      {x : Error}
      → offset < length payload
      → split_step payload offset ≡ err x
      → split_loop (suc fuel) payload offset ds ≡ some (err x)
  unfolding split_loop
  split_loop_fault h s = ground arith

-- What the loop returns is what it had, followed by the rest of the payload.
pub split_loop-flatten :
    (fuel : ℕ) (payload : List ℕ) (offset : ℕ) (ds : List (List ℕ)) {out : List (List ℕ)}
    → offset ≤ length payload
    → split_loop fuel payload offset ds ≡ some (ok out)
    → flatten out ≡ flatten ds ++ drop offset payload
split_loop-flatten zero payload offset ds h e = unfold split_loop in cc
split_loop-flatten (suc fuel) payload offset ds {out} h e = elim (dec_lt offset (length payload)) [
  | no past ↦
      let same : out ≡ ds = cc (split_loop_done fuel payload offset ds (omega arith)) in
      ap flatten same
      ∙ sym (append-nil (flatten ds))
      ∙ ap (λ t. flatten ds ++ t) (sym (drop_all offset payload (omega arith)))
  | yes more ↦ elim (Result-cases (split_step payload offset)) [
    | inr (x, s) ↦ absurd (cc (split_loop_fault fuel payload offset ds more s))
    | inl (end, s) ↦
        let bounds = split_step_bounds payload offset s in
        split_loop-flatten fuel payload end (ds ++ (slice payload offset end ∷ [])) bounds.1
          (sym (split_loop_more fuel payload offset ds more s) ∙ e)
        ∙ ap (λ t. t ++ drop end payload) (flatten-snoc ds (slice payload offset end))
        ∙ append_assoc (flatten ds) (slice payload offset end) (drop end payload)
        ∙ ap (λ t. flatten ds ++ t) (slice-append-drop offset end payload bounds.0)
  ]
]

-- `split_datasets` that returns has cut the payload into `expected` consecutive datasets: put
-- together again they are the payload, byte for byte.
pub split_datasets-flatten :
    (fuel : ℕ) (payload : List ℕ) (expected : ℕ) {ds : List (List ℕ)}
    → split_datasets fuel payload expected ≡ some (ok ds)
    → (flatten ds ≡ payload) × (length ds ≡ expected)
unfolding split_datasets flatten
split_datasets-flatten fuel payload expected {ds} e =
    let (out, ran, counted) = and_then-eq-ok (split_loop fuel payload 0 []) _ e in
    let same : (out ≡ ds) × (length ds ≡ expected) = ground (arith, counted) in
    (ap flatten (sym same.0) ∙ split_loop-flatten fuel payload 0 [] (omega arith) ran, same.1)
