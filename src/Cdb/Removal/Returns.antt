-- ===== src/Cdb/Removal/Returns.antt =====
-- Where a removal ends.
use libopod.Base.{
  false, inl, inr, [], ◌∷◌, ℕ, suc, ◌≡◌, ap, refl, sym, ◌∙◌, not, Option, some, List, arith,
}
use libopod.Base.Lists.{length, take, any}
use libopod.Base.Tests.{Bool-cases}
use libopod.Error.{
  Result, ok, err, ◌>>=◌, ◌>>◌, ensure, and_then, then_run_returns, ok-injective, ensure-eq-ok,
}
use libopod.Bytes.{read_u32}
use libopod.Cdb.Chunk.{unverified, read_usize}
use libopod.Cdb.Chunk.Bounds.{read_usize_inv, read_usize_in}
use libopod.Cdb.Hashab.{Hashab}
use libopod.Cdb.Inspect.{CdbInfo, decode_payload, inspect_cdb}
use libopod.Cdb.Inspect.Accepted.{
  inspect_cdb_returns, inspect_cdb-IsCut, inspect_cdb-declared, inspect_cdb_small, IsCut,
}
use libopod.Cdb.Split.{split_datasets}
use libopod.Cdb.Removal.{
  is_valid, is_empty, sign_cdb, finalize_cdb, rewrite_datasets, rewrite_first, is_track_dataset,
  remove_tracks_from_cdb,
}

rewrite_first_untracked :
    (ds : List (List ℕ)) (removals : List ℕ)
    → any is_track_dataset ds ≡ false
    → rewrite_first ds removals ≡ err unverified
unfolding rewrite_first
rewrite_first_untracked [] removals h = refl
rewrite_first_untracked (d ∷ ds) removals h = elim (Bool-cases (is_track_dataset d)) [
  | inl hit ↦ ground arith
  | inr miss ↦ rw (miss, rewrite_first, rewrite_first_untracked ds removals (rw miss at h)) refl
]

rewrite_datasets_untracked :
    (removals : List ℕ) (ds : List (List ℕ))
    → any is_track_dataset ds ≡ false
    → rewrite_datasets removals ds ≡ err unverified
unfolding rewrite_datasets
rewrite_datasets_untracked removals ds h = rw (rewrite_first_untracked ds removals h) refl

module _ (inflate : ℕ → List ℕ → Option (List ℕ)) (deflate : List ℕ → Option (List ℕ))
    (hashab : Hashab) where
  finalize_cdb_ends :
      (header uncompressed guid : List ℕ)
      → (r : Result (List ℕ)) × (finalize_cdb inflate deflate hashab header uncompressed guid
          ≡ some r)
  unfolding finalize_cdb
  finalize_cdb_ends header uncompressed guid =
      then_run_returns (sign_cdb inflate deflate hashab header uncompressed guid) _ λ output _.
        let (r, ran) = inspect_cdb_returns inflate hashab output (some guid) in
        (
          r >>= (λ inspected.
              ensure (is_valid inspected.hashab_signature_status) unverified >> ok output),
          ap
              (λ t. and_then t (λ inspected.
                ensure (is_valid inspected.hashab_signature_status) unverified >> ok output))
              ran,
        )

  -- A removal from a file that an inspection accepts ends, with a file or an error: the payload's
  -- length and one more is enough fuel, whatever the removals and the device.
  pub remove_tracks_from_cdb_returns :
      (bytes : List ℕ) (inspected_for : Option (List ℕ)) (guid removals : List ℕ) {info : CdbInfo}
      → inspect_cdb inflate hashab bytes inspected_for ≡ some (ok info)
      → (payload : List ℕ) × (decode_payload inflate bytes info.header_length ≡ ok payload)
        × ((r : Result (List ℕ)) × (remove_tracks_from_cdb inflate deflate hashab
                (suc (length payload))
                bytes
                guid
                removals
              ≡ some r))
  unfolding remove_tracks_from_cdb
  remove_tracks_from_cdb_returns bytes inspected_for guid removals {info} e =
      let (field, _, _, (payload, cut)) = inspect_cdb-IsCut inflate hashab bytes inspected_for e in
      let counted = inspect_cdb-declared inflate hashab bytes inspected_for e in
      (payload, cut.decoded, ends info field counted payload cut)
    where
      ends :
          (info : CdbInfo)
          → read_u32 bytes 4 ≡ ok info.header_length
          → read_u32 bytes 0x14 ≡ ok info.declared_children
          → (payload : List ℕ) (cut : IsCut inflate hashab bytes payload info)
          → (r : Result (List ℕ)) × (remove_tracks_from_cdb inflate deflate hashab
                (suc (length payload))
                bytes
                guid
                removals
              ≡ some r)
      ends info field counted payload cut =
          then_run_returns (ensure (not (is_empty removals)) unverified >> read_usize bytes 4) _
            λ h asked.
              let read =
                (ensure-eq-ok (not (is_empty removals)) unverified (read_usize bytes 4) asked).1 in
              let same = ok-injective (sym field ∙ (read_usize_inv bytes 4 read).0) in
              then_run_returns (decode_payload inflate bytes h) _ λ p decoded.
                let whole =
                  ok-injective
                    (sym decoded ∙ ap (decode_payload inflate bytes) (sym same) ∙ cut.decoded) in
                then_run_returns (read_usize bytes 0x14) _ λ n number.
                  let few = ok-injective (sym (read_usize_inv bytes 0x14 number).0 ∙ counted) in
                  rw (whole, few, cut.split)
                    (then_run_returns (rewrite_datasets removals cut.pieces) _
                      λ uncompressed _. finalize_cdb_ends (take h bytes) uncompressed guid)

  -- A removal from a file that an inspection accepts and that has no type-1 dataset ends with a
  -- verification error, whatever the removals and the device.
  pub remove_tracks_from_cdb_untracked :
      (fuel : ℕ) (bytes payload : List ℕ) (pieces : List (List ℕ)) (inspected_for : Option (List ℕ))
      (guid removals : List ℕ) {info : CdbInfo}
      → inspect_cdb inflate hashab bytes inspected_for ≡ some (ok info)
      → decode_payload inflate bytes info.header_length ≡ ok payload
      → split_datasets fuel payload info.declared_children ≡ some (ok pieces)
      → any is_track_dataset pieces ≡ false
      → remove_tracks_from_cdb inflate deflate hashab fuel bytes guid removals
        ≡ some (err unverified)
  unfolding remove_tracks_from_cdb
  remove_tracks_from_cdb_untracked fuel bytes payload pieces inspected_for guid removals e decoded
        split none_of =
      let (field, _, _, (_, cut)) = inspect_cdb-IsCut inflate hashab bytes inspected_for e in
      let few = cut.few in
      let header =
        read_usize_in bytes 4 field (inspect_cdb_small inflate hashab bytes inspected_for e) in
      let number =
        read_usize_in bytes 0x14 (inspect_cdb-declared inflate hashab bytes inspected_for e)
          (omega (arith, few)) in
      elim (Bool-cases (is_empty removals)) [
        | inl asked ↦ rw (asked) refl
        | inr asked ↦
            rw
              (
                asked,
                header,
                decoded,
                number,
                split,
                rewrite_datasets_untracked removals pieces none_of,
              )
              refl
      ]
