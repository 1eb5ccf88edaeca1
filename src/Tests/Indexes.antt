-- ===== src/Tests/Indexes.antt =====
-- The rewriting of a sorted index and of a jump table, on small ones.
use libopod.Base.{ℕ, ◌≤◌, ◌≡◌, refl, [], ◌∷◌, arith}
use libopod.Base.Tests.{◌==◌}
use libopod.Base.Lists.{count_if}
use libopod.Error.{ok}
use libopod.Bytes.{IsBytes, get_range, read_u32, write_u32, to_le_bytes, from_le_bytes}
use libopod.Cdb.Chunk.{mhod, chunk_header, require_magic, read_usize, checked_end}
use libopod.Cdb.Index.{
  rewrite_mhod52, rewrite_mhod53, entries52, entries53, finish_mhod, u32_from, saturating_mul,
  renumber, regroup, entry53,
}
use libopod.Cdb.Index.Sorted.{IsRenumbered, rewrite_mhod52-IsRenumbered}
use libopod.Cdb.Index.Jump.{Tiles, groups}
use libopod.Cdb.Index.Jump.Rewrite.{IsRegrouped, rewrite_mhod53-IsRegrouped, rewrite_mhod53-Tiles}
use libopod.Tests.Data.{sorted_before, sorted_after, jump_before, jump_after}

rewrites_sorted : rewrite_mhod52 sorted_before (1 ∷ []) ≡ ok (sorted_after, 2 ∷ [])
unfolding rewrite_mhod52 chunk_header require_magic read_usize checked_end read_u32 get_range
    from_le_bytes entries52 finish_mhod u32_from saturating_mul renumber to_le_bytes write_u32
rewrites_sorted = refl

sorted_before-IsBytes : IsBytes sorted_before
sorted_before-IsBytes = omega arith

rewrite_mhod52-IsRenumbered_example : IsRenumbered sorted_before (1 ∷ []) sorted_after (2 ∷ [])
rewrite_mhod52-IsRenumbered_example =
    rewrite_mhod52-IsRenumbered sorted_before (1 ∷ []) sorted_before-IsBytes rewrites_sorted

rewrites_jump : rewrite_mhod53 jump_before (0 ∷ []) ≡ ok jump_after
unfolding rewrite_mhod53 chunk_header require_magic read_usize checked_end read_u32 get_range
    from_le_bytes entries53 entry53 finish_mhod u32_from saturating_mul renumber regroup to_le_bytes
    write_u32
rewrites_jump = refl

jump_before-IsBytes : IsBytes jump_before
jump_before-IsBytes = omega arith

rewrite_mhod53-IsRegrouped_example : IsRegrouped jump_before (0 ∷ []) jump_after
rewrite_mhod53-IsRegrouped_example =
    rewrite_mhod53-IsRegrouped jump_before (0 ∷ []) jump_before-IsBytes rewrites_jump

-- `Once` of one slot
once_zero : (v : ℕ) → count_if (λ p. p == v) (0 ∷ []) ≤ 1
once_zero v = ground arith

jump_header : chunk_header jump_before 0 mhod ≡ ok (record { header_length = 12; end = 52 })
unfolding chunk_header require_magic read_usize checked_end read_u32 get_range from_le_bytes
jump_header = refl

jump_count : read_u32 jump_before 16 ≡ ok 2
unfolding read_u32 get_range from_le_bytes
jump_count = refl

jump_Tiles : Tiles 0 (groups 2 jump_before 28) 3
unfolding from_le_bytes
jump_Tiles = (refl, (refl, refl))

rewrite_mhod53-Tiles_example :
    (new_count : ℕ) × (read_u32 jump_after 16 ≡ ok new_count)
    × Tiles 0 (groups new_count jump_after 28) 2
rewrite_mhod53-Tiles_example =
    rewrite_mhod53-Tiles jump_before (0 ∷ []) (record { header_length = 12; end = 52 }) 2 3
      jump_before-IsBytes rewrites_jump once_zero (omega arith) jump_header jump_count jump_Tiles
