-- ===== src/Cdb/Index/Jump.antt =====
-- What `rewrite_mhod53` makes of the letter groups of a jump table.
mod Entries
pub mod Tiling
pub mod Rewrite
use libopod.Base.{ℕ, zero, suc, ◌+◌, ◌≡◌, List, [], ◌∷◌}
use libopod.Base.Tests.{◌==◌, if◌then◌else◌}
use libopod.Base.Lists.{length, slice}
use libopod.Bytes.{from_le_bytes}
use libopod.Cdb.Index.{renumber, regroup}

-- An entry as it is stored: its letter field, its first slot, its number of slots.
abbrev pub Group : Type 0
Group = ℕ × ℕ × ℕ

abbrev pub group_at : List ℕ → ℕ → Group
group_at bytes offset = (
  from_le_bytes (slice bytes offset (offset + 4)),
  from_le_bytes (slice bytes (offset + 4) (offset + 8)),
  from_le_bytes (slice bytes (offset + 8) (offset + 12)),
)

-- the `n` entries that stand from `offset` on
abbrev pub groups : ℕ → List ℕ → ℕ → List Group
groups zero bytes offset = []
groups (suc n) bytes offset = group_at bytes offset ∷ groups n bytes (offset + 12)

-- the groups without the removed slots, those that become empty dropped
abbrev pub regrouped : List ℕ → List Group → List Group
regrouped slots [] = []
regrouped slots ((letter, start, count) ∷ gs) =
    if regroup slots start count == 0
    then regrouped slots gs
    else (letter, renumber slots start, regroup slots start count) ∷ regrouped slots gs

-- The groups cover the slots from `a` up to `b`, one after the other.
abbrev pub Tiles : ℕ → List Group → ℕ → Type 0
Tiles a [] b = a ≡ b
Tiles a ((letter, start, count) ∷ gs) b = (start ≡ a) × Tiles (a + count) gs b
