-- ===== src/Cdb/Index/Jump/Tiling.antt =====
-- The jump table stays a partition of the index when slots are removed.
use libopod.Base.{ℕ, ◌+◌, ◌-◌, ◌≤◌, ◌<◌, ◌≡◌, ap, List, [], ◌∷◌, inl, inr, arith}
use libopod.Base.Tests.{Bool-cases, ◌==◌, ==_iff}
use libopod.Cdb.Index.{before, regroup, u32_mod}
use libopod.Cdb.Index.Renumber.{
  Once, before-le, before-le-add, inside-add-before, renumber-eq, regroup-eq,
}
use libopod.Cdb.Index.Jump.{Group, regrouped, Tiles}

Tiles-le : (a b : ℕ) (gs : List Group) → Tiles a gs b → a ≤ b
Tiles-le a b [] h = omega arith
Tiles-le a b ((letter, start, count) ∷ gs) h = omega (arith, Tiles-le (a + count) b gs h.1)

-- the new count of a group, and what it leaves of the way to the next group
regroup-tile :
    (slots : List ℕ) (a count : ℕ)
    → Once slots
    → a + count < u32_mod
    → (a - before slots a) + regroup slots a count ≡ (a + count) - before slots (a + count)
regroup-tile slots a count once h =
    let swap : count + a ≡ a + count = omega arith in
    omega (
      arith,
      regroup-eq slots a count h,
      inside-add-before slots a (a + count) (omega arith),
      before-le slots a once,
      rw swap at (before-le-add slots a count once),
    )

-- Where the groups cover the slots of an index without a gap, the regrouped ones cover the
-- slots of the index that is left, without a gap either: a letter still points at its tracks.
pub regrouped-Tiles :
    (slots : List ℕ) (gs : List Group) (a b : ℕ)
    → Once slots
    → b < u32_mod
    → Tiles a gs b
    → Tiles (a - before slots a) (regrouped slots gs) (b - before slots b)
regrouped-Tiles slots [] a b once h t = ap (λ (v : ℕ). v - before slots v) t
regrouped-Tiles slots ((letter, start, count) ∷ gs) a b once h t =
    let fits : a + count < u32_mod = omega (arith, Tiles-le (a + count) b gs t.1) in
    let step = regroup-tile slots a count once fits in
    let rest = regrouped-Tiles slots gs (a + count) b once h t.1 in
    rw t.0 (elim (Bool-cases (regroup slots a count == 0)) [
      | inl gone ↦
          let none_left = (==_iff (regroup slots a count) 0).0 gone in
          let same : (a + count) - before slots (a + count) ≡ a - before slots a =
            omega (arith, step, none_left) in
          rw gone (rw same at rest)
      | inr kept ↦ rw kept (renumber-eq slots a (omega arith), rw step rest)
    ])
