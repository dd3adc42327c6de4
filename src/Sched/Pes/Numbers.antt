-- ===== src/Sched/Pes/Numbers.antt =====
-- The identifiers that `get_new_peids` hands out.
use flex_gas.Prelude.{[], arith, refl, some, ℕ, ◌%◌, ◌+◌, ◌-◌, ◌<◌, ◌≡◌}
use flex_gas.Sched.Jobs.{u32}
use flex_gas.Sched.Pes.{get_new_peids}
use flex_gas.Sched.Types.{Group}
use flex_gas.Sched.World.{M, World, done, pure, update, ◌>>=◌}

unfoldable pub two_ranges : (group n m : ℕ) → M ((ℕ × ℕ) × (ℕ × ℕ))
two_ranges group n m = get_new_peids group n >>= λ a. get_new_peids group m >>= λ b. pure (a, b)

-- Two ranges that a group hands out one after the other, without a wrap of the counter, are the
-- two halves of one interval: they have no identifier in common and leave none out.
pub two_ranges_adjacent :
    (group n m : ℕ) (g : Group) (w : World)
    → w.groups group ≡ some g
    → w.held ≡ []
    → 0 < n
    → 0 < m
    → g.peid_cnt + n + m < u32
    → (a b : ℕ × ℕ) × (w' : World) × (two_ranges group n m w ≡ done (a, b) w')
      × (a.0 ≡ g.peid_cnt)
      × (a.1 < b.0)
      × (a.1 + 1 ≡ b.0)
      × (b.1 + 1 ≡ g.peid_cnt + n + m)
unfolding two_ranges get_new_peids
two_ranges_adjacent group n m g w hg free pn pm room = (
  (g.peid_cnt, ((g.peid_cnt + n) % u32 + u32 - 1) % u32),
  ((g.peid_cnt + n) % u32, (((g.peid_cnt + n) % u32 + m) % u32 + u32 - 1) % u32),
  record w {
    groups =
        update (update w.groups group (some (record g { peid_cnt = (g.peid_cnt + n) % u32 }))) group
          (some (record g { peid_cnt = ((g.peid_cnt + n) % u32 + m) % u32 }));
  },
  ground arith,
  refl,
  omega arith,
  omega arith,
  omega arith,
)
