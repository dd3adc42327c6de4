-- ===== src/Recursion/Rounds.antt =====
-- The rounds of `group_sched_routine` in src/vivm/schedlib/sl_recursion/rec_sched.cpp. `spawn` is
-- the call of schedSpawnPes for one PE on a device, `wait` the call of schedWaitEvent; their
-- effects are those of a run from the state at hand.
pub mod Ends
pub mod Group
pub mod Limit
use flex_gas.Prelude.{Bool, List, Option, [], false, ltb, none, some, suc, true, zero, ℕ, ◌+◌, ◌∷◌}
use flex_gas.Sched.Types.{Ptr}
use flex_gas.Sched.World.{M, Ret, pure, ret_err, ret_ok, ◌>>=◌, ◌>>◌}

-- One device of a pass: with the maximum reached nothing is spawned, and a spawn counts where it
-- returns 0.
module _ {A : Type 0} (counts : M A) (else_on : M A) where
  unfoldable pub after_spawn : Ret → M A
  after_spawn ret_ok = counts
  after_spawn ret_err = else_on

  unfoldable pub spawn_on : Bool → M Ret → M A
  spawn_on true spawn = spawn >>= after_spawn
  spawn_on false spawn = else_on

-- One pass over the granted devices: the numbers of PEs spawned in all and in this pass.
unfoldable pub spawn_pass : (Ptr → M Ret) → ℕ → List Ptr → ℕ → ℕ → M (ℕ × ℕ)
spawn_pass spawn max [] spawned active = pure (spawned, active)
spawn_pass spawn max (d ∷ ds) spawned active =
    let counts : M (ℕ × ℕ) = spawn_pass spawn max ds (spawned + 1) (active + 1) in
    let else_on : M (ℕ × ℕ) = spawn_pass spawn max ds spawned active in
    spawn_on counts else_on (ltb spawned max) (spawn d)

unfoldable pub wait_all : M Ret → ℕ → M (Unit {0})
wait_all wait zero = pure tt
wait_all wait (suc k) = do _ ← wait; wait_all wait k

-- The test at the end of the do-while loop.
unfoldable pub again : M (Option ℕ) → ℕ → Bool → M (Option ℕ)
again next spawned true = next
again next spawned false = pure (some spawned)

-- The do-while loop, `rounds` passes at most: `none` when they are used up.
unfoldable pub spawn_rounds : (Ptr → M Ret) → M Ret → ℕ → ℕ → List Ptr → ℕ → M (Option ℕ)
spawn_rounds spawn wait max zero ds spawned = pure none
spawn_rounds spawn wait max (suc k) ds spawned = spawn_pass spawn max ds spawned 0 >>= λ out.
    wait_all wait out.1 >>= λ _.
    let next : M (Option ℕ) = spawn_rounds spawn wait max k ds out.0 in
    again next out.0 (ltb out.0 max)
