-- ===== src/Recursion/Rounds/Ends.antt =====
-- The rounds of a group where spawning works.
use flex_gas.Prelude.{
  Bool-cases, List, [], arith, inl, inr, ltb, ltb→lt, refl, some, suc, zero, ℕ, ◌+◌, ◌<◌, ◌∷◌, ◌≡◌,
  ◌≤◌, ◌⊎◌,
}
use flex_gas.Recursion.Rounds.{after_spawn, again, spawn_on, spawn_pass, spawn_rounds, wait_all}
use flex_gas.Sched.Types.{Ptr}
use flex_gas.Sched.World.{M, Ret, World, done, ret_ok}

module _ (spawn : Ptr → M Ret) (wait : M Ret)
    (spawns : (d : Ptr) (w : World) → (w' : World) × (spawn d w ≡ done ret_ok w'))
    (waits : (w : World) → (r : Ret) × (w' : World) × (wait w ≡ done r w')) where
  wait_all_ends : (k : ℕ) (w : World) → (w' : World) × (wait_all wait k w ≡ done tt w')
  unfolding wait_all
  wait_all_ends zero w = (w, refl)
  wait_all_ends (suc k) w =
      let (r, w₁, e) = waits w in let (w₂, e₂) = wait_all_ends k w₁ in (w₂, rw e e₂)

  spawn_pass_ends :
      (max : ℕ) (ds : List Ptr) (spawned active : ℕ) (w : World)
      → spawned ≤ max
      → (n a : ℕ) × (w' : World) × (spawn_pass spawn max ds spawned active w ≡ done (n, a) w')
        × (n ≤ max)
        × (spawned ≤ n)
  unfolding spawn_pass spawn_on after_spawn
  spawn_pass_ends max [] spawned active w h = (spawned, active, w, refl, h, omega arith)
  spawn_pass_ends max (d ∷ ds) spawned active w h = elim (Bool-cases (ltb spawned max)) [
    | inl less ↦
        let (w₁, e) = spawns d w in
        let (n, a, w₂, e₂, top, low) =
          spawn_pass_ends max ds (spawned + 1) (active + 1) w₁
            (omega (arith, ltb→lt spawned max less)) in
        (n, a, w₂, rw (less, e) e₂, top, omega arith)
    | inr full ↦
        let (n, a, w₂, e₂, top, low) = spawn_pass_ends max ds spawned active w h in
        (n, a, w₂, rw full e₂, top, low)
  ]

  -- A pass over at least one device spawns a PE while the maximum is not reached.
  spawn_pass_advances :
      (max : ℕ) (d : Ptr) (ds : List Ptr) (spawned : ℕ) (w : World)
      → spawned ≤ max
      → (n a : ℕ) × (w' : World) × (spawn_pass spawn max (d ∷ ds) spawned 0 w ≡ done (n, a) w')
        × (n ≤ max)
        × ((n ≡ max) ⊎ (spawned < n))
  unfolding spawn_pass spawn_on after_spawn
  spawn_pass_advances max d ds spawned w h = elim (Bool-cases (ltb spawned max)) [
    | inl less ↦
        let (w₁, e) = spawns d w in
        let (n, a, w₂, e₂, top, low) =
          spawn_pass_ends max ds (spawned + 1) 1 w₁ (omega (arith, ltb→lt spawned max less)) in
        (n, a, w₂, rw (less, e) e₂, top, omega arith)
    | inr full ↦
        let (n, a, w₂, e₂, top, low) = spawn_pass_ends max ds spawned 0 w h in
        (n, a, w₂, rw full e₂, top, inl (ground arith))
  ]

  -- Where every schedSpawnPes returns 0 and every wait returns, a group with at least one device
  -- ends its rounds with the maximum spawned, after no more passes than PEs are missing and one.
  pub spawn_rounds_ends :
      (max rounds : ℕ) (d : Ptr) (ds : List Ptr) (spawned : ℕ) (w : World)
      → spawned ≤ max
      → max < spawned + rounds
      → (w' : World) × (spawn_rounds spawn wait max rounds (d ∷ ds) spawned w ≡ done (some max) w')
  unfolding spawn_rounds again
  spawn_rounds_ends max zero d ds spawned w h fuel = absurd (omega arith)
  spawn_rounds_ends max (suc k) d ds spawned w h fuel =
      let (n, a, w₁, e, top, more) = spawn_pass_advances max d ds spawned w h in
      let (w₂, e₂) = wait_all_ends a w₁ in
      elim (Bool-cases (ltb n max)) [
        | inl less ↦
            let (w₃, e₃) =
              spawn_rounds_ends max k d ds n w₂ top (omega (arith, ltb→lt n max less)) in
            (w₃, rw (e, e₂, less) e₃)
        | inr full ↦ (w₂, rw (e, e₂, full) (ground arith))
      ]
