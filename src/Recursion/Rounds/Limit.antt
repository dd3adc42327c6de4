-- ===== src/Recursion/Rounds/Limit.antt =====
-- How many PEs the rounds of a group spawn.
use flex_gas.Prelude.{
  Bool, Bool-cases, List, Option, [], arith, false, inl, inr, length, ltb, ltb→lt, none, refl, some,
  suc, true, zero, ℕ, ◌+◌, ◌∷◌, ◌≡◌, ◌≤◌,
}
use flex_gas.Recursion.Rounds.{after_spawn, again, spawn_on, spawn_pass, spawn_rounds, wait_all}
use flex_gas.Sched.Types.{Ptr}
use flex_gas.Sched.World.{After, After-any, After-bind, After-mono, M, Ret, World, ret_err, ret_ok}

abbrev Counted : (max spawned active room : ℕ) → ℕ × ℕ → World → Type 0
Counted max spawned active room out w =
    (out.0 ≤ max) × (spawned ≤ out.0) × (out.0 + active ≡ spawned + out.1) × (out.1 ≤ active + room)

spawn_on-After :
    {A : Type 0} (P : A → World → Type 0) (counts else_on : M A) (b : Bool) (spawn : M Ret)
    (w : World)
    → (b ≡ true → (w₁ : World) → After P (counts w₁))
    → ((w₁ : World) → After P (else_on w₁))
    → After P (spawn_on counts else_on b spawn w)
unfolding spawn_on after_spawn
spawn_on-After P counts else_on false spawn w ok_case other = other w
spawn_on-After P counts else_on true spawn w ok_case other =
    After-bind (λ _ _. Unit {0}) P (spawn w) (after_spawn counts else_on) (After-any (spawn w))
      λ r w₁ _. go r w₁
  where
    go : (r : Ret) (w₁ : World) → After P (after_spawn counts else_on r w₁)
    go ret_ok w₁ = ok_case refl w₁
    go ret_err w₁ = other w₁

-- A pass never spawns beyond the maximum, counts in both numbers alike, and spawns at most one PE
-- on a device.
pub spawn_pass_bounds :
    (spawn : Ptr → M Ret) (max : ℕ) (ds : List Ptr) (spawned active : ℕ) (w : World)
    → spawned ≤ max
    → After (Counted max spawned active (length ds)) (spawn_pass spawn max ds spawned active w)
unfolding spawn_pass
spawn_pass_bounds spawn max [] spawned active w h = omega arith
spawn_pass_bounds spawn max (d ∷ ds) spawned active w h =
    spawn_on-After (Counted max spawned active (suc (length ds))) _ _ (ltb spawned max) (spawn d) w
      (λ less w₁.
        After-mono (Counted max (spawned + 1) (active + 1) (length ds))
          (Counted max spawned active (suc (length ds)))
          (spawn_pass spawn max ds (spawned + 1) (active + 1) w₁)
          (spawn_pass_bounds spawn max ds (spawned + 1) (active + 1) w₁
            (omega (arith, ltb→lt spawned max less)))
          (λ out w₂ c. omega arith))
      (λ w₁.
        After-mono (Counted max spawned active (length ds))
          (Counted max spawned active (suc (length ds))) (spawn_pass spawn max ds spawned active w₁)
          (spawn_pass_bounds spawn max ds spawned active w₁ h) (λ out w₂ c. omega arith))

abbrev pub Exactly : ℕ → Option ℕ → World → Type 0
Exactly max none w = Unit {0}
Exactly max (some n) w = n ≡ max

again-After :
    (max n : ℕ) (next : M (Option ℕ)) (w : World)
    → n ≤ max
    → After (Exactly max) (next w)
    → After (Exactly max) (again next n (ltb n max) w)
unfolding again
again-After max n next w below p = elim (Bool-cases (ltb n max)) [
  | inl less ↦ rw (less, again) p
  | inr full ↦ rw (full, again) (ground arith)
]

-- The rounds of a group that end have spawned exactly the maximum of the computation, whichever
-- spawns fail on the way.
pub spawn_rounds_exact :
    (spawn : Ptr → M Ret) (wait : M Ret) (max rounds : ℕ) (ds : List Ptr) (spawned : ℕ) (w : World)
    → spawned ≤ max
    → After (Exactly max) (spawn_rounds spawn wait max rounds ds spawned w)
unfolding spawn_rounds
spawn_rounds_exact spawn wait max zero ds spawned w h = tt
spawn_rounds_exact spawn wait max (suc k) ds spawned w h =
    After-bind (Counted max spawned 0 (length ds)) _ (spawn_pass spawn max ds spawned 0 w) _
      (spawn_pass_bounds spawn max ds spawned 0 w h)
      λ out w₁ c.
        After-bind (λ _ _. Unit {0}) _ (wait_all wait out.1 w₁) _
          (After-any (wait_all wait out.1 w₁))
          λ _ w₂ _.
            again-After max out.0 (spawn_rounds spawn wait max k ds out.0) w₂ c.0
              (spawn_rounds_exact spawn wait max k ds out.0 w₂ c.0)
