-- ===== src/Sched/Events/Wait.antt =====
-- Waiting for the other threads.
use flex_gas.Container.Map.{bytes_key, find, nat_key}
use flex_gas.Prelude.{[], arith, none, some, suc, zero, ℕ, ◌<◌, ◌≡◌}
use flex_gas.Sched.Events.{poll_ack}
use flex_gas.Sched.Pes.{await_pe}
use flex_gas.Sched.Types.{Group}
use flex_gas.Sched.World.{World, done, ret_ok}

-- The state when the others have run so often.
abbrev pub after_others : (World → World) → ℕ → World → World
after_others others zero w = w
after_others others (suc n) w = after_others others n (others w)

-- A busy wait ends, with the state that it then sees, at the first look that finds the event
-- acknowledged, whenever within its rounds that is.
pub poll_ack_ends :
    (others : World → World) (ack v n rounds : ℕ) (w : World)
    → n < rounds
    → ((i : ℕ) → i < n → (after_others others (suc i) w).acks ack ≡ some 0)
    → (after_others others (suc n) w).acks ack ≡ some (suc v)
    → poll_ack others rounds ack w ≡ done ret_ok (after_others others (suc n) w)
unfolding poll_ack
poll_ack_ends others ack v n zero w fuel idle set = absurd (omega arith)
poll_ack_ends others ack v zero (suc k) w fuel idle set = ground arith
poll_ack_ends others ack v (suc n) (suc k) w fuel idle set = ground (
  arith,
  idle 0 (omega arith),
  poll_ack_ends others ack v n k (others w) (omega arith) (λ i lt. idle (suc i) (omega arith)) set,
)

-- A wait for a PE ends, with the state that it then sees, at the first look that finds the PE in
-- the table of the group, whenever within its rounds that is.
pub await_pe_ends :
    (others : World → World) (group i n rounds p : ℕ) (g : ℕ → Group) (w : World)
    → n < rounds
    → ((k : ℕ) → (after_others others (suc k) w).groups group ≡ some (g k))
    → ((k : ℕ) → (after_others others (suc k) w).held ≡ [])
    → ((k : ℕ) → k < n → find i (g k).pe_tab ≡ none)
    → find i (g n).pe_tab ≡ some p
    → await_pe others rounds group i w ≡ done tt (after_others others (suc n) w)
unfolding await_pe
await_pe_ends others group i n zero p g w fuel live free missing there = absurd (omega arith)
await_pe_ends others group i zero (suc r) p g w fuel live free missing there =
    ground (arith, live 0, free 0)
await_pe_ends others group i (suc n) (suc r) p g w fuel live free missing there = ground (
  arith,
  live 0,
  free 0,
  missing 0 (omega arith),
  await_pe_ends others group i n r p (λ k. g (suc k)) (others w) (omega arith) (λ k. live (suc k))
      (λ k. free (suc k)) (λ k lt. missing (suc k) (omega arith)) there,
)
