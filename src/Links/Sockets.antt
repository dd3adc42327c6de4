-- ===== src/Links/Sockets.antt =====
-- A connected socket, and what its calls move.
use flex_gas.Links.Memory.{min}
use flex_gas.Prelude.{List, Option, [], if◌then◌else◌, none, some, suc, zero, ℕ, ◌==◌, ◌∷◌, ◌≡◌}

abbrev pub update : {A : Type 0} → (ℕ → A) → ℕ → A → ℕ → A
update f k v i = if i == k then v else f i

-- A socket: what the next calls of send and recv give (`none` for -1, else the count that the
-- kernel is ready to move), the bytes it took to send, and those that have arrived.
pub record Socket : Type 0 where
  pub sends : List (Option ℕ)
  pub recvs : List (Option ℕ)
  pub out : List ℕ
  pub inb : List ℕ

-- What a call moves of n bytes: nothing where it fails, else at most what the kernel is ready for.
abbrev pub granted : Option ℕ → ℕ → ℕ
granted none n = 0
granted (some k) n = min k n

abbrev pub next_result {ℓ} : {A : Type ℓ} → List (Option A) → Option A
next_result [] = none
next_result (r ∷ rs) = r

abbrev pub remaining {ℓ} : {A : Type ℓ} → List A → List A
remaining [] = []
remaining (r ∷ rs) = rs

-- The next calls of a socket move something, so many of them.
abbrev pub Ready : ℕ → List (Option ℕ) → Type 0
Ready zero os = Unit {0}
Ready (suc n) os = ((k : ℕ) × (next_result os ≡ some (suc k))) × Ready n (remaining os)
