-- ===== src/Sched/World/Post.antt =====
-- Postconditions of runs that end.
use flex_gas.Prelude.{◌≡◌}
use flex_gas.Sched.World.Monad.{Run, M, done, fault, blocked, and_then}
use flex_gas.Sched.World.State.{World}

-- What holds of the value and the state if the run ends with them.
abbrev pub After : {A : Type 0} → (A → World → Type 0) → Run A → Type 0
After P (done a w) = P a w
After P fault = Unit {0}
After P blocked = Unit {0}

pub After-any : {A : Type 0} (r : Run A) → After (λ _ _. Unit {0}) r
After-any (done a w) = tt
After-any fault = tt
After-any blocked = tt

pub After-bind :
    {A B : Type 0} (P : A → World → Type 0) (Q : B → World → Type 0) (r : Run A) (k : A → M B)
    → After P r
    → ((a : A) (w : World) → P a w → After Q (k a w))
    → After Q (and_then r k)
After-bind P Q (done a w) k p next = next a w p
After-bind P Q fault k p next = tt
After-bind P Q blocked k p next = tt

pub After-done :
    {A : Type 0} (P : A → World → Type 0) (r : Run A) {a : A} {w : World}
    → After P r
    → r ≡ done a w
    → P a w
After-done P r p e = rw e at p

pub After-mono :
    {A : Type 0} (P Q : A → World → Type 0) (r : Run A)
    → After P r
    → ((a : A) (w : World) → P a w → Q a w)
    → After Q r
After-mono P Q (done a w) p weaken = weaken a w p
After-mono P Q fault p weaken = tt
After-mono P Q blocked p weaken = tt

-- The run ends, and this holds of its value and state.
abbrev pub Returns : {A : Type 0} → (A → World → Type 0) → Run A → Type 0
Returns P (done a w) = P a w
Returns P fault = ⊥
Returns P blocked = ⊥

pub Returns-bind :
    {A B : Type 0} (P : A → World → Type 0) (Q : B → World → Type 0) (r : Run A) (k : A → M B)
    → Returns P r
    → ((a : A) (w : World) → P a w → Returns Q (k a w))
    → Returns Q (and_then r k)
Returns-bind P Q (done a w) k p next = next a w p
Returns-bind P Q fault k p next = absurd p
Returns-bind P Q blocked k p next = absurd p

pub Returns-mono :
    {A : Type 0} (P Q : A → World → Type 0) (r : Run A)
    → Returns P r
    → ((a : A) (w : World) → P a w → Q a w)
    → Returns Q r
Returns-mono P Q (done a w) p weaken = weaken a w p
Returns-mono P Q fault p weaken = absurd p
Returns-mono P Q blocked p weaken = absurd p

-- A run that ends, by what holds after it.
pub Returns-After :
    {A : Type 0} (P Q : A → World → Type 0) (r : Run A)
    → Returns P r
    → After Q r
    → Returns (λ a w. P a w × Q a w) r
Returns-After P Q (done a w) p q = (p, q)
Returns-After P Q fault p q = absurd p
Returns-After P Q blocked p q = absurd p
