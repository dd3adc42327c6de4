-- ===== src/Sched/World/Monad.antt =====
-- The monad: a run ends with a value and a state, faults (a dangling or NULL pointer, an unlock of a
-- mutex that is not held), or blocks (a lock of a mutex that the thread holds).
use flex_gas.Prelude.{Option, none, some, ◌∷◌, if◌then◌else◌}
use flex_gas.Sched.World.State.{World, Mutex, owns, release}

pub data Run (A : Type 0) : Type 0 where
  done : A → World → Run A
  fault : Run A
  blocked : Run A

abbrev pub M : Type 0 → Type 0
M A = World → Run A

-- The return codes 0 and -1.
pub data Ret : Type 0 where
  ret_ok ret_err : Ret

abbrev pub pure : {A : Type 0} → A → M A
pure = done

module _ {A B : Type 0} where
  abbrev pub and_then : Run A → (A → M B) → Run B
  and_then (done a w) k = k a w
  and_then fault k = fault
  and_then blocked k = blocked

  infixl 5 ◌>>=◌ ◌>>◌
  abbrev pub ◌>>=◌ : M A → (A → M B) → M B
  m >>= k = λ w. and_then (m w) k

  abbrev pub ◌>>◌ : M A → M B → M B
  m >> k = m >>= λ _. k

abbrev pub get : M World
get w = done w w

-- `if (r != 0) return -1;` before the rest.
abbrev pub on_ok : Ret → M Ret → M Ret
on_ok ret_ok k = k
on_ok ret_err k = pure ret_err

-- CHECK_Z
abbrev pub check_z : M Ret → M Ret → M Ret
check_z m k = m >>= λ r. on_ok r k

-- A pointer that is followed must not be NULL.
abbrev pub deref : {A : Type 0} → Option A → M A
deref none = λ w. fault
deref (some a) = pure a

abbrev pub lock : Mutex → M (Unit {0})
lock m w = if owns m w.held then blocked else done tt (record w { held = m ∷ w.held })

abbrev pub unlock : Mutex → M (Unit {0})
unlock m w = if owns m w.held then done tt (record w { held = release m w.held }) else fault
