-- ===== src/Links/Runs.antt =====
-- Runs of code over a state: a value and the next state, or `none` where a NULL or dangling pointer
-- is followed.
use flex_gas.Prelude.{Option, none, some}

abbrev pub Run : Type 0 → Type 0 → Type 0
Run S A = S → Option (A × S)

abbrev pub pure : {S A : Type 0} → A → Run S A
pure a h = some (a, h)

module _ {S A B : Type 0} where
  abbrev pub and_then : Option (A × S) → (A → Run S B) → Option (B × S)
  and_then none k = none
  and_then (some (a, h)) k = k a h

  infixl 5 ◌>>=◌ ◌>>◌
  abbrev pub ◌>>=◌ : Run S A → (A → Run S B) → Run S B
  m >>= k = λ h. and_then (m h) k

  abbrev pub ◌>>◌ : Run S A → Run S B → Run S B
  m >> k = m >>= λ _. k

-- The return codes 0 and -1.
pub data Ret : Type 0 where
  ret_ok ret_err : Ret

abbrev pub get : {S : Type 0} → Run S S
get h = some (h, h)

abbrev pub put : {S : Type 0} → S → Run S (Unit {0})
put h _ = some (tt, h)

abbrev pub deref : {S A : Type 0} → Option A → Run S A
deref none h = none
deref (some a) h = some (a, h)
