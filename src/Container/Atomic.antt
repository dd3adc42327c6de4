-- ===== src/Container/Atomic.antt =====
-- `AtomicVector` and `AtomicMap` of src/vivm/schedlib/sl_recursion/rec_internal.h. The `_unsafe`
-- methods do the work; the others wrap each in the object's mutex and are one step.
use flex_gas.Container.Map.{Key, Map, find, insert}
use flex_gas.Prelude.{
  List, Option, [], get_elem?, length, none, refl, remove_nth, some, ℕ, ◌++◌, ◌∷◌, ◌≡◌,
}
use flex_gas.Sched.World.{Ret, ret_err, ret_ok}

module _ {A : Type 0} where
  unfoldable pub push_back : A → List A → List A
  push_back a xs = xs ++ a ∷ []

  unfoldable pub push_head : A → List A → List A
  push_head a xs = a ∷ xs

  -- `none` for an index past the end, which the source leaves undefined.
  unfoldable pub fetch_index : List A → ℕ → Option (A × List A)
  fetch_index xs i = elim (get_elem? xs i) [ some a ↦ some (a, remove_nth xs i) | none ↦ none ]

  unfoldable pub size : List A → ℕ
  size xs = length xs

  -- The queue of the schedulers: what `push_back` adds is fetched behind all that was there.
  pub fetch_index-push_back :
      (a : A) (xs : List A)
      → fetch_index (push_back a xs) 0
        ≡ (elim xs [ [] ↦ some (a, []) | y ∷ ys ↦ some (y, push_back a ys) ])
  unfolding fetch_index push_back
  fetch_index-push_back a [] = refl
  fetch_index-push_back a (x ∷ xs) = refl

module _ {K V : Type 0} ⦃key : Key K⦄ where
  unfoldable pub insert_unsafe : K × V → Map K V → Map K V
  insert_unsafe (k, v) m = insert k v m

  -- In contrast to `ts_map::fetch` the entry stays.
  unfoldable pub fetch_unsafe : K → V → Map K V → Map K V × Ret × V
  fetch_unsafe k old m = elim (find k m) [ some v ↦ (m, ret_ok, v) | none ↦ (m, ret_err, old) ]
