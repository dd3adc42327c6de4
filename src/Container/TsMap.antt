-- ===== src/Container/TsMap.antt =====
-- src/common/ts_map.h: the map with a mutex around each call. The mutex is the class's own, so a
-- call is one step; an iterator is the key it stands at, `none` the end.
use flex_gas.Container.Map.{
  Key, Map, bytes_key, erase, find, find-erase, find-insert, insert, nat_key,
}
use flex_gas.Prelude.{Bool, Option, arith, false, if◌then◌else◌, none, some, true, ◌↔◌, ◌≡◌}
use flex_gas.Sched.World.{Ret, ret_err, ret_ok}

module _ {K V : Type 0} ⦃key : Key K⦄ where
  -- The one-argument `insert`.
  unfoldable pub insert_pair : K × V → Map K V → Map K V
  insert_pair (k, v) m = insert k v m

  -- The `insert` that reports: -1 and the old entry where the key is taken, else 0 and the new one.
  unfoldable pub insert_at : K × V → Map K V → Map K V × Ret × K
  insert_at (k, v) m = elim (find k m) [
    | some _ ↦ (m, ret_err, k)
    | none ↦ (insert k v m, ret_ok, k)
  ]

  unfoldable pub erase_at : K → Map K V → Map K V
  erase_at k m = erase k m

  unfoldable pub find_key : K → Map K V → Option (K × V)
  find_key k m = elim (find k m) [ some v ↦ some (k, v) | none ↦ none ]

  -- Return value and `*val`, which keeps its old content where the key is missing.
  unfoldable pub getval : K → V → Map K V → Bool × V
  getval k old m = elim (find k m) [ some v ↦ (true, v) | none ↦ (false, old) ]

  unfoldable pub fetch : K → V → Map K V → Map K V × Bool × V
  fetch k old m = elim (find k m) [ some v ↦ (erase k m, true, v) | none ↦ (m, false, old) ]

  -- `fetch` answers as `getval` does, and afterwards exactly its key is gone.
  pub fetch-getval :
      (k j : K) (old : V) (m : Map K V)
      → ((fetch k old m).1 ≡ (getval k old m).0)
        × ((fetch k old m).2 ≡ (getval k old m).1)
        × (find j (fetch k old m).0 ≡ (if key.beq k j then none else find j m))
  unfolding fetch getval
  fetch-getval k j old m =
      (ground arith, ground arith, ground (arith, find-erase k j m, key.beq_iff k j))

  -- `insert` with an iterator succeeds exactly on a new key. Under its key the old value is found
  -- where there was one and else the new one; every other key is answered as before.
  pub insert_at_lem :
      (k j : K) (v : V) (m : Map K V)
      → ((insert_at (k, v) m).1 ≡ ret_ok ↔ find k m ≡ none)
        × (find j (insert_at (k, v) m).0 ≡ (
            if key.beq k j then some (elim (find k m) [ some old ↦ old | none ↦ v ]) else find j m))
  unfolding insert_at
  insert_at_lem k j v m = (ground arith, ground (arith, find-insert k j v m, key.beq_iff k j))

  -- A value put under a new key is fetched again once, and the map is as before for every key.
  pub fetch-insert_at :
      (k j : K) (v old : V) (m : Map K V)
      → find k m ≡ none
      → let m' = (insert_at (k, v) m).0 in
        ((fetch k old m').1 ≡ true)
        × ((fetch k old m').2 ≡ v)
        × (find j (fetch k old m').0 ≡ find j m)
  unfolding fetch insert_at
  fetch-insert_at k j v old m e = (
    ground (arith, find-insert k k v m, key.beq_iff k k),
    ground (arith, find-insert k k v m, key.beq_iff k k),
    ground (
      arith,
      find-insert k k v m,
      find-insert k j v m,
      find-erase k j (insert k v m),
      key.beq_iff k k,
      key.beq_iff k j,
    ),
  )
