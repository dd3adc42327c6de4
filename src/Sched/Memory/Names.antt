-- ===== src/Sched/Memory/Names.antt =====
-- The names of shared objects that decorate_mem_id makes.
use flex_gas.Prelude.{
  Bytes, List, [], ap, append_assoc, append_cancel_right, arith, if◌then◌else◌, length, refl, some,
  suc, sym, take, zero, ℕ, ◌++◌, ◌∙◌, ◌∷◌, ◌≡◌, ◌≢◌, ◌≤◌,
}
use flex_gas.Sched.Find.{is_global}
use flex_gas.Sched.Memory.{clipped, dashed, decorate_mem_id}
use flex_gas.Sched.Types.{Group, Job}
use flex_gas.Sched.World.{World, done}

take-length : {A : Type 0} (n : ℕ) (xs : List A) → length xs ≤ n → take n xs ≡ xs
take-length zero [] h = refl
take-length zero (x ∷ xs) h = absurd (omega arith)
take-length (suc n) [] h = refl
take-length (suc n) (x ∷ xs) h = ap (◌∷◌ x) (take-length n xs (omega arith))

-- What decorate_mem_id hangs on to the name of an object of a job or, without the flag of a global
-- one, of a group.
unfoldable pub suffix : Job → Group → ℕ → Bytes
suffix j g flags =
    if is_global flags
    then dashed j.uid ++ dashed j.jid
    else dashed j.uid ++ (dashed j.jid ++ dashed g.gid)

decorate_mem_id-suffix :
    (mem_id : Bytes) (job group flags : ℕ) (j : Job) (g : Group) (w : World)
    → w.jobs job ≡ some j
    → w.groups group ≡ some g
    → decorate_mem_id mem_id job (some group) flags w
      ≡ done (clipped (mem_id ++ suffix j g flags)) w
unfolding decorate_mem_id suffix
decorate_mem_id-suffix mem_id job group flags j g w lj lg = ground arith

-- Within one group, and within one job for global objects, two objects of different names have
-- different shared names, where both fit into the 127 bytes of the buffer.
pub decorate_mem_id-injective :
    (a b : Bytes) (job group flags : ℕ) (j : Job) (g : Group) (w : World)
    → w.jobs job ≡ some j
    → w.groups group ≡ some g
    → length (a ++ suffix j g flags) ≤ 127
    → length (b ++ suffix j g flags) ≤ 127
    → a ≢ b
    → decorate_mem_id a job (some group) flags w ≢ decorate_mem_id b job (some group) flags w
decorate_mem_id-injective a b job group flags j g w lj lg fits_a fits_b different = λ same.
    let one : done (clipped (a ++ suffix j g flags)) w ≡ done (clipped (b ++ suffix j g flags)) w =
      sym (decorate_mem_id-suffix a job group flags j g w lj lg)
      ∙ same
      ∙ decorate_mem_id-suffix b job group flags j g w lj lg in
    let names : clipped (a ++ suffix j g flags) ≡ clipped (b ++ suffix j g flags) =
      grind (arith, one) in
    different (
      append_cancel_right a b (suffix j g flags)
        (sym (take-length 127 _ fits_a) ∙ names ∙ take-length 127 _ fits_b))

-- The names do not separate the scopes: an object of a group has the shared name of a global object
-- of another job, where that job has the first one's job identifier for its user and the group's
-- identifier for its own, and the object the first one's name and user.
pub decorate_mem_id_shared :
    (a : Bytes) (job group job' : ℕ) (j j' : Job) (g : Group) (w : World)
    → w.jobs job ≡ some j
    → w.jobs job' ≡ some j'
    → w.groups group ≡ some g
    → j'.uid ≡ j.jid
    → j'.jid ≡ g.gid
    → decorate_mem_id a job (some group) 0 w
      ≡ decorate_mem_id (a ++ dashed j.uid) job' (some group) 0x10 w
unfolding decorate_mem_id
decorate_mem_id_shared a job group job' j j' g w lj lj' lg user iden =
    let split : a ++ (dashed j.uid ++ (dashed j.jid ++ dashed g.gid))
        ≡ (a ++ dashed j.uid) ++ (dashed j'.uid ++ dashed j'.jid) =
      rw (user, iden) (sym (append_assoc a (dashed j.uid) (dashed j.jid ++ dashed g.gid))) in
    grind (arith, split)
