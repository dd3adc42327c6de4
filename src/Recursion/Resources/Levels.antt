-- ===== src/Recursion/Resources/Levels.antt =====
-- Resources whose count is right and whose recursion levels are distinct, under `occupy` and
-- `vacate`.
use flex_gas.Prelude.{
  Bool, List, [], ap, arith, false, length, length-append, refl, suc, sym, true, zero, ℕ, ◌++◌,
  ◌==◌, ◌||◌, ◌∙◌, ◌∷◌, ◌≡◌,
}
use flex_gas.Recursion.Resources.{
  Resource, dec, denies, erase_level, level_among, occupy, pos, rounds_below, vacate,
}

abbrev pub holds : ℕ → List ℕ → Bool
holds level ls = level_among level (length ls) ls

abbrev pub AllDistinct : List ℕ → Type 0
AllDistinct [] = Unit {0}
AllDistinct (l ∷ ls) = (holds l ls ≡ false) × AllDistinct ls

-- The count is that of the levels, and no two occupants have one level.
pub record IsConsistent (r : Resource) : Type 0 where
  pub counted : r.num_occupants ≡ pos (length r.rec_levels)
  pub distinct : AllDistinct r.rec_levels

pub holds-snoc :
    (level x : ℕ) (ls : List ℕ) → holds level (ls ++ x ∷ []) ≡ (holds level ls || (x == level))
unfolding level_among
holds-snoc level x [] = ground arith
holds-snoc level x (l ∷ ls) = ground (arith, holds-snoc level x ls)

AllDistinct-snoc :
    (level : ℕ) (ls : List ℕ)
    → AllDistinct ls
    → holds level ls ≡ false
    → AllDistinct (ls ++ level ∷ [])
unfolding level_among
AllDistinct-snoc level [] d out = (refl, tt)
AllDistinct-snoc level (l ∷ ls) d out =
    (ground (arith, holds-snoc l level ls), AllDistinct-snoc level ls d.1 (ground arith))

erase_level-snoc :
    (level : ℕ) (ls : List ℕ)
    → holds level ls ≡ false
    → erase_level level (suc (length ls)) (ls ++ level ∷ []) ≡ ls
unfolding level_among erase_level
erase_level-snoc level [] out = ground arith
erase_level-snoc level (l ∷ ls) out = ground (arith, erase_level-snoc level ls)

length-snoc : (level : ℕ) (ls : List ℕ) → length (ls ++ level ∷ []) ≡ suc (length ls)
length-snoc level ls = omega (arith, length-append ls (level ∷ []))

pub denies-holds :
    (level : ℕ) (r : Resource) → IsConsistent r → denies level r ≡ holds level r.rec_levels
unfolding denies
denies-holds level r c = rw c.counted

pub occupy-IsConsistent :
    (level : ℕ) (r : Resource)
    → IsConsistent r
    → denies level r ≡ false
    → IsConsistent (occupy level r)
unfolding occupy
occupy-IsConsistent level r c free = record {
  counted = rw (c.counted, length-snoc level r.rec_levels);
  distinct = AllDistinct-snoc level r.rec_levels c.distinct (sym (denies-holds level r c) ∙ free);
}

pub vacate-occupy :
    (level : ℕ) (r : Resource)
    → IsConsistent r
    → denies level r ≡ false
    → vacate level (occupy level r) ≡ r
unfolding occupy vacate
vacate-occupy level r c free =
    ground (arith, c.counted, erase_level-snoc level r.rec_levels, denies-holds level r c)

holds-erase_level :
    (x level : ℕ) (n : ℕ) (ls : List ℕ)
    → holds x ls ≡ false
    → holds x (erase_level level n ls) ≡ false
unfolding level_among erase_level
holds-erase_level x level zero ls out = out
holds-erase_level x level (suc n) [] out = refl
holds-erase_level x level (suc n) (l ∷ ls) out = ground (arith, holds-erase_level x level n ls)

AllDistinct-erase_level :
    (level n : ℕ) (ls : List ℕ) → AllDistinct ls → AllDistinct (erase_level level n ls)
unfolding erase_level
AllDistinct-erase_level level zero ls d = d
AllDistinct-erase_level level (suc n) [] d = tt
AllDistinct-erase_level level (suc n) (l ∷ ls) d =
    ground (arith, AllDistinct-erase_level level n ls d.1, holds-erase_level l level n ls d.0)

-- An occupant that is there is counted off and its level is free again.
holds-vacated :
    (level : ℕ) (ls : List ℕ)
    → AllDistinct ls
    → holds level ls ≡ true
    → (length ls ≡ suc (length (erase_level level (length ls) ls)))
      × (holds level (erase_level level (length ls) ls) ≡ false)
unfolding level_among erase_level
holds-vacated level [] d h = cc
holds-vacated level (l ∷ ls) d h = ground (arith, holds-vacated level ls d.1)

-- Where a group's level occupies a resource whose count is right and whose levels are distinct, a
-- release keeps both so, and the level is no longer denied there.
pub vacate-IsConsistent :
    (level : ℕ) (r : Resource)
    → IsConsistent r
    → denies level r ≡ true
    → IsConsistent (vacate level r) × (denies level (vacate level r) ≡ false)
unfolding vacate denies
vacate-IsConsistent level r c taken =
    let left = holds-vacated level r.rec_levels c.distinct (sym (denies-holds level r c) ∙ taken) in
    (
      record {
        counted = rw c.counted (ap dec (ap pos left.0));
        distinct =
            AllDistinct-erase_level level (rounds_below r.num_occupants) r.rec_levels c.distinct;
      },
      rw c.counted (ground (arith, left.0, left.1)),
    )
