-- ===== src/Recursion/Resources/Marks.antt =====
-- What the grants of `find_exec_res` leave on the resources.
use flex_gas.Prelude.{
  List, [], ap, arith, false, get_elem?, length, refl, some, suc, sym, zero, ℕ, ◌++◌, ◌+◌, ◌∙◌, ◌∷◌,
  ◌≡◌, ◌≢◌, ◌≤◌,
}
use flex_gas.Recursion.Resources.{ExecResource, Resource, inc, level_among, occupy, pos}
use flex_gas.Recursion.Resources.Grants.{AllConsistent, Grants, granted, skipped, stop}
use flex_gas.Recursion.Resources.Levels.{denies-holds, holds}

-- One granted resource, at its place in the list from index `base` on, before and after the grant:
-- no group of the level occupied it, and one occupant of the level is recorded behind the others.
pub record IsMarked (level base : ℕ) (rs rs' : List Resource) (e : ExecResource) : Type 0 where
  pub place : ℕ
  pub before : Resource
  pub after : Resource
  pub index : e.res ≡ base + place
  pub was : get_elem? rs place ≡ some before
  pub is : get_elem? rs' place ≡ some after
  pub was_free : (i : ℕ) → get_elem? before.rec_levels i ≢ some level
  pub recorded : after.rec_levels ≡ before.rec_levels ++ level ∷ []
  pub counted : after.num_occupants ≡ pos (suc (length before.rec_levels))

abbrev pub AllMarked : (level base : ℕ) (rs rs' : List Resource) → List ExecResource → Type 0
AllMarked level base rs rs' [] = Unit {0}
AllMarked level base rs rs' (e ∷ es) = IsMarked level base rs rs' e × AllMarked level base rs rs' es

-- The granted resources stand at different places, in the order of the list.
abbrev pub Ascending : ℕ → List ExecResource → Type 0
Ascending n [] = Unit {0}
Ascending n (e ∷ es) = (n ≤ e.res) × Ascending (suc e.res) es

holds-get_elem? :
    (level : ℕ) (ls : List ℕ) → holds level ls ≡ false → (i : ℕ) → get_elem? ls i ≢ some level
unfolding level_among
holds-get_elem? level [] out i e = absurd (ground (arith, e))
holds-get_elem? level (l ∷ ls) out zero e = absurd (ground (arith, e))
holds-get_elem? level (l ∷ ls) out (suc i) e = holds-get_elem? level ls (ground arith) i e

AllMarked-cons :
    (level base : ℕ) (r r' : Resource) (rs rs' : List Resource) (es : List ExecResource)
    → AllMarked level (suc base) rs rs' es
    → AllMarked level base (r ∷ rs) (r' ∷ rs') es
AllMarked-cons level base r r' rs rs' [] m = tt
AllMarked-cons level base r r' rs rs' (e ∷ es) (m, ms) = (
  record {
    place = suc m.place;
    before = m.before;
    after = m.after;
    index = omega (arith, m.index);
    was = m.was;
    is = m.is;
    was_free = m.was_free;
    recorded = m.recorded;
    counted = m.counted;
  },
  AllMarked-cons level base r r' rs rs' es ms,
)

Ascending-weaken : (n : ℕ) (es : List ExecResource) → Ascending (suc n) es → Ascending n es
Ascending-weaken n [] a = tt
Ascending-weaken n (e ∷ es) a = (omega arith, a.1)

pub Grants-Ascending :
    {level room idx : ℕ} {rs rs' : List Resource} {es : List ExecResource}
    → Grants level room idx rs rs' es
    → Ascending idx es
Grants-Ascending stop = tt
Grants-Ascending (skipped {idx = i} {es = es} g) = Ascending-weaken i es (Grants-Ascending g)
Grants-Ascending (granted d free g) = (omega arith, Grants-Ascending g)

pub Grants-AllMarked :
    {level room idx : ℕ} {rs rs' : List Resource} {es : List ExecResource}
    → Grants level room idx rs rs' es
    → AllConsistent rs
    → AllMarked level idx rs rs' es
unfolding occupy
Grants-AllMarked stop c = tt
Grants-AllMarked (skipped {idx = i} {r = r} {rs = rs} {rs' = rs'} {es = es} g) c =
    AllMarked-cons _ i r r rs rs' es (Grants-AllMarked g c.1)
Grants-AllMarked {level = level}
      (granted {idx = i} {r = r} {rs = rs} {rs' = rs'} {es = es} d free g) c =
    (
      record {
        place = 0;
        before = r;
        after = occupy level r;
        index = omega arith;
        was = refl;
        is = refl;
        was_free = holds-get_elem? level r.rec_levels (sym (denies-holds level r c.0) ∙ free);
        recorded = refl;
        counted = ap inc c.0.counted;
      },
      AllMarked-cons level i r (occupy level r) rs rs' es (Grants-AllMarked g c.1),
    )
