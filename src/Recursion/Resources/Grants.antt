-- ===== src/Recursion/Resources/Grants.antt =====
-- What `find_exec_res` grants and what `release_exec_res` gives back.
use flex_gas.Prelude.{
  Bool, Bytes, List, Option, [], arith, false, length, none, refl, some, suc, true, zero, ℕ, ◌∷◌,
  ◌≡◌, ◌≤◌,
}
use flex_gas.Recursion.Resources.{
  ExecResource, Found, Resource, created, denies, find_loop, occupy, visit,
}
use flex_gas.Recursion.Resources.Levels.{IsConsistent, occupy-IsConsistent}
use flex_gas.Sched.Local.{accept}
use flex_gas.Sched.Types.{Ptr}
use flex_gas.Sched.World.{After, After-any, After-bind, M, World}

abbrev pub AllConsistent : List Resource → Type 0
AllConsistent [] = Unit {0}
AllConsistent (r ∷ rs) = IsConsistent r × AllConsistent rs

-- From index `idx` on: the resources before and after, and the grants, at most `room`.
pub data Grants (level : ℕ)
    : (room idx : ℕ) (rs rs' : List Resource) → List ExecResource → Type 0 where
  stop : {room idx : ℕ} {rs : List Resource} → Grants level room idx rs rs []
  skipped :
      {room idx : ℕ} {r : Resource} {rs rs' : List Resource} {es : List ExecResource}
      → Grants level room (suc idx) rs rs' es
      → Grants level room idx (r ∷ rs) (r ∷ rs') es
  granted :
      {room idx : ℕ} {r : Resource} {rs rs' : List Resource} {es : List ExecResource} (d : Ptr)
      → denies level r ≡ false
      → Grants level room (suc idx) rs rs' es
      → Grants level
          (suc room)
          idx
          (r ∷ rs)
          (occupy level r ∷ rs')
          (record { res = idx; device = d } ∷ es)

visit-After :
    {A : Type 0} (P : A → World → Type 0) (pass : M A) (accept : Ptr → M A) (deny : Bool)
    (create : M (Option Ptr)) (w : World)
    → ((w₁ : World) → After P (pass w₁))
    → (deny ≡ false → (d : Ptr) (w₁ : World) → After P (accept d w₁))
    → After P (visit pass accept deny create w)
unfolding visit created
visit-After P pass accept true create w s t = s w
visit-After P pass accept false create w s t =
    After-bind (λ _ _. Unit {0}) P (create w) (created pass accept) (After-any (create w))
      λ d w₁ _. go d w₁
  where
    go : (d : Option Ptr) (w₁ : World) → After P (created pass accept d w₁)
    go none w₁ = s w₁
    go (some d) w₁ = t refl d w₁

abbrev pub Granted : (level room idx : ℕ) → List Resource → Found → World → Type 0
Granted level room idx rs out w = Grants level room idx rs out.0 out.1

module _ (create : Bytes → M (Option Ptr)) (level : ℕ) where
  -- A search that ends has granted so.
  pub find_loop-Grants :
      (room idx : ℕ) (rs : List Resource) (w : World)
      → After (Granted level room idx rs) (find_loop create level room idx rs w)
  unfolding find_loop
  find_loop-Grants room idx [] w = stop
  find_loop-Grants zero idx (r ∷ rs) w = stop
  find_loop-Grants (suc room) idx (r ∷ rs) w =
      visit-After (Granted level (suc room) idx (r ∷ rs)) _ _ (denies level r) (create r.hostname) w
        (λ w₁.
          After-bind (Granted level (suc room) (suc idx) rs) _
            (find_loop create level (suc room) (suc idx) rs w₁) _
            (find_loop-Grants (suc room) (suc idx) rs w₁) (λ out w' g. skipped g))
        (λ free d w₁.
          After-bind (Granted level room (suc idx) rs) _
            (find_loop create level room (suc idx) rs w₁) _ (find_loop-Grants room (suc idx) rs w₁)
            (λ out w' g. granted d free g))

pub Grants-AllConsistent :
    {level room idx : ℕ} {rs rs' : List Resource} {es : List ExecResource}
    → Grants level room idx rs rs' es
    → AllConsistent rs
    → AllConsistent rs'
Grants-AllConsistent stop c = c
Grants-AllConsistent (skipped g) c = (c.0, Grants-AllConsistent g c.1)
Grants-AllConsistent (granted {r = x} d free g) c =
    (occupy-IsConsistent _ x c.0 free, Grants-AllConsistent g c.1)

pub Grants-length :
    {level room idx : ℕ} {rs rs' : List Resource} {es : List ExecResource}
    → Grants level room idx rs rs' es
    → length es ≤ room
Grants-length stop = omega arith
Grants-length (skipped g) = Grants-length g
Grants-length (granted d free g) = omega (arith, Grants-length g)
