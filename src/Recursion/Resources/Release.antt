-- ===== src/Recursion/Resources/Release.antt =====
-- Granted resources that are given back.
use flex_gas.Prelude.{
  List, [], ap, arith, refl, some, some-injective, subst, suc, sym, true, ℕ, ◌-◌, ◌∙◌, ◌∷◌, ◌≡◌,
  ◌≤◌,
}
use flex_gas.Recursion.Resources.{
  ExecResource, Found, Resource, find_exec_res, find_loop, modify_nth, release_exec_res,
  release_loop, vacate,
}
use flex_gas.Recursion.Resources.Ends.{AllLive, release_loop-Returns, released}
use flex_gas.Recursion.Resources.Grants.{
  AllConsistent, Granted, Grants, find_loop-Grants, granted, skipped, stop,
}
use flex_gas.Recursion.Resources.Levels.{vacate-occupy}
use flex_gas.Sched.Api.{Ports, sched_destroy_device}
use flex_gas.Sched.Requests.{SagReq}
use flex_gas.Sched.Types.{Group}
use flex_gas.Sched.World.{After, After-bind, After-done, Returns, Returns-mono, World, done}

abbrev AtLeast : ℕ → List ExecResource → Type 0
AtLeast n [] = Unit {0}
AtLeast n (e ∷ es) = (n ≤ e.res) × AtLeast n es

AtLeast-pred : (n : ℕ) (es : List ExecResource) → AtLeast (suc n) es → AtLeast n es
AtLeast-pred n [] a = tt
AtLeast-pred n (e ∷ es) a = (omega arith, AtLeast-pred n es a.1)

Grants-AtLeast :
    {level room idx : ℕ} {rs rs' : List Resource} {es : List ExecResource}
    → Grants level room idx rs rs' es
    → AtLeast idx es
Grants-AtLeast stop = tt
Grants-AtLeast (skipped {idx = i} {es = es} g) = AtLeast-pred i es (Grants-AtLeast g)
Grants-AtLeast (granted {idx = i} {es = es} d free g) =
    (omega arith, AtLeast-pred i es (Grants-AtLeast g))

released-cons :
    (level base : ℕ) (es : List ExecResource) (r : Resource) (rs : List Resource)
    → AtLeast (suc base) es
    → released level base es (r ∷ rs) ≡ r ∷ released level (suc base) es rs
unfolding released
released-cons level base [] r rs a = refl
released-cons level base (e ∷ es) r rs a =
    let k : e.res - base ≡ suc (e.res - suc base) = omega arith in
    rw k (released-cons level base es r (modify_nth (vacate level) (e.res - suc base) rs) a.1)

released-Grants :
    {level room idx : ℕ} {rs rs' : List Resource} {es : List ExecResource}
    → Grants level room idx rs rs' es
    → AllConsistent rs
    → released level idx es rs' ≡ rs
unfolding released
released-Grants stop c = refl
released-Grants (skipped {idx = i} {r = r} {rs' = rs'} {es = es} g) c =
    released-cons _ i es r rs' (Grants-AtLeast g) ∙ ap (◌∷◌ r) (released-Grants g c.1)
released-Grants (granted {idx = i} {r = r} {rs' = rs'} {es = es} d free g) c =
    let here : i - i ≡ 0 = omega arith in
    rw (here, vacate-occupy _ r c.0 free)
      (released-cons _ i es r rs' (Grants-AtLeast g) ∙ ap (◌∷◌ r) (released-Grants g c.1))

find_exec_res-Grants :
    (blank : SagReq) (ports : Ports) (group req_num : ℕ) (rs : List Resource) (w : World)
    (g : Group)
    → w.groups group ≡ some g
    → After
        (λ out _.
          (found : Found) × (out ≡ some found) × Grants g.rec_level req_num 0 rs found.0 found.1)
        (find_exec_res blank ports true group req_num rs w)
unfolding find_exec_res
find_exec_res-Grants blank ports group req_num rs w g hg =
    rw (hg, After)
      (After-bind (Granted g.rec_level req_num 0 rs) _ (find_loop _ g.rec_level req_num 0 rs w) _
        (find_loop-Grants _ g.rec_level req_num 0 rs w) (λ found w₂ grants. (found, refl, grants)))

-- release_exec_res, given what find_exec_res granted to a group, leaves every resource as it was
-- before the grant, whether or not the agents answer: where the counts of the resources were right
-- and their levels distinct, no other group was granted or gave back a resource in between, the
-- group has its recursion level, the granted devices are there with their jobs and groups, and no
-- mutex is held. The rest of the shared state may have changed in between.
pub release-find_exec_res :
    (blank : SagReq) (ports : Ports) (group req_num : ℕ) (rs rs' : List Resource)
    (es : List ExecResource) (w w₁ w₂ : World) (g g₂ : Group)
    → AllConsistent rs
    → w.groups group ≡ some g
    → find_exec_res blank ports true group req_num rs w ≡ done (some (rs', es)) w₁
    → w₂.groups group ≡ some g₂
    → g₂.rec_level ≡ g.rec_level
    → AllLive w₂ es
    → w₂.held ≡ []
    → Returns (λ out _. out ≡ rs) (release_exec_res blank es group rs' w₂)
unfolding find_exec_res release_exec_res
release-find_exec_res blank ports group req_num rs rs' es w w₁ w₂ g g₂ c hg found hg₂ same live
      free =
    let (x, e, grants) =
      After-done _ _ (find_exec_res-Grants blank ports group req_num rs w g hg) found in
    let known : Grants g₂.rec_level req_num 0 rs rs' es =
      subst (λ y. Grants g₂.rec_level req_num 0 rs y.0 y.1) (sym (some-injective _ _ e))
        (rw same grants) in
    Returns-mono (λ x _. x ≡ released g₂.rec_level 0 es rs') (λ x _. x ≡ rs)
      (release_loop (sched_destroy_device blank) group es rs' w₂)
      (release_loop-Returns blank group g₂ es rs' w₂ hg₂ live free)
      (λ out w₃ is. is ∙ released-Grants known c)
