-- ===== src/Recursion/Resources/Ends.antt =====
-- release_exec_res, and the devices that it needs.
use flex_gas.Prelude.{List, [], arith, refl, some, ℕ, ◌-◌, ◌∷◌, ◌≡◌}
use flex_gas.Recursion.Resources.{ExecResource, Resource, modify_nth, release_loop, vacate}
use flex_gas.Sched.Api.{
  accepted, create_agent_request, is_success, sched_destroy_device, submit_agent_request,
}
use flex_gas.Sched.Requests.{SagReq}
use flex_gas.Sched.Types.{Device, Group, Job, Ptr}
use flex_gas.Sched.World.{Returns, Returns-bind, World}

-- What a request to an agent leaves as it was.
abbrev pub SameHeaps : World → World → Type 0
SameHeaps w w' =
    (w'.devices ≡ w.devices) × (w'.jobs ≡ w.jobs) × (w'.groups ≡ w.groups) × (w'.held ≡ [])

-- The devices are there, with their jobs and groups.
abbrev pub IsLive : World → Ptr → Type 0
IsLive w device =
    (d : Device) × (j : Job) × (g : Group) × (w.devices device ≡ some d)
    × (w.jobs d.job ≡ some j)
    × (w.groups d.group ≡ some g)

abbrev pub AllLive : World → List ExecResource → Type 0
AllLive w [] = Unit {0}
AllLive w (e ∷ es) = IsLive w e.device × AllLive w es

sched_destroy_device-Returns :
    (blank : SagReq) (device : Ptr) (w : World)
    → IsLive w device
    → w.held ≡ []
    → Returns (λ r w'. SameHeaps w w') (sched_destroy_device blank device w)
unfolding sched_destroy_device create_agent_request submit_agent_request accepted is_success
sched_destroy_device-Returns blank device w (d, j, g, ld, lj, lg) free = ground arith

AllLive-SameHeaps :
    (w w' : World) (es : List ExecResource) → AllLive w es → SameHeaps w w' → AllLive w' es
AllLive-SameHeaps w w' [] live same = tt
AllLive-SameHeaps w w' (e ∷ es) ((d, j, g, ld, lj, lg), live) (sd, sj, sg, free) =
    ((d, j, g, rw sd ld, rw sj lj, rw sg lg), AllLive-SameHeaps w w' es live (sd, sj, sg, free))

-- What a release makes of resources that stand from index `base` on.
unfoldable pub released : (level base : ℕ) → List ExecResource → List Resource → List Resource
released level base [] rs = rs
released level base (e ∷ es) rs =
    released level base es (modify_nth (vacate level) (e.res - base) rs)

-- A release ends where the granted devices are there, and takes the level of the group out of each
-- of its resources.
pub release_loop-Returns :
    (blank : SagReq) (group : Ptr) (g : Group) (es : List ExecResource) (rs : List Resource)
    (w : World)
    → w.groups group ≡ some g
    → AllLive w es
    → w.held ≡ []
    → Returns
        (λ out _. out ≡ released g.rec_level 0 es rs)
        (release_loop (sched_destroy_device blank) group es rs w)
unfolding release_loop released
release_loop-Returns blank group g [] rs w lg live free = refl
release_loop-Returns blank group g (e ∷ es) rs w lg (here, live) free =
    let left : List Resource = modify_nth (vacate g.rec_level) e.res rs in
    let zero_off : e.res - 0 ≡ e.res = omega arith in
    rw (lg, zero_off)
      (Returns-bind (λ _ w'. SameHeaps w w') (λ out _. out ≡ released g.rec_level 0 es left)
        (sched_destroy_device blank e.device w) _
        (sched_destroy_device-Returns blank e.device w here free)
        λ r w' same.
          release_loop-Returns blank group g es left w' (rw same.2 lg)
            (AllLive-SameHeaps w w' es live same) same.3)
