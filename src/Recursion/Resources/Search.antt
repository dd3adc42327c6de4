-- ===== src/Recursion/Resources/Search.antt =====
-- The search of find_exec_res, and the group that it needs.
use flex_gas.Container.Map.{bytes_key, find, least, nat_key}
use flex_gas.Prelude.{
  Bool, Bytes, List, Option, Option-cases, [], arith, false, inl, inr, length, none, refl, some,
  suc, true, zero, ℕ, ◌∷◌, ◌≡◌, ◌≤◌,
}
use flex_gas.Recursion.Resources.{Found, Resource, created, denies, find_exec_res, find_loop, visit}
use flex_gas.Recursion.Resources.Grants.{
  AllConsistent, Granted, Grants-AllConsistent, Grants-length, find_loop-Grants,
}
use flex_gas.Recursion.Resources.Marks.{AllMarked, Ascending, Grants-AllMarked, Grants-Ascending}
use flex_gas.Sched.Api.{
  Ports, accepted, create_agent_request, is_success, request_agent_create_job_group_device,
  sched_create_device, submit_agent_request,
}
use flex_gas.Sched.Devices.{create_new_device_id, get_new_device_id, register_device}
use flex_gas.Sched.Find.{find_group, find_job}
use flex_gas.Sched.Requests.{SagReq}
use flex_gas.Sched.Types.{Comp, DeviceType, Group, Job, Link, Ptr, ivm_cpu, sched_link_inet}
use flex_gas.Sched.World.{M, Returns, Returns-After, Returns-bind, Returns-mono, World}

-- A group in the tables, with at least one computation, while no mutex is held.
pub record IsReady (group : Ptr) (g : Group) (w : World) : Type 0 where
  pub s_job : Ptr
  pub j : Job
  pub own_job : Job
  pub name : Bytes
  pub entry : Ptr
  pub comp : Comp
  pub entered : find g.jid w.job_tab ≡ some s_job
  pub job_lives : w.jobs s_job ≡ some j
  pub reached : find g.gid j.group_tab ≡ some group
  pub own_lives : w.jobs g.job ≡ some own_job
  pub first_comp : least g.comp_tab ≡ some (name, entry)
  pub comp_lives : w.comps entry ≡ some comp
  pub unlocked : w.held ≡ []

-- The group but for its counters and its tables of devices and PEs.
abbrev pub SameGroup : Group → Option Group → Type 0
SameGroup g none = ⊥
SameGroup g (some g') =
    (g'.jid ≡ g.jid) × (g'.gid ≡ g.gid) × (g'.job ≡ g.job) × (g'.comp_tab ≡ g.comp_tab)

abbrev pub SameTables : Ptr → Group → World → World → Type 0
SameTables group g w w' =
    SameGroup g (w'.groups group)
    × (w'.jobs ≡ w.jobs)
    × (w'.job_tab ≡ w.job_tab)
    × (w'.comps ≡ w.comps)
    × (w'.held ≡ [])

pub sched_create_device-Returns :
    (blank : SagReq) (ports : Ports) (host : Bytes) (link : Link) (dev_type : DeviceType)
    (phy_dev_id group : ℕ) (g : Group) (w : World)
    → w.groups group ≡ some g
    → IsReady group g w
    → Returns
        (λ _ w'. SameTables group g w w')
        (sched_create_device blank ports host link dev_type phy_dev_id group w)
unfolding sched_create_device get_new_device_id create_new_device_id register_device find_job
    find_group request_agent_create_job_group_device create_agent_request submit_agent_request
    accepted is_success
sched_create_device-Returns blank ports host link dev_type phy_dev_id group g w lg ready = ground (
  arith, ready.entered, ready.job_lives, ready.reached, ready.own_lives, ready.first_comp,
  ready.comp_lives, ready.unlocked,
)

IsReady-SameTables :
    (group : Ptr) (g : Group) (w w' : World)
    → IsReady group g w
    → SameTables group g w w'
    → (g' : Group) × (w'.groups group ≡ some g') × IsReady group g' w'
IsReady-SameTables group g w w' ready (same, sj, st, sc, free) =
    elim (Option-cases (w'.groups group)) [
      | inl gone ↦ absurd (rw gone at same)
      | inr (g', lg) ↦
          let (ej, eg, eo, ec) : (g'.jid ≡ g.jid)
              × (g'.gid ≡ g.gid)
              × (g'.job ≡ g.job)
              × (g'.comp_tab ≡ g.comp_tab) =
            rw lg at same in
          (
            g',
            lg,
            record {
              s_job = ready.s_job;
              j = ready.j;
              own_job = ready.own_job;
              name = ready.name;
              entry = ready.entry;
              comp = ready.comp;
              entered = rw (ej, st) ready.entered;
              job_lives = rw sj ready.job_lives;
              reached = rw eg ready.reached;
              own_lives = rw (eo, sj) ready.own_lives;
              first_comp = rw ec ready.first_comp;
              comp_lives = rw sc ready.comp_lives;
              unlocked = free;
            },
          )
    ]

module _ {A : Type 0} (P : A → World → Type 0) (Q : World → Type 0) where
  visit-Returns :
      (pass : M A) (grant : Ptr → M A) (deny : Bool) (create : M (Option Ptr)) (w : World)
      → Q w
      → Returns (λ _ w'. Q w') (create w)
      → ((w' : World) → Q w' → Returns P (pass w'))
      → ((d : Ptr) (w' : World) → Q w' → Returns P (grant d w'))
      → Returns P (visit pass grant deny create w)
  unfolding visit created
  visit-Returns pass grant true create w q made s t = s w q
  visit-Returns pass grant false create w q made s t =
      Returns-bind (λ _ w'. Q w') P (create w) (created pass grant) made go
    where
      go : (d : Option Ptr) (w' : World) → Q w' → Returns P (created pass grant d w')
      go none w' q' = s w' q'
      go (some d) w' q' = t d w' q'

abbrev Ready : Ptr → World → Type 0
Ready group w = (g : Group) × (w.groups group ≡ some g) × IsReady group g w

module _ (create : Bytes → M (Option Ptr)) (group level : ℕ)
    (creates : (host : Bytes) (w : World)
      → Ready group w
      → Returns (λ _ w'. Ready group w') (create host w)) where
  abbrev Any : Found → World → Type 0
  Any _ _ = Unit {0}

  find_loop-Returns :
      (room idx : ℕ) (rs : List Resource) (w : World)
      → Ready group w
      → Returns Any (find_loop create level room idx rs w)
  unfolding find_loop
  find_loop-Returns room idx [] w ready = tt
  find_loop-Returns zero idx (r ∷ rs) w ready = tt
  find_loop-Returns (suc room) idx (r ∷ rs) w ready =
      visit-Returns Any (Ready group) _ _ (denies level r) (create r.hostname) w ready
        (creates r.hostname w ready)
        (λ w' q.
          Returns-bind Any Any (find_loop create level (suc room) (suc idx) rs w') _
            (find_loop-Returns (suc room) (suc idx) rs w' q) (λ out w'' u. tt))
        (λ d w' q.
          Returns-bind Any Any (find_loop create level room (suc idx) rs w') _
            (find_loop-Returns room (suc idx) rs w' q) (λ out w'' u. tt))

sched_create_device-Ready :
    (blank : SagReq) (ports : Ports) (host : Bytes) (link : Link) (dev_type : DeviceType)
    (phy_dev_id group : ℕ) (w : World)
    → Ready group w
    → Returns
        (λ _ w'. Ready group w')
        (sched_create_device blank ports host link dev_type phy_dev_id group w)
sched_create_device-Ready blank ports host link dev_type phy_dev_id group w (g, lg, ready) =
    Returns-mono (λ _ w'. SameTables group g w w') (λ _ w'. Ready group w')
      (sched_create_device blank ports host link dev_type phy_dev_id group w)
      (sched_create_device-Returns blank ports host link dev_type phy_dev_id group g w lg ready)
      (λ _ w' same. IsReady-SameTables group g w w' ready same)

-- For a group that the tables reach, with a computation and while no mutex is held, find_exec_res
-- ends, whichever devices the agents and the channels let it make. Where the counts of the resources
-- are right and the levels of each are distinct, it grants at most `req_num` resources, each at most
-- once, and never one that a group of the same recursion level occupies: on each granted resource
-- the level is not recorded before, and afterwards it stands behind the levels that were recorded,
-- with one occupant more. The counts stay right and the levels distinct.
pub find_exec_res-Returns :
    (blank : SagReq) (ports : Ports) (group req_num : ℕ) (rs : List Resource) (g : Group)
    (w : World)
    → AllConsistent rs
    → w.groups group ≡ some g
    → IsReady group g w
    → Returns
        (λ out _.
          (found : Found) × (out ≡ some found)
          × AllConsistent found.0
          × (length found.1 ≤ req_num)
          × AllMarked g.rec_level 0 rs found.0 found.1
          × Ascending 0 found.1)
        (find_exec_res blank ports true group req_num rs w)
unfolding find_exec_res
find_exec_res-Returns blank ports group req_num rs g w c lg ready =
    let create : Bytes → M (Option Ptr) =
      λ host. sched_create_device blank ports host sched_link_inet ivm_cpu 0 group in
    let run = find_loop create g.rec_level req_num 0 rs w in
    rw (lg, Returns)
      (Returns-bind (λ out w'. Unit {0} × Granted g.rec_level req_num 0 rs out w') _ run _
        (Returns-After (λ _ _. Unit {0}) (Granted g.rec_level req_num 0 rs) run
          (find_loop-Returns create group g.rec_level
            (λ host w' q. sched_create_device-Ready blank ports host _ _ 0 group w' q) req_num 0 rs
            w (g, lg, ready))
          (find_loop-Grants create g.rec_level req_num 0 rs w))
        (λ found w₂ grants. (
          found,
          refl,
          Grants-AllConsistent grants.1 c,
          Grants-length grants.1,
          Grants-AllMarked grants.1 c,
          Grants-Ascending grants.1,
        )))
