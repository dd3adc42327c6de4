-- ===== src/Recursion/Rounds/Group.antt =====
-- `init_group_handler` and `group_sched_routine` of src/vivm/schedlib/sl_recursion/rec_sched.cpp,
-- with the calls of the scheduler's API that they make.
use flex_gas.Container.Map.{bytes_key, find, nat_key}
use flex_gas.Prelude.{
  Bool-cases, List, Option, [], arith, if◌then◌else◌, inl, inr, length, ltb, ltb→lt, map, none,
  some, ℕ, ◌+◌, ◌-◌, ◌<◌, ◌∙◌, ◌∷◌, ◌≡◌, ◌≤◌,
}
use flex_gas.Recursion.Resources.{ExecResource, Resource, release_exec_res}
use flex_gas.Recursion.Rounds.{after_spawn, spawn_on, spawn_pass, spawn_rounds}
use flex_gas.Sched.Api.Pes.{sched_spawn_pes}
use flex_gas.Sched.Events.{
  group_event_pe_exit, sched_ack_event, sched_create_sched_handle, sched_inst_group,
  sched_register_handle, sched_wait_event,
}
use flex_gas.Sched.Pes.{get_current_max_peid}
use flex_gas.Sched.Requests.{SagReq}
use flex_gas.Sched.Types.{Comp, Device, Event, Group, Ptr}
use flex_gas.Sched.World.{M, Ret, World, deref, done, load_comp, pure, ret_ok, ◌>>=◌}

-- schedSpawnPes for one PE of a computation on a device.
unfoldable pub spawn_one : SagReq → Ptr → Ptr → M Ret
spawn_one blank comp device = sched_spawn_pes blank device comp 1 >>= λ out. pure out.0

-- schedWaitEvent, whose event is dropped.
unfoldable pub wait_one : (World → World) → Ptr → M Ret
wait_one others handle = sched_wait_event others handle >>= λ out. pure out.0

-- The handle is stored before it is registered.
unfoldable pub init_group_handler : Event → M (Ret × Ptr)
init_group_handler event = do
  handle ← sched_create_sched_handle
  r ← sched_register_handle handle sched_inst_group event.jid event.gid group_event_pe_exit
  pure (r, handle)

-- The event that started the group, the resources that were granted to it, and the list of all
-- resources, of which the result is what is left; `none` when the rounds are used up. Whether the
-- handle could be registered is not looked at.
unfoldable pub group_sched_routine :
    SagReq
    → (World → World)
    → (rounds : ℕ) → Event
    → List ExecResource
    → List Resource
    → M (Option (List Resource))
group_sched_routine blank others rounds event e_res resources = do
  made ← init_group_handler event
  comp ← deref event.comp
  c ← load_comp comp
  let devices : List Ptr = map (λ e. e.device) e_res
  let wait : M Ret = wait_one others made.1
  spawned ← spawn_rounds (spawn_one blank comp) wait c.config.max_pes_num rounds devices 0
  elim spawned [
    | none ↦ pure none
    | some _ ↦ do
      _ ← sched_ack_event event
      group ← deref event.group
      left ← release_exec_res blank e_res group resources
      pure (some left)
  ]

-- A device whose group runs the computation and has used the PE identifiers up to its maximum.
pub record IsAtLimit (comp : Ptr) (w : World) (device : Ptr) : Type 0 where
  pub d : Device
  pub g : Group
  pub c : Comp
  pub entry : Ptr
  pub cg : Comp
  pub live : w.devices device ≡ some d
  pub group_lives : w.groups d.group ≡ some g
  pub comp_lives : w.comps comp ≡ some c
  pub known : find c.comp_id g.comp_tab ≡ some entry
  pub entry_lives : w.comps entry ≡ some cg
  pub used : cg.config.max_pes_num < g.peid_cnt

abbrev pub AllAtLimit : Ptr → World → List Ptr → Type 0
AllAtLimit comp w [] = Unit {0}
AllAtLimit comp w (d ∷ ds) = IsAtLimit comp w d × AllAtLimit comp w ds

spawn_one-limit :
    (blank : SagReq) (comp device : Ptr) (w : World)
    → IsAtLimit comp w device
    → spawn_one blank comp device w ≡ done ret_ok w
unfolding spawn_one sched_spawn_pes get_current_max_peid
spawn_one-limit blank comp device w at =
    ground (arith, at.live, at.group_lives, at.comp_lives, at.known, at.entry_lives, at.used)

-- What a pass counts where every spawn returns 0.
abbrev pub counted : (max spawned devices : ℕ) → ℕ
counted max spawned devices = if ltb max (spawned + devices) then max else spawned + devices

-- On devices whose groups have used the identifiers up to the maximum of the computation, a pass of
-- group_sched_routine spawns nothing and changes nothing, but counts one PE for each device, until
-- the maximum is reached: these are the PEs whose exits it waits for next.
pub limit_counts_as_spawned :
    (blank : SagReq) (comp max : ℕ) (ds : List Ptr) (spawned active : ℕ) (w : World)
    → AllAtLimit comp w ds
    → spawned ≤ max
    → spawn_pass (spawn_one blank comp) max ds spawned active w
      ≡ done
          (counted max spawned (length ds), active + (counted max spawned (length ds) - spawned))
          w
unfolding spawn_pass spawn_on after_spawn
limit_counts_as_spawned blank comp max [] spawned active w at below = ground arith
limit_counts_as_spawned blank comp max (d ∷ ds) spawned active w (at, more) below =
    elim (Bool-cases (ltb spawned max)) [
      | inl less ↦
          rw (less, spawn_one-limit blank comp d w at)
            (limit_counts_as_spawned blank comp max ds (spawned + 1) (active + 1) w more
                (omega (arith, ltb→lt spawned max less))
              ∙ ground arith)
      | inr full ↦
          rw full
            (limit_counts_as_spawned blank comp max ds spawned active w more below ∙ ground arith)
    ]
