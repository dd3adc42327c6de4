-- ===== src/Sched/World/Heaps.antt =====
-- Objects on the heaps: `new`, reads and writes through a pointer, `delete`. A read of a pointer
-- under which no object lives is a fault.
use flex_gas.Prelude.{ℕ, ◌+◌, Option, none, some, Bool, List}
use flex_gas.Sched.Types.{Ptr, Comp, Device, Group, Job, MemEt, Pe, Tnotif}
use flex_gas.Sched.World.Monad.{M, done, fault, and_then}
use flex_gas.Sched.World.State.{update}

abbrev loaded : {A : Type 0} → Option A → M A
loaded none w = fault
loaded (some a) w = done a w

abbrev pub load_job : Ptr → M Job
load_job p w = loaded (w.jobs p) w

abbrev pub store_job : Ptr → Job → M (Unit {0})
store_job p a w = done tt (record w { jobs = update w.jobs p (some a) })

abbrev pub new_job : Job → M Ptr
new_job a w = done w.fresh (record w { jobs = update w.jobs w.fresh (some a); fresh = w.fresh + 1 })

abbrev pub delete_job : Ptr → M (Unit {0})
delete_job p w =
    and_then (loaded (w.jobs p) w) (λ _ w'. done tt (record w' { jobs = update w'.jobs p none }))

abbrev pub load_group : Ptr → M Group
load_group p w = loaded (w.groups p) w

abbrev pub store_group : Ptr → Group → M (Unit {0})
store_group p a w = done tt (record w { groups = update w.groups p (some a) })

abbrev pub new_group : Group → M Ptr
new_group a w =
    done w.fresh (record w { groups = update w.groups w.fresh (some a); fresh = w.fresh + 1 })

abbrev pub delete_group : Ptr → M (Unit {0})
delete_group p w =
    and_then (loaded (w.groups p) w)
      (λ _ w'. done tt (record w' { groups = update w'.groups p none }))

abbrev pub load_device : Ptr → M Device
load_device p w = loaded (w.devices p) w

abbrev pub store_device : Ptr → Device → M (Unit {0})
store_device p a w = done tt (record w { devices = update w.devices p (some a) })

abbrev pub new_device : Device → M Ptr
new_device a w =
    done w.fresh (record w { devices = update w.devices w.fresh (some a); fresh = w.fresh + 1 })

abbrev pub delete_device : Ptr → M (Unit {0})
delete_device p w =
    and_then (loaded (w.devices p) w)
      (λ _ w'. done tt (record w' { devices = update w'.devices p none }))

abbrev pub load_pe : Ptr → M Pe
load_pe p w = loaded (w.pes p) w

abbrev pub store_pe : Ptr → Pe → M (Unit {0})
store_pe p a w = done tt (record w { pes = update w.pes p (some a) })

abbrev pub new_pe : Pe → M Ptr
new_pe a w = done w.fresh (record w { pes = update w.pes w.fresh (some a); fresh = w.fresh + 1 })

abbrev pub delete_pe : Ptr → M (Unit {0})
delete_pe p w =
    and_then (loaded (w.pes p) w) (λ _ w'. done tt (record w' { pes = update w'.pes p none }))

abbrev pub load_comp : Ptr → M Comp
load_comp p w = loaded (w.comps p) w

abbrev pub store_comp : Ptr → Comp → M (Unit {0})
store_comp p a w = done tt (record w { comps = update w.comps p (some a) })

abbrev pub new_comp : Comp → M Ptr
new_comp a w =
    done w.fresh (record w { comps = update w.comps w.fresh (some a); fresh = w.fresh + 1 })

abbrev pub delete_comp : Ptr → M (Unit {0})
delete_comp p w =
    and_then (loaded (w.comps p) w) (λ _ w'. done tt (record w' { comps = update w'.comps p none }))

abbrev pub load_entry : Ptr → M MemEt
load_entry p w = loaded (w.entries p) w

abbrev pub store_entry : Ptr → MemEt → M (Unit {0})
store_entry p a w = done tt (record w { entries = update w.entries p (some a) })

abbrev pub new_entry : MemEt → M Ptr
new_entry a w =
    done w.fresh (record w { entries = update w.entries w.fresh (some a); fresh = w.fresh + 1 })

abbrev pub delete_entry : Ptr → M (Unit {0})
delete_entry p w =
    and_then (loaded (w.entries p) w)
      (λ _ w'. done tt (record w' { entries = update w'.entries p none }))

abbrev pub load_handle : Ptr → M Tnotif
load_handle p w = loaded (w.handles p) w

abbrev pub store_handle : Ptr → Tnotif → M (Unit {0})
store_handle p a w = done tt (record w { handles = update w.handles p (some a) })

abbrev pub new_handle : Tnotif → M Ptr
new_handle a w =
    done w.fresh (record w { handles = update w.handles w.fresh (some a); fresh = w.fresh + 1 })

abbrev pub delete_handle : Ptr → M (Unit {0})
delete_handle p w =
    and_then (loaded (w.handles p) w)
      (λ _ w'. done tt (record w' { handles = update w'.handles p none }))

abbrev pub load_ack : Ptr → M ℕ
load_ack p w = loaded (w.acks p) w

abbrev pub store_ack : Ptr → ℕ → M (Unit {0})
store_ack p a w = done tt (record w { acks = update w.acks p (some a) })

abbrev pub new_ack : ℕ → M Ptr
new_ack a w = done w.fresh (record w { acks = update w.acks w.fresh (some a); fresh = w.fresh + 1 })

abbrev pub delete_ack : Ptr → M (Unit {0})
delete_ack p w =
    and_then (loaded (w.acks p) w) (λ _ w'. done tt (record w' { acks = update w'.acks p none }))

abbrev pub load_notif : Ptr → M (List Bool)
load_notif p w = loaded (w.notifs p) w

abbrev pub store_notif : Ptr → List Bool → M (Unit {0})
store_notif p a w = done tt (record w { notifs = update w.notifs p (some a) })

abbrev pub new_notif : List Bool → M Ptr
new_notif a w =
    done w.fresh (record w { notifs = update w.notifs w.fresh (some a); fresh = w.fresh + 1 })
