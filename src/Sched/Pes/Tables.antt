-- ===== src/Sched/Pes/Tables.antt =====
-- What registration and its undoing do to the PE tables of a group.
use flex_gas.Container.Map.{Map, bytes_key, erase, find, insert, nat_key}
use flex_gas.Prelude.{
  List, [], arith, if◌then◌else◌, is_some, some, ℕ, ◌&&◌, ◌==◌, ◌∷◌, ◌≡◌, ◌≢◌, ◌⊎◌,
}
use flex_gas.Sched.Pes.{
  belong_together, drop_pe, register_pes, register_pes_loop, unregister_peid, unregister_peids,
  unregister_peids_loop, unregister_pes, unregister_pes_loop,
}
use flex_gas.Sched.Types.{Device, Group, Job, Pe, Ptr}
use flex_gas.Sched.World.{World, done, ret_err, ret_ok, update}

-- The state with another PE table in a group.
abbrev pub with_pe_tab : World → Ptr → Group → Map ℕ Ptr → World
with_pe_tab w group g t = record w {
  groups = update w.groups group (some (record g { pe_tab = t }));
}

-- One registered PE: it is in the table afterwards, unless its identifier was taken.
pub register_pes_one :
    (job group device p : Ptr) (g : Group) (d : Device) (pe : Pe) (w : World)
    → w.groups group ≡ some g
    → w.devices device ≡ some d
    → w.pes p ≡ some pe
    → g.job ≡ job
    → d.group ≡ group
    → d.job ≡ job
    → w.held ≡ []
    → register_pes job group device (p ∷ []) w
      ≡ done ret_ok (with_pe_tab w group g (insert pe.peid p g.pe_tab))
unfolding register_pes belong_together register_pes_loop
register_pes_one job group device p g d pe w hg hd hp own dg dj free = ground arith

-- The three checks guard the table: where one fails nothing changes and -1 is returned.
pub register_pes_refused :
    (job group device : Ptr) (ps : List Ptr) (g : Group) (d : Device) (w : World)
    → w.groups group ≡ some g
    → w.devices device ≡ some d
    → (g.job ≢ job) ⊎ (d.group ≢ group) ⊎ (d.job ≢ job)
    → register_pes job group device ps w ≡ done ret_err w
unfolding register_pes belong_together
register_pes_refused job group device ps g d w hg hd wrong = ground arith

-- unregister_pes of one PE, on every branch: a PE that belongs to the job, the group and the device
-- and whose identifier is in the table leaves it; any other is answered with -1 and no change.
pub unregister_pes_one :
    (job group device p : Ptr) (g : Group) (pe : Pe) (w : World)
    → w.groups group ≡ some g
    → w.pes p ≡ some pe
    → w.held ≡ []
    → unregister_pes job group device (p ∷ []) w ≡ (
        if (pe.job == job)
          && (pe.group == group)
          && (pe.device == device)
          && is_some (find pe.peid g.pe_tab)
        then done ret_ok (with_pe_tab w group g (erase pe.peid g.pe_tab))
        else done ret_err w)
unfolding unregister_pes unregister_pes_loop
unregister_pes_one job group device p g pe w hg hp free = ground arith

-- unregister_pes by identifier, for a PE that is in the table: it is erased where its job, group
-- and device are the given ones, and otherwise the answer is -1 and nothing changes. The mutex is
-- free again on both ways, and the waiting loop is not entered.
pub unregister_peids_present :
    (others : World → World) (rounds : ℕ) (job group device i p : Ptr) (g : Group) (pe : Pe)
    (pj j : Job) (w : World)
    → w.groups group ≡ some g
    → find i g.pe_tab ≡ some p
    → w.pes p ≡ some pe
    → w.jobs pe.job ≡ some pj
    → w.jobs job ≡ some j
    → w.held ≡ []
    → unregister_peids others rounds job group device (i ∷ []) w ≡ (
        if (pj.jid == j.jid) && (pe.group == group) && (pe.device == device)
        then done ret_ok (with_pe_tab w group g (erase i g.pe_tab))
        else done ret_err w)
unfolding unregister_peids unregister_peids_loop unregister_peid drop_pe
unregister_peids_present others rounds job group device i p g pe pj j w hg hi hp hpj hj free =
    ground arith
