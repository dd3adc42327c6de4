-- ===== src/Sched/Events/Handles.antt =====
-- Which handles the scheduling library can register.
use flex_gas.Container.Map.{bytes_key, find, nat_key}
use flex_gas.Prelude.{Option-cases, [], arith, if◌then◌else◌, inl, inr, none, some, ℕ, ◌==◌, ◌≡◌}
use flex_gas.Sched.Events.{
  instance_of, register_handle_group, register_handle_job, sched_inst_group, sched_inst_job,
}
use flex_gas.Sched.Find.{find_group, find_job}
use flex_gas.Sched.Types.{Group, Job, Ptr, Tnotif}
use flex_gas.Sched.World.{World, done, ret_err, ret_ok, update}

-- The handle of a job, on every branch: a mask of another instance and a job that is not in the
-- table are refused without a change; else the handle takes the mask and becomes the job's. The
-- mutex is free again.
pub register_handle_job_lem :
    (handle jid mask : ℕ) (tn : Tnotif) (j : Job) (w : World)
    → w.handles handle ≡ some tn
    → w.held ≡ []
    → ((p : Ptr) → find jid w.job_tab ≡ some p → w.jobs p ≡ some j)
    → register_handle_job handle jid mask w ≡ (
        if instance_of mask == sched_inst_job
        then (elim (find jid w.job_tab) [
          | none ↦ done ret_err w
          | some p ↦ done ret_ok (record w {
            handles = update w.handles handle (some (record tn { mask = mask }));
            jobs = update w.jobs p (some (record j { handle = some handle }));
          })
        ])
        else done ret_err w)
unfolding register_handle_job find_job
register_handle_job_lem handle jid mask tn j w ht free live =
    elim (Option-cases (find jid w.job_tab)) [
      | inl unknown ↦ ground arith
      | inr (p, known) ↦ let lj = live p known in ground arith
    ]

-- The handle of a group, under a mask for a group and a job in the table: a group that its job does
-- not have is refused without a change, with both mutexes given back; else the handle takes the
-- mask and becomes the group's.
pub register_handle_group_lem :
    (handle jid gid mask p : ℕ) (tn : Tnotif) (j : Job) (g : Group) (w : World)
    → w.handles handle ≡ some tn
    → w.held ≡ []
    → instance_of mask ≡ sched_inst_group
    → find jid w.job_tab ≡ some p
    → w.jobs p ≡ some j
    → ((q : Ptr) → find gid j.group_tab ≡ some q → w.groups q ≡ some g)
    → register_handle_group handle jid gid mask w ≡ (elim (find gid j.group_tab) [
      | none ↦ done ret_err w
      | some q ↦ done ret_ok (record w {
        handles = update w.handles handle (some (record tn { mask = mask }));
        groups = update w.groups q (some (record g { handle = some handle }));
      })
    ])
unfolding register_handle_group find_job find_group
register_handle_group_lem handle jid gid mask p tn j g w ht free right known lj live =
    elim (Option-cases (find gid j.group_tab)) [
      | inl unknown ↦ ground arith
      | inr (q, there) ↦ let lg = live q there in ground arith
    ]
