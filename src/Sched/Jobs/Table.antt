-- ===== src/Sched/Jobs/Table.antt =====
-- What the job operations of src/vivm/sched/sched_helpers.h do to the job table.
use flex_gas.Container.Map.{bytes_key, erase, find, find-insert, insert, nat_key}
use flex_gas.Prelude.{[], arith, if◌then◌else◌, is_some, none, some, ℕ, ◌%◌, ◌+◌, ◌==◌, ◌≡◌}
use flex_gas.Sched.Find.{find_job}
use flex_gas.Sched.Jobs.{
  create_new_job, create_new_job_id, get_new_job_id, job_args, register_job, u32, unregister_job,
}
use flex_gas.Sched.Requests.{SaaReq}
use flex_gas.Sched.Types.{Job, Ptr}
use flex_gas.Sched.World.{World, done, ret_err, ret_ok, update, ◌>>=◌}

-- A job is entered under its identifier, unless that is taken, and nothing else changes.
pub register_job_lem :
    (job : Ptr) (j : Job) (w : World)
    → w.jobs job ≡ some j
    → w.held ≡ []
    → register_job job w ≡ done ret_ok (record w { job_tab = insert j.jid job w.job_tab })
unfolding register_job
register_job_lem job j w hj free = ground arith

-- An entered job leaves the table, any other is reported, and nothing else changes.
pub unregister_job_lem :
    (job : Ptr) (j : Job) (w : World)
    → w.jobs job ≡ some j
    → w.held ≡ []
    → unregister_job job w ≡ (
        if is_some (find j.jid w.job_tab)
        then done ret_ok (record w { job_tab = erase j.jid w.job_tab })
        else done ret_err w)
unfolding unregister_job
unregister_job_lem job j w hj free = ground arith

-- The structure of a new job.
abbrev pub fresh_job : SaaReq → ℕ → Job
fresh_job req jid = record {
  jid = jid;
  uid = req.head.uid;
  pid = req.head.pid;
  gid_cnt = 0;
  argc = req.data_part.argc;
  argv = req.data_part.argv;
  path = req.data_part.path;
  bin = req.data_part.bin;
  handle = none;
  comp_tab = [];
  group_tab = [];
  mem_tab = [];
}

-- A new job takes the counter for its identifier and moves the counter on modulo 2 ^ 32. Registered
-- under an identifier that was free it is found there, and every other identifier is answered as
-- before; the job is the one of the request, and the mutexes are free.
pub find_job-create_new_job :
    (req : SaaReq) (jid : ℕ) (w : World)
    → w.held ≡ []
    → find w.job_id_cnt w.job_tab ≡ none
    → (create_new_job req >>= λ job. register_job job >>= λ _. find_job jid) w
      ≡ done (if w.job_id_cnt == jid then some w.fresh else find jid w.job_tab) (record w {
        jobs = update w.jobs w.fresh (some (fresh_job req w.job_id_cnt));
        fresh = w.fresh + 1;
        job_tab = insert w.job_id_cnt w.fresh w.job_tab;
        job_id_cnt = (w.job_id_cnt + 1) % u32;
      })
unfolding create_new_job get_new_job_id create_new_job_id register_job find_job job_args
find_job-create_new_job req jid w free new =
    ground (arith, find-insert w.job_id_cnt jid w.fresh w.job_tab)
