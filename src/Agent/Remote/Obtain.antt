-- ===== src/Agent/Remote/Obtain.antt =====
-- The job of a request on an agent.
use flex_gas.Agent.Remote.{obtain_job}
use flex_gas.Container.Map.{bytes_key, find, find-insert, insert, nat_key}
use flex_gas.Prelude.{
  Option-cases, [], arith, inl, inr, none, refl, some, some-injective, sym, ℕ, ◌+◌, ◌∙◌, ◌≡◌, ◌≢◌,
}
use flex_gas.Sched.Find.{find_job}
use flex_gas.Sched.Jobs.{create_new_job_id, job_args, register_job}
use flex_gas.Sched.Requests.{SagReq}
use flex_gas.Sched.Types.{Job, Ptr}
use flex_gas.Sched.World.{World, done, update}

-- The job that an agent makes of a request.
abbrev pub agent_job : SagReq → Job
agent_job req = record {
  jid = req.head.jid;
  uid = req.head.uid;
  pid = req.head.pid;
  gid_cnt = 0;
  argc = req.data_part.argc;
  argv = req.data_part.argv;
  path = req.data_part.path;
  bin = req.data_part.bin;
  handle = none;
  comp_tab = [];
  group_tab = [];
  mem_tab = [];
}

-- While no mutex is held: a job that is known is used as it is, and nothing changes. For an unknown
-- one a job is made with the scheduler's identifier and the user, the process and the arguments of
-- the request, and with empty tables; it is entered under that identifier, and every other
-- identifier is answered as before. In both cases the next request of that job finds it without a
-- further change, and the counter of job identifiers is not moved.
pub obtain_job_twice :
    (req req' : SagReq) (w : World)
    → req'.head.jid ≡ req.head.jid
    → w.held ≡ []
    → (p : Ptr) × (w' : World) × (obtain_job req w ≡ done p w')
      × (obtain_job req' w' ≡ done p w')
      × (find req.head.jid w'.job_tab ≡ some p)
      × (w'.job_id_cnt ≡ w.job_id_cnt)
      × (w'.held ≡ [])
      × ((q : Ptr) → find req.head.jid w.job_tab ≡ some q → (p ≡ q) × (w' ≡ w))
      × (find req.head.jid w.job_tab ≡ none
          → (w'.jobs ≡ update w.jobs p (some (agent_job req)))
            × ((jid : ℕ) → jid ≢ req.head.jid → find jid w'.job_tab ≡ find jid w.job_tab))
unfolding obtain_job find_job create_new_job_id register_job job_args
obtain_job_twice req req' w same free = elim (Option-cases (find req.head.jid w.job_tab)) [
  | inl new ↦ (
    w.fresh,
    record w {
      jobs = update w.jobs w.fresh (some (agent_job req));
      fresh = w.fresh + 1;
      job_tab = insert req.head.jid w.fresh w.job_tab;
    },
    ground arith,
    ground (arith, find-insert req.head.jid req.head.jid w.fresh w.job_tab),
    ground (arith, find-insert req.head.jid req.head.jid w.fresh w.job_tab),
    refl,
    free,
    (λ q known. absurd (ground (arith, new, known))),
    λ _. (refl, λ jid other. ground (arith, other, find-insert req.head.jid jid w.fresh w.job_tab)),
  )
  | inr (p, known) ↦ (
    p,
    w,
    ground arith,
    ground arith,
    known,
    refl,
    free,
    (λ q also. (some-injective _ _ (sym known ∙ also), refl)),
    λ new. absurd (ground (arith, new, known)),
  )
]
