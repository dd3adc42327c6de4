-- ===== src/Sched/Local/Session.antt =====
-- The life of a connection from a program.
use flex_gas.Container.Map.{bytes_key, insert, nat_key}
use flex_gas.Prelude.{
  List, Option, [], arith, false, none, some, suc, true, ℕ, ◌%◌, ◌++◌, ◌+◌, ◌∷◌, ◌≡◌,
}
use flex_gas.Sched.Jobs.{
  create_new_job, create_new_job_id, get_new_job_id, job_args, register_job, u32,
}
use flex_gas.Sched.Jobs.Table.{fresh_job}
use flex_gas.Sched.Local.{
  LocalHandler, accept, dispatch, execute, execute_loop, handle_register_pe, handle_unregister_pe,
  is_local, refuse, with_ids, with_status,
}
use flex_gas.Sched.Requests.{SaaReq, saa}
use flex_gas.Sched.Types.{local, saa_register_pe, saa_unregister_pe, success}
use flex_gas.Sched.World.{World, done, remaining, update}

-- While no scheduling thread listens to the system and no mutex is held, a new program registers and,
-- with no computation launched, unregisters under the job identifier it was given, and both answers
-- get through: both requests are answered, the channel of the program is closed, the requests
-- behind are not read, and two rounds of the loop are enough. The job of the program stays in the
-- table.
pub execute_session :
    (others : World → World) (rounds more_rounds : ℕ) (h : LocalHandler) (reg unreg : SaaReq)
    (more : List (Option SaaReq)) (w : World)
    → h.terminate ≡ false
    → reg.head.type ≡ local
    → unreg.head.type ≡ local
    → reg.data_part.type ≡ saa_register_pe
    → unreg.data_part.type ≡ saa_unregister_pe
    → unreg.head.jid ≡ w.job_id_cnt
    → w.net.saa_requests ≡ some reg ∷ some unreg ∷ more
    → w.net.sends ≡ true ∷ true ∷ []
    → w.sys_handle ≡ none
    → w.held ≡ []
    → execute others rounds (suc (suc more_rounds)) h w
      ≡ done tt (record w {
        jobs = update w.jobs w.fresh (some (fresh_job reg w.job_id_cnt));
        fresh = w.fresh + 1;
        job_tab = insert w.job_id_cnt w.fresh w.job_tab;
        job_id_cnt = (w.job_id_cnt + 1) % u32;
        net = record (w.net) {
          saa_requests = more;
          heard = (w.net.heard ++ h.api_channel ∷ []) ++ h.api_channel ∷ [];
          sends = [];
          closes = remaining w.net.closes;
          closed = w.net.closed ++ h.api_channel ∷ [];
        };
        sent =
            (w.sent ++ (h.api_channel, saa (with_ids reg success w.job_id_cnt)) ∷ [])
            ++ (h.api_channel, saa (with_status unreg success)) ∷ [];
      })
unfolding execute execute_loop dispatch is_local handle_register_pe create_new_job get_new_job_id
    create_new_job_id register_job job_args handle_unregister_pe accept refuse
execute_session others rounds more_rounds h reg unreg more w going loc_r loc_u kind_r kind_u own
      queue sends unwatched free =
    ground arith
