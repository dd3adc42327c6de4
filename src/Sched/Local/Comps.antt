-- ===== src/Sched/Local/Comps.antt =====
-- Registering and configuring the computations of a job.
use flex_gas.Container.Map.{bytes_key, find, find-insert, insert, kept, nat_key}
use flex_gas.Prelude.{
  Bytes, Option-cases, [], arith, bytes_eq, false, if◌then◌else◌, inl, inr, none, some, true, ◌+◌,
  ◌≡◌,
}
use flex_gas.Sched.Find.{get_computation_from_table}
use flex_gas.Sched.Jobs.{add_new_computation_to_table}
use flex_gas.Sched.Local.{
  LocalHandler, accept, handle_configure_comp, handle_register_comp, new_comp_t, refuse,
  with_status,
}
use flex_gas.Sched.Local.Foreign.{refused}
use flex_gas.Sched.Requests.{SaaReq, saa}
use flex_gas.Sched.Types.{Comp, Job, Ptr, ivm_any, success}
use flex_gas.Sched.World.{World, after_send, done, ret_err, succeeds, update}

-- A computation that is not yet configured.
abbrev pub unconfigured : SaaReq → Comp
unconfigured req = record {
  comp_id = req.data_part.comp_id;
  ptr = req.data_part.comp_fn_ptr;
  is_configured = false;
  config = record { max_pes_num = 0; type = ivm_any; min_res = 0; req_res = 0; max_res = 0 };
}

-- The state with the new computation in the job.
abbrev pub registered : LocalHandler → SaaReq → Ptr → Job → World → World
registered h req job j w = after_send h.api_channel (saa (with_status req success)) (record w {
  comps = update (update w.comps w.fresh (some new_comp_t)) w.fresh (some (unconfigured req));
  jobs =
      update w.jobs job
        (some (record j { comp_tab = insert req.data_part.comp_id w.fresh j.comp_tab }));
  fresh = w.fresh + 1;
})

module _ (h : LocalHandler) (req : SaaReq) (job : Ptr) (j : Job) (w : World)
    (own : req.head.jid ≡ h.jid) (hj : h.job ≡ some job) (live : w.jobs job ≡ some j)
    (free : w.held ≡ []) where
  -- A program registers a computation: the response carries the return value, the new computation
  -- is not configured and has no PEs, the mutex is free again. It is found under its name if the
  -- name was new; an older computation keeps its name, and every other name is answered as before.
  pub handle_register_comp_lem :
      (other : Bytes)
      → (handle_register_comp h req w ≡ done (h, succeeds w.net.sends) (registered h req job j w))
        × (find other (insert req.data_part.comp_id w.fresh j.comp_tab) ≡ (
            if bytes_eq req.data_part.comp_id other
            then kept (find req.data_part.comp_id j.comp_tab) w.fresh
            else find other j.comp_tab))
  unfolding handle_register_comp add_new_computation_to_table accept
  handle_register_comp_lem other =
      (ground arith, find-insert req.data_part.comp_id other w.fresh j.comp_tab)

  -- A program configures a computation, on both branches: under a known name its configuration
  -- becomes that of the request and it counts as configured; an unknown name is refused and changes
  -- nothing.
  pub handle_configure_comp_lem :
      (c : Comp)
      → ((p : Ptr) → find req.data_part.comp_id j.comp_tab ≡ some p → w.comps p ≡ some c)
      → handle_configure_comp h req w ≡ (elim (find req.data_part.comp_id j.comp_tab) [
        | none ↦ done (h, ret_err) (refused h req w)
        | some p ↦
            done
              (h, succeeds w.net.sends)
              (after_send h.api_channel (saa (with_status req success)) (record w {
                comps =
                    update w.comps p (
                      some (record c { config = req.data_part.comp_config; is_configured = true }));
              }))
      ])
  unfolding handle_configure_comp get_computation_from_table accept refuse
  handle_configure_comp_lem c lives = elim (Option-cases (find req.data_part.comp_id j.comp_tab)) [
    | inl unknown ↦ ground arith
    | inr (p, known) ↦ let lc = lives p known in ground arith
  ]
