-- ===== src/Sched/Remote/Loop.antt =====
-- SchedRemoteHandler::Execute of src/vivm/sched/sched_threads.cpp.
use flex_gas.Prelude.{Bool, false, none, some, suc, true, zero, ℕ}
use flex_gas.Sched.Remote.{
  RemoteHandler, answered, handle_add_memory_entry, handle_agent_launch_comp, handle_notify_pe_done,
  handle_query_memory, handle_register_agent, handle_remove_memory_entry, handle_unregister_agent,
  respond_agent,
}
use flex_gas.Sched.Requests.{SagReq}
use flex_gas.Sched.Types.{
  ReqType, SagReqType, failed, local, remote, sag_sched_add_memory_entry, sag_sched_launch_comp,
  sag_sched_notify_pe_done, sag_sched_query_memory, sag_sched_register_agent,
  sag_sched_remove_memory_entry, sag_sched_unregister_agent,
}
use flex_gas.Sched.World.{M, World, blocked, ch_recv_sag, pure, ◌>>=◌}

-- The kinds of request that the scheduler serves; the rest are for agents.
unfoldable pub remote_dispatch :
    (World → World) → ℕ → RemoteHandler → SagReq → SagReqType → M RemoteHandler
remote_dispatch others rounds h req sag_sched_register_agent = do
  r ← handle_register_agent h req
  pure r.0
remote_dispatch others rounds h req sag_sched_unregister_agent = do
  r ← handle_unregister_agent h req
  pure r.0
remote_dispatch others rounds h req sag_sched_notify_pe_done = do
  r ← handle_notify_pe_done others rounds h req
  pure r.0
remote_dispatch others rounds h req sag_sched_add_memory_entry = do
  r ← handle_add_memory_entry h req
  pure r.0
remote_dispatch others rounds h req sag_sched_remove_memory_entry = do
  r ← handle_remove_memory_entry h req
  pure r.0
remote_dispatch others rounds h req sag_sched_query_memory = do
  r ← handle_query_memory h req
  pure r.0
remote_dispatch others rounds h req sag_sched_launch_comp = do
  r ← handle_agent_launch_comp others rounds h req
  pure r.0
remote_dispatch others rounds h req other = do _ ← respond_agent h (answered req failed); pure h

unfoldable pub is_remote : ReqType → Bool
is_remote local = false
is_remote remote = true

-- The loop, `requests` rounds at most. It leaves the channel open.
unfoldable pub remote_loop : (World → World) → ℕ → ℕ → RemoteHandler → M (Unit {0})
remote_loop others rounds zero h = λ w. blocked
remote_loop others rounds (suc k) h = do
  got ← ch_recv_sag h.agent_channel
  elim got [
    | none ↦ pure tt
    | some req ↦ elim (is_remote req.head.type) [
      | false ↦ pure tt
      | true ↦ do
        h' ← remote_dispatch others rounds h req req.data_part.type
        elim h'.terminate [ true ↦ pure tt | false ↦ remote_loop others rounds k h' ]
    ]
  ]
