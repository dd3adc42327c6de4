-- ===== src/Sched/Remote/Missing.antt =====
-- An agent whose device is not in the table of its group.
use flex_gas.Container.Map.{bytes_key, find, nat_key}
use flex_gas.Prelude.{Bool, List, [], arith, none, some, true, ℕ, ◌∷◌, ◌≡◌}
use flex_gas.Sched.Find.{find_device}
use flex_gas.Sched.Remote.{
  RemoteHandler, add_memory_entry, answer_patch, answered, close_agent, handle_add_memory_entry,
  handle_notify_pe_done, handle_unregister_agent, patch_device, refuse_agent,
}
use flex_gas.Sched.Requests.{SagReq, sag}
use flex_gas.Sched.Types.{Group, Ptr, failed}
use flex_gas.Sched.World.{World, after_send, done, fault, ret_err}

module _ (h : RemoteHandler) (req : SagReq) (group : Ptr) (g : Group) (w : World)
    (hg : h.group ≡ some group) (live : w.groups group ≡ some g) (unpatched : h.device ≡ none)
    (unknown : find req.head.did g.device_tab ≡ none) where
  -- The device of the request is not registered, and the answers get through: HandleUnregisterAgent
  -- and HandleAddMemoryEntry go on to the NULL device and fault.
  pub missing_device_faults :
      (more : List Bool)
      → w.net.sends ≡ true ∷ true ∷ more
      → w.held ≡ []
      → (handle_unregister_agent h req w ≡ fault) × (handle_add_memory_entry h req w ≡ fault)
  unfolding handle_unregister_agent handle_add_memory_entry patch_device answer_patch find_device
      close_agent add_memory_entry
  missing_device_faults more sends free = (ground arith, ground arith)

  -- HandleNotifyPeDone does return: the answer is `failed` and nothing else changes.
  pub missing_device_refused :
      (others : World → World) (rounds : ℕ)
      → handle_notify_pe_done others rounds h req w
        ≡ done (h, ret_err) (after_send h.agent_channel (sag (answered req failed)) w)
  unfolding handle_notify_pe_done patch_device find_device refuse_agent
  missing_device_refused others rounds = ground arith
