-- ===== src/Sched/Local/Foreign.antt =====
-- Requests that name another job than the handler's.
use flex_gas.Prelude.{arith, ℕ, ◌≡◌, ◌≢◌}
use flex_gas.Sched.Local.{
  LocalHandler, handle_configure_comp, handle_launch_comp, handle_register_comp,
  handle_unregister_pe, refuse, with_status,
}
use flex_gas.Sched.Requests.{SaaReq, saa}
use flex_gas.Sched.Types.{failed}
use flex_gas.Sched.World.{World, after_send, done, ret_err}

-- The state behind a refusal: the answer is sent where the channel takes it, and nothing else.
abbrev pub refused : LocalHandler → SaaReq → World → World
refused h req w = after_send h.api_channel (saa (with_status req failed)) w

-- Every request of a program but the registration and the allocation is refused where its job is
-- not the handler's: the return value is -1, the answer says `failed`, and no table, object, mutex
-- or counter changes.
pub foreign_job_refused :
    (others : World → World) (rounds : ℕ) (h : LocalHandler) (req : SaaReq) (w : World)
    → req.head.jid ≢ h.jid
    → (handle_unregister_pe h req w ≡ done (h, ret_err) (refused h req w))
      × (handle_register_comp h req w ≡ done (h, ret_err) (refused h req w))
      × (handle_configure_comp h req w ≡ done (h, ret_err) (refused h req w))
      × (handle_launch_comp others rounds h req w ≡ done (h, ret_err) (refused h req w))
unfolding handle_unregister_pe handle_register_comp handle_configure_comp handle_launch_comp refuse
foreign_job_refused others rounds h req w foreign =
    (ground arith, ground arith, ground arith, ground arith)
