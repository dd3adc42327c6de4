-- ===== src/Sched/Api/Submit.antt =====
-- The exchange of a request with an agent.
use flex_gas.Prelude.{[], arith, none, some, ◌++◌, ◌∷◌, ◌≡◌}
use flex_gas.Sched.Api.{submit_agent_request}
use flex_gas.Sched.Requests.{SagReq, sag}
use flex_gas.Sched.Types.{Device, Ptr}
use flex_gas.Sched.World.{World, done, next_result, remaining, ret_err, ret_ok, succeeds}

-- The state behind an exchange whose send succeeded.
abbrev pub exchanged : World → Device → SagReq → World
exchanged w d req = record w {
  net = record (w.net) {
    sends = remaining w.net.sends;
    sag_replies = remaining w.net.sag_replies;
    heard = w.net.heard ++ d.request_ch ∷ [];
  };
  sent = w.sent ++ (d.request_ch, sag req) ∷ [];
}

-- A request goes out once on the device's channel under the device's mutex. The result is the reply
-- where both transfers succeed and -1 where one fails; no reply is taken after a send that failed,
-- and the mutex is free again on every way.
pub submit_agent_request_lem :
    (req : SagReq) (device : Ptr) (d : Device) (w : World)
    → w.devices device ≡ some d
    → w.held ≡ []
    → submit_agent_request req device w ≡ (elim (succeeds w.net.sends) [
      | ret_ok ↦ done (next_result w.net.sag_replies) (exchanged w d req)
      | ret_err ↦ done none (record w { net = record (w.net) { sends = remaining w.net.sends } })
    ])
unfolding submit_agent_request
submit_agent_request_lem req device d w hd free = ground arith
