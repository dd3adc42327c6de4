-- ===== src/Sched/World/Channel.antt =====
-- The calls of the channel layer, src/ch/channel.h: each takes its result from the list of `net`
-- that belongs to it, and a send that succeeds is recorded in `sent`.
use flex_gas.Prelude.{ℕ, Bool, true, false, Option, none, some, List, [], ◌∷◌, ◌++◌}
use flex_gas.Sched.Types.{Mr}
use flex_gas.Sched.Requests.{Message, SagReq, SaaReq}
use flex_gas.Sched.World.State.{World}
use flex_gas.Sched.World.Monad.{M, Ret, ret_ok, ret_err, done}

abbrev pub next_result {ℓ} : {A : Type ℓ} → List (Option A) → Option A
next_result [] = none
next_result (r ∷ rs) = r

abbrev pub remaining {ℓ} : {A : Type ℓ} → List A → List A
remaining [] = []
remaining (r ∷ rs) = rs

abbrev pub succeeds : List Bool → Ret
succeeds [] = ret_err
succeeds (true ∷ rs) = ret_ok
succeeds (false ∷ rs) = ret_err

abbrev pub logged : Ret → List (ℕ × Message) → ℕ → Message → List (ℕ × Message)
logged ret_ok sent c m = sent ++ (c, m) ∷ []
logged ret_err sent c m = sent

-- chSend and chSendMr
abbrev pub ch_send : ℕ → Message → M Ret
ch_send c m w =
    let r = succeeds w.net.sends in
    done r (record w {
      net = record (w.net) { sends = remaining w.net.sends };
      sent = logged r w.sent c m;
    })

-- chRecv of a `sag_req`
abbrev pub ch_recv_sag : ℕ → M (Option SagReq)
ch_recv_sag c w = done (next_result w.net.sag_replies) (record w {
  net = record (w.net) { sag_replies = remaining w.net.sag_replies; heard = w.net.heard ++ c ∷ [] };
})

-- chRecv of a `saa_req`
abbrev pub ch_recv_saa : ℕ → M (Option SaaReq)
ch_recv_saa c w = done (next_result w.net.saa_requests) (record w {
  net = record (w.net) {
    saa_requests = remaining w.net.saa_requests;
    heard = w.net.heard ++ c ∷ [];
  };
})

-- chOpen
abbrev pub ch_open : M (Option ℕ)
ch_open w =
    done (next_result w.net.opens)
      (record w { net = record (w.net) { opens = remaining w.net.opens } })

-- chClose
abbrev pub ch_close : ℕ → M Ret
ch_close c w = done (succeeds w.net.closes) (record w {
  net = record (w.net) { closes = remaining w.net.closes; closed = w.net.closed ++ c ∷ [] };
})

abbrev pub region_logged : Option Mr → List (ℕ × Message) → ℕ → Message → List (ℕ × Message)
region_logged none sent c m = sent
region_logged (some r) sent c m = sent ++ (c, m) ∷ []

-- chRegisterMemory
abbrev pub ch_region : ℕ → Message → M (Option Mr)
ch_region c m w =
    let r = next_result w.net.regions in
    done r (record w {
      net = record (w.net) { regions = remaining w.net.regions };
      sent = region_logged r w.sent c m;
    })

-- chRecvMr
abbrev pub ch_recv_mr : ℕ → M (Option Mr)
ch_recv_mr c w = done (next_result w.net.regions) (record w {
  net = record (w.net) { regions = remaining w.net.regions; heard = w.net.heard ++ c ∷ [] };
})

-- chRemoteWriteAsync
abbrev pub ch_write : ℕ → Mr → Mr → M Ret
ch_write c l r w =
    done (succeeds w.net.writes)
      (record w { net = record (w.net) { writes = remaining w.net.writes } })

-- The state behind a send.
abbrev pub after_send : ℕ → Message → World → World
after_send c m w = record w {
  net = record (w.net) { sends = remaining w.net.sends };
  sent = logged (succeeds w.net.sends) w.sent c m;
}
