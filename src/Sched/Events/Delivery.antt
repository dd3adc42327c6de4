-- ===== src/Sched/Events/Delivery.antt =====
-- From an event to the scheduling library: the mask, the queue, polling and acknowledgement.
use Prim.Native.Nat.{bit_and}
use flex_gas.Prelude.{[], arith, if◌then◌else◌, none, some, suc, ℕ, ◌++◌, ◌==◌, ◌∙◌, ◌∷◌, ◌≡◌}
use flex_gas.Sched.Events.{
  destroy_event, poll_ack, queue_event, sched_ack_event, sched_poll_event, take_event,
  wait_event_ack,
}
use flex_gas.Sched.Types.{Event, Ptr, Tnotif, sched_event_busy_wait}
use flex_gas.Sched.World.{World, done, ret_ok, update, ◌>>=◌}

-- An event whose bits the mask has goes to the end of the queue; any other is dropped. The mutex
-- is free again.
pub queue_event_lem :
    (handle : Ptr) (type : ℕ) (event : Event) (tn : Tnotif) (w : World)
    → w.handles handle ≡ some tn
    → w.held ≡ []
    → queue_event handle type event w ≡ (
        if bit_and tn.mask type == type
        then done tt (record w {
          handles = update w.handles handle (some (record tn { queue = tn.queue ++ event ∷ [] }));
        })
        else done tt w)
unfolding queue_event
queue_event_lem handle type event tn w ht free = ground arith

-- Polling takes the oldest event, and reports an empty queue without a change.
pub sched_poll_event_lem :
    (handle : Ptr) (tn : Tnotif) (w : World)
    → w.handles handle ≡ some tn
    → w.held ≡ []
    → sched_poll_event handle w ≡ (elim tn.queue [
      | [] ↦ done none w
      | e ∷ es ↦
          done
            (some e)
            (record w { handles = update w.handles handle (some (record tn { queue = es })) })
    ])
unfolding sched_poll_event take_event
sched_poll_event_lem handle tn w ht free = ground arith

-- A busy wait that has been acknowledged ends at the first look, whatever the other threads do
-- before it, as long as they leave the cell of the acknowledgement alone; the cell is then given
-- back, and all else is as they have left it.
pub wait_event_ack-sched_ack_event :
    (others : World → World) (rounds : ℕ) (event : Event) (p : Ptr) (n : ℕ) (w : World)
    → ((v : World) → (others v).acks p ≡ v.acks p)
    → event.ack_type ≡ sched_event_busy_wait
    → event.ack ≡ some p
    → w.acks p ≡ some n
    → (sched_ack_event event >>= λ _.
          wait_event_ack others (suc rounds) event >>= λ _. destroy_event event)
        w
      ≡ (let w' : World = others (record w { acks = update w.acks p (some 1) }) in
          done ret_ok (record w' { acks = update w'.acks p none }))
unfolding sched_ack_event wait_event_ack poll_ack destroy_event
wait_event_ack-sched_ack_event others rounds event p n w still kind cell live =
    let w₁ : World = record w { acks = update w.acks p (some 1) } in
    let known : (others w₁).acks p ≡ some 1 = still w₁ ∙ ground arith in ground arith
