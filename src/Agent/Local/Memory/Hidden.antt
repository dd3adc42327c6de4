-- ===== src/Agent/Local/Memory/Hidden.antt =====
-- A second global object of one name, allocated by an agent.
use flex_gas.Agent.Local.{AgentLocalHandler, PeHandled, refuse_pe}
use flex_gas.Agent.Local.Memory.{agent_mem_alloc, announce, publish_entry}
use flex_gas.Agent.Remote.{submit_sched_request}
use flex_gas.Container.Map.{bytes_key, find, find-insert, insert, nat_key}
use flex_gas.Prelude.{
  Bool, List, Option, [], ap, arith, bytes_eq_iff, none, refl, some, true, ℕ, ◌++◌, ◌∷◌, ◌≡◌,
}
use flex_gas.Sched.Api.{create_agent_request, submit_agent_request}
use flex_gas.Sched.Find.{find_memory_entry_group, is_global}
use flex_gas.Sched.Local.{with_status}
use flex_gas.Sched.Memory.{
  allocate_master_object, clipped, create_memory_entry, decorate_mem_id, register_mem_entry,
  register_mem_entry_root, register_twice,
}
use flex_gas.Sched.Requests.{Message, SaaReq, SagReq, saa}
use flex_gas.Sched.Types.{Device, Group, Job, Mr, Ptr, success}
use flex_gas.Sched.World.{
  After, After-any, After-bind, M, Ret, Returns, Returns-After, Returns-mono, Run, World, and_then,
  ch_send, deref, load_device, load_entry, load_group, load_job, pure, ret_err, ret_ok,
}

-- A request to allocate that returns 0 has answered the PE `success`, on its own channel and with a
-- region, as the last thing that it sent.
abbrev Answered : AgentLocalHandler → SaaReq → PeHandled → World → Type 0
Answered h req r w =
    r.1 ≡ ret_ok
    → (mr : Mr) × (log : List (ℕ × Message)) × (w.sent
        ≡ log
          ++ (
            h.api_channel,
            saa (
                with_status (record req { data_part = record (req.data_part) { mr = mr } })
                  success),
          )
            ∷ [])

ch_send-After :
    (c : ℕ) (m : Message) (w : World)
    → After (λ r w'. r ≡ ret_ok → w'.sent ≡ w.sent ++ (c, m) ∷ []) (ch_send c m w)
ch_send-After c m w went = rw went refl

refuse_pe-After :
    (h : AgentLocalHandler) (req : SaaReq) (w : World) → After (Answered h req) (refuse_pe h req w)
unfolding refuse_pe
refuse_pe-After h req w e = absurd (ground (arith, e))

module _ {A B : Type 0} (P : B → World → Type 0) (none_case : M B) (some_case : A → M B) where
  option-After :
      (o : Option A) (w : World)
      → After P (none_case w)
      → ((a : A) → After P (some_case a w))
      → After P ((elim o as (λ _. M B) [ none ↦ none_case | some a ↦ some_case a ]) w)
  option-After none w n s = n
  option-After (some a) w n s = s a

module _ {B : Type 0} (P : B → World → Type 0) (err_case ok_case : M B) where
  ret-After :
      (r : Ret) (w : World)
      → After P (err_case w)
      → After P (ok_case w)
      → After P ((elim r as (λ _. M B) [ ret_err ↦ err_case | ret_ok ↦ ok_case ]) w)
  ret-After ret_err w e o = e
  ret-After ret_ok w e o = o

-- What holds whatever the first run gives.
After-then :
    {A B : Type 0} (P : B → World → Type 0) (r : Run A) (k : A → M B)
    → ((a : A) (w : World) → After P (k a w))
    → After P (and_then r k)
After-then P r k next = After-bind (λ _ _. Unit {0}) P r k (After-any r) (λ a w _. next a w)

publish_entry-After :
    (blank : SagReq) (h : AgentLocalHandler) (req : SaaReq) (device entry : Ptr) (w : World)
    → After (Answered h req) (publish_entry blank h req device entry w)
unfolding publish_entry
publish_entry-After blank h req device entry w =
    let P = Answered h req in
    After-then P (register_mem_entry entry req.data_part.mem_flags w) _ λ r w₁.
      ret-After P _ _ r w₁ (refuse_pe-After h req w₁) (
        After-then P (announce blank req w₁) _ λ sched_req w₂.
          After-then P (submit_sched_request sched_req device w₂) _ λ reply w₃.
            option-After P _ _ reply w₃ (refuse_pe-After h req w₃) λ _.
              After-then P (load_entry entry w₃) _ λ e w₄. After-then P (deref e.mr w₄) _ λ mr w₅.
                let req' : SaaReq = record req { data_part = record (req.data_part) { mr = mr } } in
                let answer : Message = saa (with_status req' success) in
                After-bind (λ r w'. r ≡ ret_ok → w'.sent ≡ w₅.sent ++ (h.api_channel, answer) ∷ [])
                  P (ch_send h.api_channel answer w₅) (λ r'. pure (h, r'))
                  (ch_send-After h.api_channel answer w₅) λ r' w₆ went e'. (mr, w₅.sent, went e'))

agent_mem_alloc-After :
    (blank : SagReq) (h : AgentLocalHandler) (req : SaaReq) (w : World)
    → After (Answered h req) (agent_mem_alloc blank h req w)
unfolding agent_mem_alloc
agent_mem_alloc-After blank h req w =
    let P = Answered h req in
    After-then P (deref h.group w) _ λ group w₁.
      After-then P (find_memory_entry_group group req.data_part.mem_id w₁) _ λ known w₂.
        option-After P _ _ known w₂
          (After-then P (deref h.job w₂) _ λ job w₃. After-then P (deref h.device w₃) _ λ device w₄.
            After-then P (load_job job w₄) _ λ j w₅. After-then P (load_group group w₅) _ λ g w₆.
              After-then P (load_device device w₆) _ λ d w₇.
                After-then P
                  (allocate_master_object j.jid g.gid d.did job group device h.api_channel
                    req.data_part.mem_size req.data_part.mem_id req.data_part.mem_flags w₇)
                  _
                  λ made w₈.
                    option-After P _ _ made w₈ (refuse_pe-After h req w₈)
                      λ entry. publish_entry-After blank h req device entry w₈)
          (λ _. refuse_pe-After h req w₂)

agent_mem_alloc_state :
    (blank reply : SagReq) (h : AgentLocalHandler) (req : SaaReq) (job group device old : Ptr)
    (j : Job) (g : Group) (d : Device) (shm_mr mr : Mr) (more_regions : List (Option Mr))
    (more : List Bool) (more_replies : List (Option SagReq)) (w : World)
    → h.job ≡ some job
    → h.group ≡ some group
    → h.device ≡ some device
    → w.jobs job ≡ some j
    → w.groups group ≡ some g
    → w.devices device ≡ some d
    → is_global req.data_part.mem_flags ≡ true
    → clipped req.data_part.mem_id ≡ req.data_part.mem_id
    → find req.data_part.mem_id g.mem_tab ≡ none
    → find req.data_part.mem_id j.mem_tab ≡ some old
    → w.net.regions ≡ some shm_mr ∷ some mr ∷ more_regions
    → w.net.sends ≡ true ∷ true ∷ more
    → w.net.sag_replies ≡ some reply ∷ more_replies
    → w.held ≡ []
    → Returns
        (λ r w'.
          (r ≡ (h, ret_ok))
          × (w'.jobs job
              ≡ some (record j { mem_tab = insert req.data_part.mem_id w.fresh j.mem_tab }))
          × (find req.data_part.mem_id (insert req.data_part.mem_id w.fresh j.mem_tab) ≡ some old))
        (agent_mem_alloc blank h req w)
unfolding agent_mem_alloc find_memory_entry_group allocate_master_object decorate_mem_id
    register_twice create_memory_entry publish_entry register_mem_entry register_mem_entry_root
    announce create_agent_request submit_sched_request submit_agent_request refuse_pe
agent_mem_alloc_state blank reply h req job group device old j g d shm_mr mr more_regions more
      more_replies w hj hg hd lj lg ld global short new known regions sends replies free =
    ground (
      arith,
      find-insert req.data_part.mem_id req.data_part.mem_id w.fresh j.mem_tab,
      bytes_eq_iff req.data_part.mem_id req.data_part.mem_id,
    )

-- A global object whose name the job has already, and the group of the PE has not, is allocated all
-- the same where the name fits into the buffer, both registrations and the exchange with the
-- scheduler succeed, the answer gets through and no mutex is held: the last thing that is sent is the
-- answer `success` to the PE, with a region, but the name still leads to the old entry.
pub agent_mem_alloc_hidden :
    (blank reply : SagReq) (h : AgentLocalHandler) (req : SaaReq) (job group device old : Ptr)
    (j : Job) (g : Group) (d : Device) (shm_mr mr : Mr) (more_regions : List (Option Mr))
    (more : List Bool) (more_replies : List (Option SagReq)) (w : World)
    → h.job ≡ some job
    → h.group ≡ some group
    → h.device ≡ some device
    → w.jobs job ≡ some j
    → w.groups group ≡ some g
    → w.devices device ≡ some d
    → is_global req.data_part.mem_flags ≡ true
    → clipped req.data_part.mem_id ≡ req.data_part.mem_id
    → find req.data_part.mem_id g.mem_tab ≡ none
    → find req.data_part.mem_id j.mem_tab ≡ some old
    → w.net.regions ≡ some shm_mr ∷ some mr ∷ more_regions
    → w.net.sends ≡ true ∷ true ∷ more
    → w.net.sag_replies ≡ some reply ∷ more_replies
    → w.held ≡ []
    → Returns
        (λ r w'.
          (r ≡ (h, ret_ok))
          × ((mr : Mr) × (log : List (ℕ × Message)) × (w'.sent
                ≡ log
                  ++ (
                    h.api_channel,
                    saa (
                        with_status
                          (record req { data_part = record (req.data_part) { mr = mr } })
                          success),
                  )
                    ∷ []))
          × (w'.jobs job
              ≡ some (record j { mem_tab = insert req.data_part.mem_id w.fresh j.mem_tab }))
          × (find req.data_part.mem_id (insert req.data_part.mem_id w.fresh j.mem_tab) ≡ some old))
        (agent_mem_alloc blank h req w)
agent_mem_alloc_hidden blank reply h req job group device old j g d shm_mr mr more_regions more
      more_replies w hj hg hd lj lg ld global short new known regions sends replies free =
    Returns-mono _ _ (agent_mem_alloc blank h req w)
      (Returns-After _ (Answered h req) (agent_mem_alloc blank h req w)
        (agent_mem_alloc_state blank reply h req job group device old j g d shm_mr mr more_regions
          more more_replies w hj hg hd lj lg ld global short new known regions sends replies free)
        (agent_mem_alloc-After blank h req w))
      λ r w' both. (both.0.0, both.1 (ap (λ x. x.1) both.0.0), both.0.1, both.0.2)
