-- ===== src/Sched/World/State.antt =====
-- The shared state: heaps, tables, held mutexes, and the channel layer's results still to come.
use flex_gas.Prelude.{ℕ, Bool, true, false, ◌&&◌, Option, List, [], ◌∷◌, ◌==◌, if◌then◌else◌}
use flex_gas.Container.Map.{Map}
use flex_gas.Sched.Types.{Ptr, Comp, Device, Group, Job, MemEt, Mr, Pe, ProspPe, Tnotif}
use flex_gas.Sched.Requests.{Message, SagReq, SaaReq}

-- A mutex is named by its kind and by the object that holds it.
pub record Mutex : Type 0 where
  pub kind : ℕ
  pub owner : Ptr

abbrev pub same_mutex : Mutex → Mutex → Bool
same_mutex a b = (a.kind == b.kind) && (a.owner == b.owner)

abbrev pub job_tab_mutex : Mutex
job_tab_mutex = record { kind = 0; owner = 0 }

abbrev pub job_pem_mtx : Ptr → Mutex
job_pem_mtx p = record { kind = 1; owner = p }

abbrev pub job_mm_mtx : Ptr → Mutex
job_mm_mtx p = record { kind = 2; owner = p }

abbrev pub job_cm_mtx : Ptr → Mutex
job_cm_mtx p = record { kind = 3; owner = p }

abbrev pub group_pem_mtx : Ptr → Mutex
group_pem_mtx p = record { kind = 4; owner = p }

abbrev pub group_mm_mtx : Ptr → Mutex
group_mm_mtx p = record { kind = 5; owner = p }

abbrev pub device_pem_mtx : Ptr → Mutex
device_pem_mtx p = record { kind = 6; owner = p }

abbrev pub entry_mtx : Ptr → Mutex
entry_mtx p = record { kind = 7; owner = p }

abbrev pub handle_mutex : Ptr → Mutex
handle_mutex p = record { kind = 8; owner = p }

abbrev pub owns : Mutex → List Mutex → Bool
owns m [] = false
owns m (x ∷ xs) = if same_mutex m x then true else owns m xs

abbrev pub release : Mutex → List Mutex → List Mutex
release m [] = []
release m (x ∷ xs) = if same_mutex m x then xs else x ∷ release m xs

-- What the calls of the channel layer, and `fork`, will give: `true` or a value for a return of 0, `false` or
-- `none` for an error. An exhausted list is an error. `closed` has the channels that chClose was
-- called on, `heard` those of the calls of chRecv and chRecvMr, in their order.
pub record Net : Type 0 where
  pub sends : List Bool
  pub sag_replies : List (Option SagReq)
  pub saa_requests : List (Option SaaReq)
  pub forks : List (Option ℕ)
  pub opens : List (Option ℕ)
  pub closes : List Bool
  pub regions : List (Option Mr)
  pub writes : List Bool
  pub closed : List ℕ
  pub heard : List ℕ

abbrev pub Heap : Type 0 → Type 0
Heap A = Ptr → Option A

pub record World : Type 0 where
  pub jobs : Heap Job
  pub groups : Heap Group
  pub devices : Heap Device
  pub pes : Heap Pe
  pub comps : Heap Comp
  pub entries : Heap MemEt
  pub handles : Heap Tnotif
  pub acks : Heap ℕ
  pub notifs : Heap (List Bool)
  pub fresh : Ptr
  pub job_tab : Map ℕ Ptr
  pub job_id_cnt : ℕ
  pub prosp_pe_tab : Map ℕ ProspPe
  pub sys_handle : Option Ptr
  pub local_hostname : List ℕ
  pub held : List Mutex
  pub net : Net
  pub sent : List (ℕ × Message)

-- A heap with one cell changed.
abbrev pub update {ℓ} : {A : Type ℓ} → (Ptr → Option A) → Ptr → Option A → Ptr → Option A
update h p v q = if p == q then v else h q
