-- ===== src/Recursion/Resources.antt =====
-- `find_exec_res` and `release_exec_res` of src/vivm/schedlib/sl_recursion/rec_sched.cpp. The
-- mutexes of the list and of its resources are taken and given back inside one call.
pub mod Grants
pub mod Levels
pub mod Marks
pub mod Release
pub mod Ends
pub mod Search
use flex_gas.Prelude.{
  Bool, Bytes, List, Option, [], false, if◌then◌else◌, none, not, some, suc, take, true, zero, ℕ,
  ◌++◌, ◌==◌, ◌||◌, ◌∷◌,
}
use flex_gas.Sched.Api.{Ports, sched_create_device, sched_destroy_device}
use flex_gas.Sched.Requests.{SagReq}
use flex_gas.Sched.Types.{DeviceType, Ptr, ivm_cpu, sched_link_inet}
use flex_gas.Sched.World.{M, Ret, load_group, pure, ◌>>=◌, ◌>>◌}

-- The `int` that counts occupants: `negsuc n` is -(n + 1).
pub data ℤ : Type 0 where
  pos : ℕ → ℤ
  negsuc : ℕ → ℤ

abbrev pub inc : ℤ → ℤ
inc (pos n) = pos (suc n)
inc (negsuc zero) = pos 0
inc (negsuc (suc n)) = negsuc n

abbrev pub dec : ℤ → ℤ
dec (pos zero) = negsuc 0
dec (pos (suc n)) = pos n
dec (negsuc n) = negsuc (suc n)

-- The rounds of a loop from 0 that runs while its index is below the number.
abbrev pub rounds_below : ℤ → ℕ
rounds_below (pos n) = n
rounds_below (negsuc n) = 0

pub record Resource : Type 0 where
  pub hostname : Bytes
  pub type : DeviceType
  pub num_occupants : ℤ
  pub rec_levels : List ℕ

-- A granted resource, by its index in the list, and the device that was made on it.
pub record ExecResource : Type 0 where
  pub res : ℕ
  pub device : Ptr

-- Whether one of the first `n` levels is the given one.
unfoldable pub level_among : ℕ → ℕ → List ℕ → Bool
level_among level zero ls = false
level_among level (suc n) [] = false
level_among level (suc n) (l ∷ ls) = (l == level) || level_among level n ls

-- The `deny` of the search.
unfoldable pub denies : ℕ → Resource → Bool
denies level r = level_among level (rounds_below r.num_occupants) r.rec_levels

unfoldable pub occupy : ℕ → Resource → Resource
occupy level r = record r {
  rec_levels = r.rec_levels ++ level ∷ [];
  num_occupants = inc r.num_occupants;
}

-- The first of the first `n` entries that is the level goes.
unfoldable pub erase_level : ℕ → ℕ → List ℕ → List ℕ
erase_level level zero ls = ls
erase_level level (suc n) [] = []
erase_level level (suc n) (l ∷ ls) = if l == level then ls else l ∷ erase_level level n ls

unfoldable pub vacate : ℕ → Resource → Resource
vacate level r = record r {
  rec_levels = erase_level level (rounds_below r.num_occupants) r.rec_levels;
  num_occupants = dec r.num_occupants;
}

-- One resource of the search: passed over where it denies the group or where no device can be made
-- on it, taken otherwise.
module _ {A : Type 0} (skip : M A) (take : Ptr → M A) where
  unfoldable pub created : Option Ptr → M A
  created none = skip
  created (some device) = take device

  unfoldable pub visit : Bool → M (Option Ptr) → M A
  visit true create = skip
  visit false create = create >>= created

abbrev pub Found : Type 0
Found = List Resource × List ExecResource

-- The search from index `idx` on, with `room` resources still wanted. `create` is the call of
-- schedCreateDevice on a host.
unfoldable pub find_loop : (Bytes → M (Option Ptr)) → (level room idx : ℕ) → List Resource → M Found
find_loop create level room idx [] = pure ([], [])
find_loop create level zero idx (r ∷ rs) = pure (r ∷ rs, [])
find_loop create level (suc room) idx (r ∷ rs) =
    let skip : M Found =
      find_loop create level (suc room) (suc idx) rs >>= λ out. pure (r ∷ out.0, out.1) in
    let take : Ptr → M Found = λ d. find_loop create level room (suc idx) rs >>= λ out.
    pure (occupy level r ∷ out.0, record { res = idx; device = d } ∷ out.1) in
    visit skip take (denies level r) (create r.hostname)

-- `none` is the return of -1 before the list of resources is there.
unfoldable pub find_exec_res :
    SagReq → Ports → Bool → (group req_num : ℕ) → List Resource → M (Option Found)
find_exec_res blank ports resource_list_available group req_num resources =
    if not resource_list_available then pure none else do
      g ← load_group group
      found ←
          find_loop (λ host. sched_create_device blank ports host sched_link_inet ivm_cpu 0 group)
            g.rec_level req_num 0 resources
      pure (some found)

abbrev pub modify_nth : (Resource → Resource) → ℕ → List Resource → List Resource
modify_nth f i [] = []
modify_nth f zero (r ∷ rs) = f r ∷ rs
modify_nth f (suc i) (r ∷ rs) = r ∷ modify_nth f i rs

-- The level of the group is read again for each resource.
unfoldable pub release_loop :
    (Ptr → M Ret) → (group : Ptr) → List ExecResource → List Resource → M (List Resource)
release_loop destroy group [] rs = pure rs
release_loop destroy group (e ∷ es) rs = do
  g ← load_group group
  let left : List Resource = modify_nth (vacate g.rec_level) e.res rs
  _ ← destroy e.device
  release_loop destroy group es left

unfoldable pub release_exec_res : SagReq → List ExecResource → ℕ → List Resource → M (List Resource)
release_exec_res blank e_res group resources =
    release_loop (sched_destroy_device blank) group e_res resources
