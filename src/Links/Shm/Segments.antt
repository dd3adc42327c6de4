-- ===== src/Links/Shm/Segments.antt =====
-- The named segments of src/lm/lmshm_shm.cpp.
use flex_gas.Agent.Window.{u64}
use flex_gas.Links.Runs.{Ret, deref, get, pure, ret_err, ret_ok, ◌>>=◌}
use flex_gas.Links.Shm.State.{M, Process, Ptr, ShmMr, succeeds, test_z}
use flex_gas.Links.Sockets.{next_result, remaining, update}
use flex_gas.Prelude.{
  Bytes, Option, [], arith, if◌then◌else◌, none, some, suc, ℕ, ◌+◌, ◌-◌, ◌==◌, ◌∷◌, ◌≡◌,
}
use flex_gas.Recursion.Rounds.{again}

abbrev open_call : M (Option ℕ)
open_call h =
    pure (next_result h.calls.opens)
      (record h { calls = record (h.calls) { opens = remaining h.calls.opens } })

abbrev map_call : M (Option ℕ)
map_call h =
    pure (next_result h.calls.maps)
      (record h { calls = record (h.calls) { maps = remaining h.calls.maps } })

-- ftruncate, which fails on the descriptor -1.
abbrev truncate_call : Option ℕ → M Ret
truncate_call none h = pure ret_err h
truncate_call (some fd) h =
    pure (succeeds h.calls.truncates)
      (record h { calls = record (h.calls) { truncates = remaining h.calls.truncates } })

abbrev unmap_call : M Ret
unmap_call h =
    pure (succeeds h.calls.unmaps)
      (record h { calls = record (h.calls) { unmaps = remaining h.calls.unmaps } })

abbrev unlink_call : M Ret
unlink_call h =
    pure (succeeds h.calls.unlinks)
      (record h { calls = record (h.calls) { unlinks = remaining h.calls.unlinks } })

-- MAP_FAILED is the address -1.
unfoldable pub map_failed : ℕ
map_failed = u64 - 1

abbrev address : Option ℕ → ℕ
address none = map_failed
address (some a) = a

-- The int that shm_open gives, -1 for `none`, in the field of a region.
abbrev as_fd : Option ℕ → ℕ
as_fd none = 0xffffffff
as_fd (some fd) = fd

-- TEST_NZ goes on unless the value is 0.
abbrev test_nz : Option ℕ → M (Ret × Option Ptr) → M (Ret × Option Ptr)
test_nz v k = if as_fd v == 0 then pure (ret_err, none) else k

-- The size, the mapping and the record of a segment that is open; the second value is the region.
unfoldable pub map_segment : Bytes → ℕ → Option ℕ → M (Ret × Option Ptr)
unfolding map_failed
map_segment name len fd = do
  rc ← truncate_call fd
  elim rc [
    | ret_err ↦ pure (ret_err, none)
    | ret_ok ↦ do
      a ← map_call
      if address a == 0 then pure (ret_err, none) else λ h.
          pure (ret_ok, some h.fresh)
            (record h {
              regions =
                  update h.regions h.fresh
                    (some (record { name = name; fd = as_fd fd; addr = address a; length = len }));
              fresh = h.fresh + 1;
            })
  ]

-- Any flag at all makes it unlink a segment that is in the way.
unfoldable pub lm_shm_alloc : Bytes → (length flags : ℕ) → M (Ret × Option Ptr)
unfolding map_segment
lm_shm_alloc name len flags = do
  fd ← open_call
  test_nz fd (elim fd [
    | some n ↦ map_segment name len (some n)
    | none ↦ if flags == 0 then pure (ret_err, none) else (do
      rc ← unlink_call
      elim rc [
        | ret_err ↦ pure (ret_err, none)
        | ret_ok ↦ do again ← open_call; test_nz again (map_segment name len again)
      ])
  ])

unfoldable pub lm_shm_free : Ptr → M Ret
lm_shm_free mr = do h ← get; _ ← deref (h.regions mr); test_z unmap_call unlink_call

-- The address and the length are given back where the caller asks for them.
unfoldable pub lm_shm_acquire : Ptr → M (Ret × Option (ℕ × ℕ))
unfolding map_failed
lm_shm_acquire mr = do
  h ← get
  r ← deref (h.regions mr)
  fd ← open_call
  elim fd [
    | none ↦ pure (ret_err, none)
    | some n ↦ do
      a ← map_call
      if address a == 0 then pure (ret_err, none) else λ h'.
          pure (ret_ok, some (address a, r.length))
            (record h' {
              regions = update h'.regions mr (some (record r { addr = address a; fd = n }));
            })
  ]

unfoldable pub lm_shm_release : Ptr → M Ret
lm_shm_release mr = do h ← get; _ ← deref (h.regions mr); unmap_call

-- Where mmap fails, lmShmAlloc and lmShmAcquire test the address against NULL: they succeed, and
-- give the address MAP_FAILED.
pub map_failure_unseen :
    (name : Bytes) (len flags fd mr : ℕ) (r : ShmMr) (h : Process)
    → h.calls.opens ≡ some (suc fd) ∷ []
    → h.calls.truncates ≡ []
    → h.calls.maps ≡ none ∷ []
    → h.regions mr ≡ some r
    → ((h' : Process) × (lm_shm_alloc name len flags h ≡ some ((ret_ok, some h.fresh), h'))
        × (h'.regions h.fresh
            ≡ some (record { name = name; fd = suc fd; addr = map_failed; length = len })))
      × ((h' : Process) × (lm_shm_acquire mr h ≡ some ((ret_ok, some (map_failed, r.length)), h'))
          × (h'.regions mr ≡ some (record r { addr = map_failed; fd = suc fd })))
unfolding lm_shm_alloc lm_shm_acquire
map_failure_unseen name len flags fd mr r h opened sized unmapped known = (
  (
    record h {
      calls = record (h.calls) { opens = []; maps = [] };
      regions =
          update h.regions h.fresh
            (some (record { name = name; fd = suc fd; addr = map_failed; length = len }));
      fresh = h.fresh + 1;
    },
    ground arith,
    ground arith,
  ),
  (
    record h {
      calls = record (h.calls) { opens = []; maps = [] };
      regions = update h.regions mr (some (record r { addr = map_failed; fd = suc fd }));
    },
    ground arith,
    ground arith,
  ),
)
