-- ===== src/Root/Ownership.antt =====
-- The allocations of libnvme that the crate has to give back: what a history of calls has given out and not
-- taken back, and the histories that give nothing back twice.
use libnvme_rs.Base.{◌==◌, if◌then◌else◌, ℤ, pos, Option, none, some, List, [], ◌∷◌, ◌≡◌, ◌⊎◌}
use libnvme_rs.Ffi.{
  Handle, Call, Libnvme, Reply, nvme_scan, nvme_free_tree, nvmf_hostnqn_generate,
  nvmf_hostid_generate, nvmf_hostnqn_from_file, nvmf_hostid_from_file, free, nvmf_get_discovery_log,
  nvme_create_ctrl, nvmf_add_ctrl, nvme_free_ctrl,
}

-- What a call gives to its caller.
abbrev pub gives : Call → Reply → Option Handle
gives nvme_scan r = r.pointer
gives nvmf_hostnqn_generate r = r.pointer
gives nvmf_hostid_generate r = r.pointer
gives nvmf_hostnqn_from_file r = r.pointer
gives nvmf_hostid_from_file r = r.pointer
gives (nvmf_get_discovery_log _ _) r = r.pointer
gives (nvme_create_ctrl _) r = r.pointer
gives _ r = none

abbrev if_zero : ℤ → Handle → Option Handle
if_zero (pos n) c = if n == 0 then some c else none
if_zero _ c = none

-- What a call takes back: a controller is the tree's once `nvmf_add_ctrl` has succeeded.
abbrev pub takes : Call → Reply → Option Handle
takes (nvme_free_tree p) r = some p
takes (free p) r = some p
takes (nvme_free_ctrl p) r = some p
takes (nvmf_add_ctrl _ c _) r = if_zero r.ret c
takes _ r = none

abbrev pub with_handle : Option Handle → List Handle → List Handle
with_handle none ps = ps
with_handle (some p) ps = p ∷ ps

abbrev pub without : Handle → List Handle → List Handle
without p [] = []
without p (q ∷ ps) = if p == q then ps else q ∷ without p ps

abbrev pub without_handle : Option Handle → List Handle → List Handle
without_handle none ps = ps
without_handle (some p) ps = without p ps

abbrev pub IsHeld : Handle → List Handle → Type 0
IsHeld p [] = ⊥
IsHeld p (q ∷ ps) = (p ≡ q) ⊎ IsHeld p ps

abbrev pub IsHeldBack : Option Handle → List Handle → Type 0
IsHeldBack none ps = Unit
IsHeldBack (some p) ps = IsHeld p ps

module _ (lib : Libnvme) where
  -- The allocations that are still the caller's after a history of calls.
  abbrev pub owned : List Call → List Handle
  owned [] = []
  owned (c ∷ t) =
      with_handle (gives c (lib.answer t c)) (without_handle (takes c (lib.answer t c)) (owned t))

  -- Nothing was given back that the caller did not own at that time.
  abbrev pub IsClean : List Call → Type 0
  IsClean [] = Unit
  IsClean (c ∷ t) = IsHeldBack (takes c (lib.answer t c)) (owned t) × IsClean t
