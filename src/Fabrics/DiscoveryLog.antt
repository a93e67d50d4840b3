-- ===== src/Fabrics/DiscoveryLog.antt =====
-- libnvme/src/fabrics.rs: the discovery log that libnvme allocates. Its memory is the list of its bytes, an entry the
-- memory from the entry's start on, in which the fields stand at the offsets of `nvmf_disc_log_entry`.
pub mod Laws
use libnvme_rs.Base.{
  ℕ, zero, suc, ◌+◌, ◌*◌, ℤ, pos, Option, none, some, List, [], ◌∷◌, map, take, drop, get_elem?,
  from_le_bytes,
}
use libnvme_rs.Error.{Result, ok, err}
use libnvme_rs.Util.{cstr_to_str}
use libnvme_rs.Ffi.{
  Handle, Libnvme, Reply, M, ◌>>=◌, ◌>>◌, lift, call, outcome, nvmf_get_discovery_log, free,
}
use libnvme_rs.Controller.{Controller}
use libnvme_rs.Root.{non_null}

pub record DiscoveryLog : Type 0 where
  pub inner : Handle
  pub memory : List ℕ

-- The 1024 bytes before the entries, and the size of an entry.
abbrev pub entry_size : ℕ
entry_size = 1024

unfoldable pub generation_counter : DiscoveryLog → ℕ
generation_counter log = from_le_bytes (take 8 log.memory)

unfoldable pub num_records : DiscoveryLog → ℕ
num_records log = from_le_bytes (take 8 (drop 8 log.memory))

-- `ptr.add(i)`
unfoldable pub entry_at : DiscoveryLog → ℕ → List ℕ
entry_at log i = drop (entry_size + i * entry_size) log.memory

-- `(start..start + count).map(..)`
abbrev entries_from : DiscoveryLog → ℕ → ℕ → List (List ℕ)
entries_from log start zero = []
entries_from log start (suc count) = entry_at log start ∷ entries_from log (suc start) count

unfoldable pub entries : DiscoveryLog → List (List ℕ)
entries log = entries_from log 0 (num_records log)

-- A number of `width` bytes at an offset of an entry.
abbrev field_at : ℕ → ℕ → List ℕ → ℕ
field_at offset width e = from_le_bytes (take width (drop offset e))

unfoldable pub transport_type : List ℕ → ℕ
transport_type e = field_at 0 1 e

unfoldable pub address_family : List ℕ → ℕ
address_family e = field_at 1 1 e

unfoldable pub subsystem_type : List ℕ → ℕ
subsystem_type e = field_at 2 1 e

unfoldable pub transport_requirements : List ℕ → ℕ
transport_requirements e = field_at 3 1 e

unfoldable pub port_id : List ℕ → ℕ
port_id e = field_at 4 2 e

unfoldable pub controller_id : List ℕ → ℕ
controller_id e = field_at 6 2 e

unfoldable pub asq_size : List ℕ → ℕ
asq_size e = field_at 8 2 e

unfoldable pub entry_flags : List ℕ → ℕ
entry_flags e = field_at 10 2 e

-- The character fields of an entry: what the pointers handed to `cstr_to_str` point to.
unfoldable pub trsvcid_ptr : List ℕ → List ℕ
trsvcid_ptr e = drop 32 e

unfoldable pub subnqn_ptr : List ℕ → List ℕ
subnqn_ptr e = drop 256 e

unfoldable pub traddr_ptr : List ℕ → List ℕ
traddr_ptr e = drop 512 e

unfoldable pub transport_service_id : List ℕ → Result (List ℕ)
transport_service_id e = cstr_to_str (some (trsvcid_ptr e))

unfoldable pub subnqn : List ℕ → Result (List ℕ)
subnqn e = cstr_to_str (some (subnqn_ptr e))

unfoldable pub traddr : List ℕ → Result (List ℕ)
traddr e = cstr_to_str (some (traddr_ptr e))

-- `DiscoveryLog::from_raw`
unfoldable pub log_from_raw : Reply → Result DiscoveryLog
log_from_raw r = elim (non_null r) [
  | err e ↦ err e
  | ok p ↦ ok (record { inner = p; memory = r.data_bytes })
]

module _ (lib : Libnvme) where
  -- `fetch_discovery_log` and `Controller::discovery_log`
  unfoldable pub discovery_log : Controller → ℤ → M DiscoveryLog
  discovery_log c max_retries = do
    r ← call lib (nvmf_get_discovery_log c.inner max_retries)
    _ ← lift (outcome r tt)
    lift (log_from_raw r)

  -- `Drop for DiscoveryLog`
  unfoldable pub drop_log : DiscoveryLog → M (Unit {0})
  drop_log log = do _ ← call lib (free log.inner); lift (ok tt)
