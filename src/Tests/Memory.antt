-- ===== src/Tests/Memory.antt =====
-- Connections, discovery logs and whole sessions with a library that answers every call, and one that refuses to
-- connect.
use libnvme_rs.Util.Utf8.{from_utf8}
use libnvme_rs.Base.{
  ℕ, ◌≡◌, refl, negsuc, none, some, List, [], ◌∷◌, ◌++◌, take, replicate, from_le_bytes, inl, map,
}
use libnvme_rs.Error.{err, invalid_argument, interior_nul, Error, Result}
use libnvme_rs.Util.{has_nul, str_to_cstring, trim_trailing_padding}
use libnvme_rs.Ffi.{
  Call, Libnvme, Reply, CtrlParams, nvmf_add_ctrl, nvme_free_tree, free, nvmf_hostnqn_generate,
  nvme_scan,
}
use libnvme_rs.Tree.{Host}
use libnvme_rs.Root.{
  Root, scan, optional_cstring, drop_root, non_null, generate_hostnqn, take_owned_cstr,
}
use libnvme_rs.Root.Ownership.{owned}
use libnvme_rs.Fabrics.{
  transport_as_str, Connect, tcp, new_connect, connect_params, connect_execute, add_ctrl,
}
use libnvme_rs.Fabrics.Laws.{connect_execute_refuses, connect_execute_leaks}
use libnvme_rs.Fabrics.DiscoveryLog.{
  DiscoveryLog, num_records, entries, transport_service_id, subnqn, traddr,
}
use libnvme_rs.Fabrics.DiscoveryLog.Laws.{entry_texts_run_on, running_text, entries_blocks}
use libnvme_rs.Session.{Session, Reach, start, next, scanned, root_dropped, hostnqn_generated}
use libnvme_rs.Session.Laws.{IsBalanced, Reach-IsBalanced}
use libnvme_rs.Tests.{working, reply, answer_to}

abbrev host0 : Host
host0 = record { inner = 2; root = 1 }

-- The target `nqn`, over TCP.
abbrev target : Connect
target = new_connect host0 tcp (0x6e ∷ 0x71 ∷ 0x6e ∷ [])

abbrev target_with_nul : Connect
target_with_nul = record target { traddr = some (0x31 ∷ 0 ∷ []) }

connect_execute_refuses_example :
    connect_execute working target_with_nul [] ≡ (err (invalid_argument interior_nul), [])
unfolding new_connect transport_as_str has_nul
connect_execute_refuses_example = connect_execute_refuses working target_with_nul [] refl

abbrev refused_or : Call → Reply
refused_or (nvmf_add_ctrl h c cfg) = reply (negsuc 0)
refused_or c = answer_to c

abbrev refusing : Libnvme
refusing = record working { answer = λ t c. refused_or c }

abbrev target_params : CtrlParams
target_params = record {
  root = 1;
  subsysnqn = 0x6e ∷ 0x71 ∷ 0x6e ∷ 0 ∷ [];
  transport = 0x74 ∷ 0x63 ∷ 0x70 ∷ 0 ∷ [];
  traddr = none;
  host_traddr = none;
  host_iface = none;
  trsvcid = none;
}

connect_execute_leaks_example :
    ((e : Error) × ((connect_execute refusing target []).0 ≡ err e))
    × (owned refusing (connect_execute refusing target []).1 ≡ 40 ∷ [])
unfolding new_connect transport_as_str connect_params str_to_cstring has_nul optional_cstring
    add_ctrl
connect_execute_leaks_example =
    connect_execute_leaks refusing target target_params 40 [] 0 refl refl refl

-- A header that announces one record, and the record.
abbrev header : List ℕ
header = replicate 8 0 ++ (1 ∷ replicate 1015 0)

abbrev record0 : List ℕ
record0 = replicate 256 0 ++ replicate 768 0x61

abbrev one_record : DiscoveryLog
one_record = record { inner = 40; memory = header ++ (record0 ++ []) }

entries_blocks_example : map (take 1024) (entries one_record) ≡ record0 ∷ []
unfolding num_records from_le_bytes
entries_blocks_example = entries_blocks one_record header (record0 ∷ []) refl refl (refl, tt) refl

-- An entry whose subsystem name fills its field, with an address behind it.
abbrev zero_bytes : ℕ → List ℕ
zero_bytes n = replicate n 0

abbrev full_name : List ℕ
full_name = replicate 256 0x61

abbrev address : List ℕ
address = 0x62 ∷ zero_bytes 255

entry_texts_run_on_example :
    let e =
      zero_bytes 32 ++ (zero_bytes 32 ++ (zero_bytes 192 ++ (full_name ++ (address ++ [])))) in
    let text : List ℕ → List ℕ → Result (List ℕ) =
      λ field behind. from_utf8 (trim_trailing_padding (running_text field behind)) in
    (transport_service_id e
      ≡ text (zero_bytes 32) (zero_bytes 192 ++ (full_name ++ (address ++ []))))
    × (subnqn e ≡ text full_name (address ++ []))
    × (traddr e ≡ text address [])
entry_texts_run_on_example =
    entry_texts_run_on (zero_bytes 32) (zero_bytes 32) (zero_bytes 192) full_name address [] refl
      refl refl refl

abbrev root40 : Root
root40 = record { inner = 40 }

-- A scan, a generated HostNQN, and the end of the root.
abbrev ended : Session
ended = record {
  history = nvme_free_tree 40 ∷ free 40 ∷ nvmf_hostnqn_generate ∷ nvme_scan ∷ [];
  values = [];
}

ended-Reach : Reach working ended
unfolding scan non_null generate_hostnqn take_owned_cstr drop_root
ended-Reach =
    next (next (next start (scanned root40 (nvme_scan ∷ []) refl)) hostnqn_generated)
      (root_dropped root40 (inl refl))

Reach-IsBalanced_example : IsBalanced working ended
Reach-IsBalanced_example = Reach-IsBalanced working ended ended-Reach
