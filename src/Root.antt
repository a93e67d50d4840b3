-- ===== src/Root.antt =====
-- libnvme/src/root.rs: the handle that owns libnvme's tree, the hosts of the tree, and the strings that libnvme
-- allocates for the crate.
pub mod Ownership
pub mod Laws
use libnvme_rs.Base.{ℕ, pos, Option, none, some, List}
use libnvme_rs.Error.{Result, ok, err, os}
use libnvme_rs.Util.{until_nul, str_to_cstring}
use libnvme_rs.Util.Utf8.{from_utf8}
use libnvme_rs.Ffi.{
  Handle, Call, Libnvme, M, ◌>>=◌, ◌>>◌, lift, call, Reply, nvme_scan, nvme_free_tree,
  nvme_default_host, nvme_lookup_host, nvmf_hostnqn_generate, nvmf_hostid_generate,
  nvmf_hostnqn_from_file, nvmf_hostid_from_file, free,
}
use libnvme_rs.Tree.{Host}

pub record Root : Type 0 where
  pub inner : Handle

-- A pointer that must not be NULL: otherwise the error is what `last_os_error` reads.
unfoldable pub non_null : Reply → Result Handle
non_null r = elim r.pointer [ none ↦ err (os (pos r.errno)) | some p ↦ ok p ]

-- `hostid.map(str_to_cstring).transpose()`, and `string_to_cstring_opt` of fabrics.rs, which has another message.
unfoldable pub optional_cstring : Option (List ℕ) → Result (Option (List ℕ))
optional_cstring none = ok none
optional_cstring (some s) = elim (str_to_cstring s) [ ok c ↦ ok (some c) | err e ↦ err e ]

module _ (lib : Libnvme) where
  unfoldable pub scan : M Root
  scan = do r ← call lib nvme_scan; p ← lift (non_null r); lift (ok (record { inner = p }))

  -- `Drop for Root`
  unfoldable pub drop_root : Root → M (Unit {0})
  drop_root root = do _ ← call lib (nvme_free_tree root.inner); lift (ok tt)

  unfoldable pub default_host : Root → M Host
  default_host root = do
    r ← call lib (nvme_default_host root.inner)
    p ← lift (non_null r)
    lift (ok (record { inner = p; root = root.inner }))

  unfoldable pub lookup_host : Root → List ℕ → Option (List ℕ) → M Host
  lookup_host root hostnqn hostid = do
    hostnqn_c ← lift (str_to_cstring hostnqn)
    hostid_c ← lift (optional_cstring hostid)
    r ← call lib (nvme_lookup_host root.inner hostnqn_c hostid_c)
    p ← lift (non_null r)
    lift (ok (record { inner = p; root = root.inner }))

  -- The bytes are copied out, the allocation is freed, and only then the bytes are read as text.
  unfoldable pub take_owned_cstr : Reply → M (List ℕ)
  take_owned_cstr r = do
    p ← lift (non_null r)
    _ ← call lib (free p)
    lift (from_utf8 (until_nul r.data_bytes))

  unfoldable pub generate_hostnqn : M (List ℕ)
  generate_hostnqn = do r ← call lib nvmf_hostnqn_generate; take_owned_cstr r

  unfoldable pub generate_hostid : M (List ℕ)
  generate_hostid = do r ← call lib nvmf_hostid_generate; take_owned_cstr r

  unfoldable pub hostnqn_from_file : M (List ℕ)
  hostnqn_from_file = do r ← call lib nvmf_hostnqn_from_file; take_owned_cstr r

  unfoldable pub hostid_from_file : M (List ℕ)
  hostid_from_file = do r ← call lib nvmf_hostid_from_file; take_owned_cstr r
