-- ===== src/Tree/NamespaceFields.antt =====
-- libnvme/src/namespace.rs: the identifiers of a namespace and the Identify command; libnvme/src/path.rs: the queue
-- depth of a path.
use libnvme_rs.Base.{ℕ, ◌%◌, ◌^◌, ℤ, Option, none, some, List, overwrite}
use libnvme_rs.Ffi.{Libnvme, M, issue, nvme_ns_identify}
use libnvme_rs.Namespace.{Namespace}
use libnvme_rs.Controller.{filled, zeros}
use libnvme_rs.Tree.{TreePath}
use libnvme_rs.Tree.Fields.{TreeFields}

-- `copy_nonoverlapping` of `n` bytes into an array of zeros, which NULL leaves as it is.
unfoldable pub copied : ℕ → Option (List ℕ) → List ℕ
copied n none = zeros n
copied n (some memory) = overwrite n (zeros n) memory

module _ (fields : TreeFields) where
  unfoldable pub lba_utilization : Namespace → ℕ
  lba_utilization ns = fields.ns_get_lba_util ns.inner

  unfoldable pub csi : Namespace → ℕ
  csi ns = fields.ns_get_csi ns.inner % 2 ^ 8

  unfoldable pub uuid : Namespace → List ℕ
  uuid ns = overwrite 16 (zeros 16) (fields.ns_get_uuid ns.inner)

  unfoldable pub nguid : Namespace → List ℕ
  nguid ns = copied 16 (fields.ns_get_nguid ns.inner)

  unfoldable pub eui64 : Namespace → List ℕ
  eui64 ns = copied 8 (fields.ns_get_eui64 ns.inner)

  unfoldable pub queue_depth : TreePath → ℤ
  queue_depth p = fields.path_get_queue_depth p.inner

module _ (lib : Libnvme) where
  -- `Namespace::identify`: the 4096 bytes of `nvme_id_ns`.
  unfoldable pub ns_identify : Namespace → M (List ℕ)
  ns_identify ns = issue lib (nvme_ns_identify ns.inner) (filled 4096 (zeros 4096))
