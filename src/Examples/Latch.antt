-- ===== src/Examples/Latch.antt =====
-- "Refuses to run unless the controller's model string equals `QEMU NVMe Ctrl`": the safety latch of
-- libnvme/examples/{format_smoke,io_smoke}.rs, as a property of the history of calls.
pub mod Laws
use libnvme_rs.Base.{◌≡◌, ℤ, Option, some, List, [], ◌∷◌}
use libnvme_rs.Ffi.{
  Handle, Call, Libnvme, nvme_scan, nvme_free_tree, nvme_ns_get_fd, nvme_io, nvme_dsm,
  nvme_io_passthru, nvme_format_nvm,
}
use libnvme_rs.Controller.{Controller}
use libnvme_rs.Tree.{NvmeTree}
use libnvme_rs.Tree.Fields.{TreeFields}
use libnvme_rs.Examples.Text.{qemu_model}
use libnvme_rs.Examples.Smoke.{model_text}

-- The namespaces of a controller, by the links of the tree.
pub data NamespaceOf (tree : NvmeTree) (ctrl : Handle) : Handle → Type 0 where
  first : {ns : Handle} → tree.ctrl_first_ns ctrl ≡ some ns → NamespaceOf tree ctrl ns
  next :
      {ns ns1 : Handle}
      → NamespaceOf tree ctrl ns
      → tree.ctrl_next_ns ctrl ns ≡ some ns1
      → NamespaceOf tree ctrl ns1

-- A namespace of a controller whose model is the one of QEMU.
abbrev pub OnQemu : NvmeTree → TreeFields → Handle → Type 0
OnQemu tree fields ns =
    (c : Controller) × (model_text fields c ≡ qemu_model) × NamespaceOf tree c.inner ns

-- The descriptor was got by the latest call.
abbrev pub Opened : Libnvme → ℤ → List Call → Type 0
Opened lib fd (nvme_ns_get_fd ns ∷ t) = (lib.answer t (nvme_ns_get_fd ns)).ret ≡ fd
Opened lib fd _ = ⊥

module _ (lib : Libnvme) (tree : NvmeTree) (fields : TreeFields) where
  -- A call that the latch lets through, after the calls before it: one that concerns the whole tree, the opening of a
  -- namespace on QEMU, or a command through the descriptor just got.
  abbrev pub IsLet : Call → List Call → Type 0
  IsLet nvme_scan t = Unit
  IsLet (nvme_free_tree _) t = Unit
  IsLet (nvme_ns_get_fd ns) t = OnQemu tree fields ns
  IsLet (nvme_io a _) t = Opened lib a.fd t
  IsLet (nvme_dsm a) t = Opened lib a.fd t
  IsLet (nvme_io_passthru fd _ _) t = Opened lib fd t
  IsLet (nvme_format_nvm a) t = Opened lib a.fd t
  IsLet _ t = ⊥

  abbrev pub Latched : List Call → Type 0
  Latched [] = Unit
  Latched (c ∷ t) = IsLet c t × Latched t
