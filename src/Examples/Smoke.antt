-- ===== src/Examples/Smoke.antt =====
-- libnvme/examples/format_smoke.rs and libnvme/examples/io_smoke.rs. Printing is left out, but the names that are read for it
-- are not: a name that cannot be read ends the program. The counter of namespaces is an `i32` that wraps, as in a
-- release build, given by its 32 bits.
pub mod Passes
pub mod Walk
pub mod Invariants
use libnvme_rs.Base.{ℕ, zero, suc, ◌+◌, ◌%◌, bit_and, u32, none, some, List, [], ◌∷◌, if◌then◌else◌}
use libnvme_rs.Error.{ok, err}
use libnvme_rs.Ffi.{Libnvme}
use libnvme_rs.Namespace.{Namespace, lba_size}
use libnvme_rs.Controller.{Controller}
use libnvme_rs.Root.{scan}
use libnvme_rs.Admin.{no_erase}
use libnvme_rs.Format.{
  Format, new_format, set_lba_format, set_secure_erase, apply_format_setter, format_execute,
}
use libnvme_rs.Io.Control.{default_opts, fua, apply_setter}
use libnvme_rs.Io.Commands.{
  Transfer, BlockRange, write_execute, compare_execute, verify_execute, write_zeroes_execute, flush,
}
use libnvme_rs.Io.Ranges.{deallocate, new_dsm_range}
use libnvme_rs.Io.RangeCommands.{Dsm, dsm_execute}
use libnvme_rs.Io.ReadToVec.{read_to_vec}
use libnvme_rs.Tree.{
  NvmeTree, Host, Subsystem, hosts, next_of_hosts, subsystems, next_of_subsystems, controllers,
  next_of_controllers, namespaces, next_of_namespaces,
}
use libnvme_rs.Tree.Fields.{TreeFields}
use libnvme_rs.Tree.CtrlText
use libnvme_rs.Tree.NamespaceText
use libnvme_rs.Examples.Program.{
  Program, ◌>>=◌, ◌>>◌, pure, run, assert, for_in, dropping, question,
}
use libnvme_rs.Examples.Text.{trim, bytes_eq, all_zero, qemu_model}

-- `for (i, b) in pattern.iter_mut().enumerate()`, from an index on.
unfoldable pub pattern_from : ℕ → ℕ → List ℕ
pattern_from i zero = []
pattern_from i (suc n) = bit_and i 0xff ∷ pattern_from (suc i) n

-- `ns.write(0, 1, &pattern).fua()` and `ns.compare(0, 1, &pattern)`
abbrev pub write_pattern : Namespace → List ℕ → Transfer
write_pattern ns pattern = record {
  ns = ns;
  slba = 0;
  nlb = 1;
  buf = pattern;
  metadata = none;
  opts = apply_setter fua default_opts;
}

abbrev pub compare_pattern : Namespace → List ℕ → Transfer
compare_pattern ns pattern = record (write_pattern ns pattern) { opts = default_opts }

-- `ns.verify(0, 1)` and `ns.write_zeroes(0, 1)`
abbrev pub first_block : Namespace → BlockRange
first_block ns = record { ns = ns; slba = 0; nlb = 1; opts = default_opts }

-- `ns.dsm(DsmAttr::DEALLOCATE).ranges(&[DsmRange::new(0, 1)])`
abbrev pub trim_first : Namespace → Dsm
trim_first ns = record {
  ns = ns;
  attrs = deallocate;
  ranges = some (new_dsm_range 0 1 ∷ []);
  timeout_ms = 0;
}

-- `ns.format().lba_format(0).secure_erase(SecureErase::None)`
abbrev pub format_first : Namespace → Format
format_first ns =
    apply_format_setter (set_secure_erase no_erase)
      (apply_format_setter (set_lba_format 0) (new_format ns))

-- `ctrl.model().unwrap_or("?").trim()`
unfoldable pub model_text : TreeFields → Controller → List ℕ
model_text fields c = trim (elim (CtrlText.model fields c) [ ok m ↦ m | err e ↦ b'?' ∷ [] ])

-- `exercised += 1` and `formatted += 1`
abbrev pub count_one : ℕ → ℕ
count_one n = u32 (n + 1)

module _ (lib : Libnvme) (fields : TreeFields) where
  -- The body of the loop over the namespaces in io_smoke.
  unfoldable pub exercise : Namespace → Program (Unit {0})
  exercise ns = do
    let pattern = pattern_from 0 (lba_size lib ns)
    _ ← question (NamespaceText.name fields ns)
    _ ← run (write_execute lib (write_pattern ns pattern))
    got ← run (read_to_vec lib ns 0 1)
    assert (bytes_eq got pattern)
    _ ← run (compare_execute lib (compare_pattern ns pattern))
    _ ← run (verify_execute lib (first_block ns))
    _ ← run (write_zeroes_execute lib (first_block ns))
    zeroed ← run (read_to_vec lib ns 0 1)
    assert (all_zero zeroed)
    _ ← run (dsm_execute lib (trim_first ns))
    run (flush lib ns)

  -- The same in format_smoke.
  unfoldable pub reformat : Namespace → Program (Unit {0})
  reformat ns = do
    _ ← question (NamespaceText.name fields ns)
    run (format_execute lib (format_first ns))

-- What the two programs share, with the treatment of a namespace as a parameter.
module _ (tree : NvmeTree) (fields : TreeFields) (treat : Namespace → Program (Unit {0}))
    (fuel : ℕ) where
  unfoldable pub visit_namespace : Namespace → ℕ → Program ℕ
  visit_namespace ns n = do treat ns; pure (count_one n)

  unfoldable pub visit_controller : Controller → ℕ → Program ℕ
  visit_controller c n =
      if bytes_eq (model_text fields c) qemu_model
      then for_in (next_of_namespaces tree) visit_namespace fuel (namespaces tree c) n
      else (question (CtrlText.name fields c) >>= λ _. pure n)

  unfoldable pub visit_subsystem : Subsystem → ℕ → Program ℕ
  visit_subsystem s n =
      for_in (next_of_controllers tree) visit_controller fuel (controllers tree s) n

  unfoldable pub visit_host : Host → ℕ → Program ℕ
  visit_host h n = for_in (next_of_subsystems tree) visit_subsystem fuel (subsystems tree h) n

  unfoldable pub smoke_main : Libnvme → Program ℕ
  smoke_main lib = do
    root ← run (scan lib)
    dropping lib root (for_in (next_of_hosts tree) visit_host fuel (hosts tree root.inner) 0)

module _ (lib : Libnvme) (tree : NvmeTree) (fields : TreeFields) (fuel : ℕ) where
  unfoldable pub io_smoke : Program ℕ
  io_smoke = smoke_main tree fields (exercise lib fields) fuel lib

  unfoldable pub format_smoke : Program ℕ
  format_smoke = smoke_main tree fields (reformat lib fields) fuel lib
