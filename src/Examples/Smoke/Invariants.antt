-- ===== src/Examples/Smoke/Invariants.antt =====
-- What libnvme/examples/{format_smoke,io_smoke}.rs keep in their loops, if the treatment of a namespace keeps it.
use libnvme_rs.Base.{List, ℕ, ◌≡◌, refl, ap, sym, ◌∙◌, Option, none, some}
use libnvme_rs.Ffi.{Call, Handle, Libnvme}
use libnvme_rs.Namespace.{Namespace, lba_size}
use libnvme_rs.Format.{apply_format_setter, new_format}
use libnvme_rs.Controller.{Controller}
use libnvme_rs.Io.Commands.{opc_verify, opc_write_zeroes}
use libnvme_rs.Tree.{
  Host, Subsystem, NvmeTree, Namespaces, namespaces, next_of_namespaces, hosts, next_of_hosts,
  subsystems, next_of_subsystems, controllers, next_of_controllers,
}
use libnvme_rs.Tree.Fields.{TreeFields}
use libnvme_rs.Tree.CtrlText
use libnvme_rs.Tree.NamespaceText
use libnvme_rs.Examples.Program.{Program, for_in}
use libnvme_rs.Examples.Program.Invariants.{
  Preserves, pure-Preserves, question-Preserves, run-Preserves, assert-Preserves, >>=-Preserves,
  if-Preserves, for_in-Preserves,
}
use libnvme_rs.Examples.Text.{bytes_eq, bytes_eq_sound, all_zero, qemu_model}
use libnvme_rs.Examples.Smoke.{
  pattern_from, write_pattern, compare_pattern, first_block, trim_first, format_first, model_text,
  count_one, exercise, reformat, visit_namespace, visit_controller, visit_subsystem, visit_host,
}
use libnvme_rs.Examples.Latch.{NamespaceOf, first, next, OnQemu}
use libnvme_rs.Examples.Rules.{
  Admits, flush-Kept, write_execute-Kept, compare_execute-Kept, submit_range-Kept, dsm_execute-Kept,
  read_to_vec-Kept, format_execute-Kept,
}

module _ (lib : Libnvme) (fields : TreeFields) (P : List Call → Type 0) where
  pub exercise-Preserves : (ns : Namespace) → Admits lib P ns → Preserves P (exercise lib fields ns)
  unfolding exercise
  exercise-Preserves ns admits =
      let pattern = pattern_from 0 (lba_size lib ns) in
      let reads = run-Preserves (read_to_vec-Kept lib P ns 0 1 admits) in
      let on_first =
        λ (opcode : ℕ). run-Preserves (submit_range-Kept lib P opcode (first_block ns) admits) in
      >>=-Preserves (question-Preserves (NamespaceText.name fields ns)) λ _.
        >>=-Preserves (run-Preserves (write_execute-Kept lib P (write_pattern ns pattern) admits))
          λ _. >>=-Preserves reads λ got.
            >>=-Preserves (assert-Preserves (bytes_eq got pattern)) λ _.
              >>=-Preserves
                (run-Preserves (compare_execute-Kept lib P (compare_pattern ns pattern) admits))
                λ _. >>=-Preserves (on_first opc_verify) λ _.
                  >>=-Preserves (on_first opc_write_zeroes) λ _. >>=-Preserves reads λ zeroed.
                    >>=-Preserves (assert-Preserves (all_zero zeroed)) λ _.
                      >>=-Preserves (run-Preserves (dsm_execute-Kept lib P (trim_first ns) admits))
                        λ _. run-Preserves (flush-Kept lib P ns admits)

  pub reformat-Preserves : (ns : Namespace) → Admits lib P ns → Preserves P (reformat lib fields ns)
  unfolding reformat apply_format_setter new_format
  reformat-Preserves ns admits =
      >>=-Preserves (question-Preserves (NamespaceText.name fields ns))
        (λ _. run-Preserves (format_execute-Kept lib P (format_first ns) admits))

-- Where an iterator over the namespaces of a controller stands.
record Within (tree : NvmeTree) (c : Controller) (it : Namespaces) : Type 0 where
  of_ctrl : it.ctrl ≡ c.inner
  at_one : (ns : Handle) → it.cursor ≡ some ns → NamespaceOf tree c.inner ns

namespaces-Within : (tree : NvmeTree) (c : Controller) → Within tree c (namespaces tree c)
unfolding namespaces
namespaces-Within tree c = record { of_ctrl = refl; at_one = λ ns e. first e }

-- It yields a namespace of the controller, and goes on among those.
next-Within :
    (tree : NvmeTree) (c : Controller) (it : Namespaces) (ns : Namespace)
    → Within tree c it
    → (next_of_namespaces tree it).0 ≡ some ns
    → NamespaceOf tree c.inner ns.inner × Within tree c (next_of_namespaces tree it).1
unfolding next_of_namespaces
next-Within tree c it ns w e = go it.ctrl it.cursor w.of_ctrl w.at_one e
  where
    go :
        (ctrl : Handle) (cursor : Option Handle)
        → ctrl ≡ c.inner
        → ((n : Handle) → cursor ≡ some n → NamespaceOf tree c.inner n)
        → (next_of_namespaces tree (record { ctrl = ctrl; cursor = cursor })).0 ≡ some ns
        → NamespaceOf tree c.inner ns.inner
          × Within tree c (next_of_namespaces tree (record { ctrl = ctrl; cursor = cursor })).1
    go ctrl none of_c at e = cc
    go ctrl (some h) of_c at e =
        let same : h ≡ ns.inner = ap (λ o. elim o [ none ↦ h | some n ↦ n.inner ]) e in
        (
          rw (← same) (at h refl),
          record {
            of_ctrl = of_c;
            at_one = λ n q. next (at h refl) (ap (λ c1. tree.ctrl_next_ns c1 h) (sym of_c) ∙ q);
          },
        )

module _ (P : List Call → Type 0) (tree : NvmeTree) (fields : TreeFields)
    (treat : Namespace → Program (Unit {0})) (k : ℕ)
    (guarded : (ns : Namespace) → OnQemu tree fields ns.inner → Preserves P (treat ns)) where
  abbrev Kept : {A : Type 0} → Program A → Type 0
  Kept m = Preserves P m

  visit_namespace-Kept :
      (ns : Namespace) (n : ℕ)
      → OnQemu tree fields ns.inner
      → Kept (visit_namespace tree fields treat k ns n)
  unfolding visit_namespace
  visit_namespace-Kept ns n on = >>=-Preserves (guarded ns on) (λ _. pure-Preserves (count_one n))

  visit_controller-Kept : (c : Controller) (n : ℕ) → Kept (visit_controller tree fields treat k c n)
  unfolding visit_controller
  visit_controller-Kept c n =
      if-Preserves (bytes_eq (model_text fields c) qemu_model)
        (λ model.
          for_in-Preserves (Within tree c) (next_of_namespaces tree)
            (visit_namespace tree fields treat k)
            (λ it ns w e.
              let (of_c, w1) = next-Within tree c it ns w e in
              (
                λ b.
                    visit_namespace-Kept ns b
                      (c, bytes_eq_sound (model_text fields c) qemu_model model, of_c),
                w1,
              ))
            k (namespaces tree c) n (namespaces-Within tree c))
        (>>=-Preserves (question-Preserves (CtrlText.name fields c)) (λ _. pure-Preserves n))

  visit_subsystem-Kept : (s : Subsystem) (n : ℕ) → Kept (visit_subsystem tree fields treat k s n)
  unfolding visit_subsystem
  visit_subsystem-Kept s n =
      for_in-Preserves (λ _. Unit) (next_of_controllers tree) (visit_controller tree fields treat k)
        (λ it c _ _. (λ b. visit_controller-Kept c b, tt)) k (controllers tree s) n tt

  visit_host-Kept : (h : Host) (n : ℕ) → Kept (visit_host tree fields treat k h n)
  unfolding visit_host
  visit_host-Kept h n =
      for_in-Preserves (λ _. Unit) (next_of_subsystems tree) (visit_subsystem tree fields treat k)
        (λ it s _ _. (λ b. visit_subsystem-Kept s b, tt)) k (subsystems tree h) n tt

  -- The whole loop of `main`.
  pub loop-Kept :
      (root : Handle)
      → Kept (for_in (next_of_hosts tree) (visit_host tree fields treat k) k (hosts tree root) 0)
  loop-Kept root =
      for_in-Preserves (λ _. Unit) (next_of_hosts tree) (visit_host tree fields treat k)
        (λ it h _ _. (λ b. visit_host-Kept h b, tt)) k (hosts tree root) 0 tt
