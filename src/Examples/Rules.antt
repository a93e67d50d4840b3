-- ===== src/Examples/Rules.antt =====
-- What the commands of libnvme/src/{io,namespace}.rs keep, if the two calls at their end keep it: the opening of the namespace
-- and a call through its descriptor.
use libnvme_rs.Base.{
  arith, refl, ap, Option, none, sym, subst, length, inl, inr, some, ℕ, ◌≡◌, ℤ, pos, List, [], ◌∷◌,
}
use libnvme_rs.Error.{Result}
use libnvme_rs.Keeps.{Keeps, >>=-Keeps, lift->>=-Keeps, pure-Keeps}
use libnvme_rs.Ffi.{
  Call, Reply, Libnvme, M, ◌>>=◌, issue, nvme_ns_get_fd, nvme_io, nvme_dsm, nvme_io_passthru,
  nvme_format_nvm, result_u32,
}
use libnvme_rs.Namespace.{Namespace, ns_fd_ok, ns_fd_err, ns_fd, lba_size}
use libnvme_rs.Format.{Format, raw_format_args, format_execute}
use libnvme_rs.Io.Validate.{encode_nlb, check_buf_len}
use libnvme_rs.Io.Args.{base_args, apply_to, attach_metadata, point_result}
use libnvme_rs.Io.Commands.Done.{ℤ-cases}
use libnvme_rs.Io.Commands.{
  Transfer, BlockRange, transfer_args, submit_transfer, range_args, submit_range, read_execute,
  read_done, write_execute, compare_execute, flush, flush_cmd, opc_read, opc_write, opc_compare,
}
use libnvme_rs.Io.RangeCommands.{Dsm, raw_dsm_args, dsm_execute, check_dsm_ranges, given_ranges}
use libnvme_rs.Io.ReadToVec.{vec_len, read_zeros, read_to_vec}

-- The descriptor of a command.
abbrev pub command_fd : Call → Option ℤ
command_fd (nvme_io a _) = some a.fd
command_fd (nvme_dsm a) = some a.fd
command_fd (nvme_io_passthru fd _ _) = some fd
command_fd (nvme_format_nvm a) = some a.fd
command_fd _ = none

-- `P` is kept by any command through the descriptor of a namespace.
abbrev pub Admits : Libnvme → (List Call → Type 0) → Namespace → Type 1
Admits lib P ns =
    (A : Type 0) (mk : ℤ → Call) (g : Reply → A)
    → ((fd : ℤ) → command_fd (mk fd) ≡ some fd)
    → Keeps P (ns_fd lib ns >>= λ fd. issue lib (mk fd) g)

module _ (lib : Libnvme) (P : List Call → Type 0) where
  -- It is enough that the opening keeps `P`, and then a command through the descriptor that it returned.
  pub opened-Admits :
      (ns : Namespace)
      → ((t : List Call) → P t → P (nvme_ns_get_fd ns.inner ∷ t))
      → ((c : Call) (n : ℕ) (t : List Call)
          → command_fd c ≡ some (pos n)
          → (lib.answer t (nvme_ns_get_fd ns.inner)).ret ≡ pos n
          → P (nvme_ns_get_fd ns.inner ∷ t)
          → P (c ∷ nvme_ns_get_fd ns.inner ∷ t))
      → Admits lib P ns
  unfolding issue
  opened-Admits ns opening through A mk g fits = record {
    keeps = λ t h.
        let send : ℤ → M A = λ fd. issue lib (mk fd) g in
        let enter : Result ℤ × List Call → Result A × List Call = λ p. ((λ _. p) >>= send) [] in
        elim (ℤ-cases (lib.answer t (nvme_ns_get_fd ns.inner)).ret) [
          | inl (n, e) ↦
              subst (λ p. P (enter p).1) (sym (ns_fd_ok lib ns t n e))
                (through (mk (pos n)) n t (fits (pos n)) e (opening t h))
          | inr (n, e) ↦ subst (λ p. P (enter p).1) (sym (ns_fd_err lib ns t n e)) (opening t h)
        ];
  }

  pub flush-Kept : (ns : Namespace) → Admits lib P ns → Keeps P (flush lib ns)
  unfolding flush
  flush-Kept ns admits =
      admits _ (λ fd. nvme_io_passthru fd (flush_cmd lib ns) (some 0)) (λ _. tt) (λ fd. refl)

  module _ (c : Transfer) (admits : Admits lib P c.ns) where
    fd_passed : (fd : ℤ) (e : ℕ) → (transfer_args lib c fd e).fd ≡ fd
    unfolding transfer_args base_args apply_to attach_metadata point_result
    fd_passed fd e = ground arith

    submit_transfer-Kept : (opcode : ℕ) → Keeps P (submit_transfer lib opcode c)
    unfolding submit_transfer
    submit_transfer-Kept opcode =
        lift->>=-Keeps {r = check_buf_len (length c.buf) c.nlb (lba_size lib c.ns)} λ _ _.
          lift->>=-Keeps {r = encode_nlb c.nlb} λ e _.
            admits _ (λ fd. nvme_io (transfer_args lib c fd e) opcode) (λ r. r)
              (λ fd. ap some (fd_passed fd e))

    pub read_execute-Kept : Keeps P (read_execute lib c)
    unfolding read_execute
    read_execute-Kept = >>=-Keeps (submit_transfer-Kept opc_read) (λ r. pure-Keeps (read_done c r))

    pub write_execute-Kept : Keeps P (write_execute lib c)
    unfolding write_execute
    write_execute-Kept = >>=-Keeps (submit_transfer-Kept opc_write) (λ r. pure-Keeps (result_u32 r))

    pub compare_execute-Kept : Keeps P (compare_execute lib c)
    unfolding compare_execute
    compare_execute-Kept =
        >>=-Keeps (submit_transfer-Kept opc_compare) (λ r. pure-Keeps (result_u32 r))

  pub submit_range-Kept :
      (opcode : ℕ) (c : BlockRange) → Admits lib P c.ns → Keeps P (submit_range lib opcode c)
  unfolding submit_range range_args base_args apply_to point_result
  submit_range-Kept opcode c admits =
      lift->>=-Keeps {r = encode_nlb c.nlb}
        λ e _. admits _ (λ fd. nvme_io (range_args lib c fd e) opcode) result_u32 (λ fd. refl)

  pub dsm_execute-Kept : (c : Dsm) → Admits lib P c.ns → Keeps P (dsm_execute lib c)
  unfolding dsm_execute raw_dsm_args
  dsm_execute-Kept c admits =
      lift->>=-Keeps {r = check_dsm_ranges (given_ranges c)}
        λ _ _. admits _ (λ fd. nvme_dsm (raw_dsm_args lib c fd)) result_u32 (λ fd. refl)

  pub read_to_vec-Kept :
      (ns : Namespace) (slba nlb : ℕ) → Admits lib P ns → Keeps P (read_to_vec lib ns slba nlb)
  unfolding read_to_vec
  read_to_vec-Kept ns slba nlb admits = lift->>=-Keeps {r = vec_len nlb (lba_size lib ns)} λ len _.
      >>=-Keeps (read_execute-Kept (read_zeros ns slba nlb len) admits)
        (λ done. pure-Keeps done.buf)

  pub format_execute-Kept : (c : Format) → Admits lib P c.ns → Keeps P (format_execute lib c)
  unfolding format_execute raw_format_args
  format_execute-Kept c admits =
      admits _ (λ fd. nvme_format_nvm (raw_format_args lib c fd)) (λ _. tt) (λ fd. refl)
