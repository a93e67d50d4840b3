-- ===== src/Io/Commands/Done.antt =====
-- What a command of libnvme/src/io.rs has done when it succeeds: the calls that it made, and their answers.
use libnvme_rs.Base.{
  inl, inr, ◌⊎◌, negsuc, ◌+◌, ◌*◌, ℕ, ◌≡◌, refl, ℤ, pos, List, ◌∷◌, length, arith,
}
use libnvme_rs.Error.{ok, check_ret}
use libnvme_rs.Ffi.{
  Libnvme, Reply, Call, M, ◌>>=◌, lift, fd_of, outcome, issue, result_u32, nvme_io, nvme_ns_get_fd,
  >>=-eq-ok, lift->>=-eq-ok,
}
use libnvme_rs.Namespace.{Namespace, lba_size, ns_fd}
use libnvme_rs.Io.Validate.{encode_nlb, check_buf_len}
use libnvme_rs.Io.Validate.Laws.{encode_nlb_iff, check_buf_len_iff}
use libnvme_rs.Io.Commands.{
  Transfer, BlockRange, transfer_args, submit_transfer, range_args, submit_range,
}

-- From the history `t` a command got the descriptor `fd` of a namespace and made one successful I/O call, which
-- left the history `t1`.
pub record Issued (lib : Libnvme) (ns : Namespace) (io : Call) (fd : ℕ) (t t1 : List Call)
    : Type 0 where
  pub opened : (lib.answer t (nvme_ns_get_fd ns.inner)).ret ≡ pos fd
  pub succeeded : (lib.answer (nvme_ns_get_fd ns.inner ∷ t) io).ret ≡ pos 0
  pub history : t1 ≡ io ∷ nvme_ns_get_fd ns.inner ∷ t

pub ℤ-cases : (z : ℤ) → ((n : ℕ) × (z ≡ pos n)) ⊎ ((n : ℕ) × (z ≡ negsuc n))
ℤ-cases (pos n) = inl (n, refl)
ℤ-cases (negsuc n) = inr (n, refl)

module _ (lib : Libnvme) where
  issue-ok :
      {A : Type 0} (c : Call) (g : Reply → A) (t : List Call) {a : A} {t1 : List Call}
      → issue lib c g t ≡ (ok a, t1)
      → ((lib.answer t c).ret ≡ pos 0) × (a ≡ g (lib.answer t c)) × (t1 ≡ c ∷ t)
  unfolding issue outcome check_ret
  issue-ok c g t h = (ground arith, ground arith, ground arith)

  ns_fd-ok :
      (ns : Namespace) (t : List Call) {z : ℤ} {t1 : List Call}
      → ns_fd lib ns t ≡ (ok z, t1)
      → (fd : ℕ) × (z ≡ pos fd)
        × ((lib.answer t (nvme_ns_get_fd ns.inner)).ret ≡ pos fd)
        × (t1 ≡ nvme_ns_get_fd ns.inner ∷ t)
  unfolding ns_fd fd_of
  ns_fd-ok ns t h = elim (ℤ-cases (lib.answer t (nvme_ns_get_fd ns.inner)).ret) [
    | inl (n, e) ↦ (n, ground arith, ground arith, ground arith)
    | inr (n, e) ↦ absurd (ground arith)
  ]

  -- The two calls at the end of a command on a namespace.
  issued :
      {A : Type 0} (ns : Namespace) (mk : ℤ → Call) (g : Reply → A) (t : List Call) {a : A}
      {t1 : List Call}
      → (ns_fd lib ns >>= λ fd. issue lib (mk fd) g) t ≡ (ok a, t1)
      → (fd : ℕ) × (a ≡ g (lib.answer (nvme_ns_get_fd ns.inner ∷ t) (mk (pos fd))))
        × Issued lib ns (mk (pos fd)) fd t t1
  issued ns mk g t h =
      let (z, t2, opened, h2) = >>=-eq-ok (ns_fd lib ns) (λ fd. issue lib (mk fd) g) t h in
      let (fd, is_fd, ret, here) = ns_fd-ok ns t opened in
      let (ret2, value, there) = issue-ok (mk z) g t2 h2 in
      (fd, cc, record { opened = ret; succeeded = cc; history = cc })

  -- What a successful Read, Write or Compare has passed to libnvme and got back.
  pub submit_transfer-ok :
      (opcode : ℕ) (c : Transfer) (t : List Call) {r : Reply} {t1 : List Call}
      → submit_transfer lib opcode c t ≡ (ok r, t1)
      → (fd : ℕ) × (e : ℕ) × (length c.buf ≡ c.nlb * lba_size lib c.ns)
        × (c.nlb ≡ e + 1)
        × (r
            ≡ lib.answer
                (nvme_ns_get_fd c.ns.inner ∷ t)
                (nvme_io (transfer_args lib c (pos fd) e) opcode))
        × Issued lib c.ns (nvme_io (transfer_args lib c (pos fd) e) opcode) fd t t1
  unfolding submit_transfer
  submit_transfer-ok opcode c t h =
      let io : ℕ → ℤ → Call = λ e fd. nvme_io (transfer_args lib c fd e) opcode in
      let send : ℕ → M Reply = λ e. ns_fd lib c.ns >>= λ fd. issue lib (io e fd) (λ r. r) in
      let (_, sized, h2) =
        lift->>=-eq-ok (check_buf_len (length c.buf) c.nlb (lba_size lib c.ns))
          (λ _. lift (encode_nlb c.nlb) >>= send) t h in
      let (e, counted, h3) = lift->>=-eq-ok (encode_nlb c.nlb) send t h2 in
      let (fd, value, calls) = issued c.ns (io e) (λ r. r) t h3 in
      (
        fd,
        e,
        (check_buf_len_iff (length c.buf) c.nlb (lba_size lib c.ns)).0 sized,
        ((encode_nlb_iff c.nlb e).0 counted).0,
        value,
        calls,
      )

  pub submit_range-ok :
      (opcode : ℕ) (c : BlockRange) (t : List Call) {a : ℕ} {t1 : List Call}
      → submit_range lib opcode c t ≡ (ok a, t1)
      → (fd : ℕ) × (e : ℕ) × (c.nlb ≡ e + 1)
        × Issued lib c.ns (nvme_io (range_args lib c (pos fd) e) opcode) fd t t1
  unfolding submit_range
  submit_range-ok opcode c t h =
      let io : ℕ → ℤ → Call = λ e fd. nvme_io (range_args lib c fd e) opcode in
      let send : ℕ → M ℕ = λ e. ns_fd lib c.ns >>= λ fd. issue lib (io e fd) result_u32 in
      let (e, counted, h2) = lift->>=-eq-ok (encode_nlb c.nlb) send t h in
      let (fd, _, calls) = issued c.ns (io e) result_u32 t h2 in
      (fd, e, ((encode_nlb_iff c.nlb e).0 counted).0, calls)
