-- ===== src/Namespace.antt =====
-- libnvme/src/namespace.rs: the accessors of a namespace.
use libnvme_rs.Base.{ℕ, wrap_ℤ, ℤ, pos, negsuc, saturating_mul, List, ◌∷◌, ◌≡◌, arith}
use libnvme_rs.Error.{ok, err, os}
use libnvme_rs.Ffi.{Handle, Call, nvme_ns_get_fd, Libnvme, M, ◌>>=◌, lift, call, fd_of}

pub record Namespace : Type 0 where
  pub inner : Handle

module _ (lib : Libnvme) where
  unfoldable pub nsid : Namespace → ℕ
  nsid ns = wrap_ℤ 32 (lib.ns_get_nsid ns.inner)

  unfoldable pub lba_size : Namespace → ℕ
  lba_size ns = wrap_ℤ 32 (lib.ns_get_lba_size ns.inner)

  unfoldable pub meta_size : Namespace → ℕ
  meta_size ns = wrap_ℤ 32 (lib.ns_get_meta_size ns.inner)

  unfoldable pub lba_count : Namespace → ℕ
  lba_count ns = lib.ns_get_lba_count ns.inner

  unfoldable pub size_bytes : Namespace → ℕ
  size_bytes ns = saturating_mul (lba_count ns) (lba_size ns)

  -- `ns_fd` of io.rs, zns.rs, reservations.rs and directives.rs, which are the same.
  unfoldable pub ns_fd : Namespace → M ℤ
  ns_fd ns = do r ← call lib (nvme_ns_get_fd ns.inner); lift (fd_of r)

  -- A descriptor that libnvme gives is passed on, and a negative answer becomes the system's error.
  pub ns_fd_ok :
      (ns : Namespace) (t : List Call) (fd : ℕ)
      → (lib.answer t (nvme_ns_get_fd ns.inner)).ret ≡ pos fd
      → ns_fd ns t ≡ (ok (pos fd), nvme_ns_get_fd ns.inner ∷ t)
  unfolding ns_fd fd_of
  ns_fd_ok ns t fd e = ground arith

  pub ns_fd_err :
      (ns : Namespace) (t : List Call) (n : ℕ)
      → (lib.answer t (nvme_ns_get_fd ns.inner)).ret ≡ negsuc n
      → let r = lib.answer t (nvme_ns_get_fd ns.inner) in
        ns_fd ns t ≡ (err (os (pos r.errno)), nvme_ns_get_fd ns.inner ∷ t)
  unfolding ns_fd fd_of
  ns_fd_err ns t n e = ground arith
