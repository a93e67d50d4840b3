-- ===== src/Format/Laws.antt =====
-- Which secure erase a Format NVM of libnvme/src/namespace.rs asks for, and when it is not sent.
use libnvme_rs.Base.{ℕ, ℤ, pos, negsuc, ◌≡◌, refl, ◌∙◌, ◌↔◌, List, [], ◌∷◌, arith}
use libnvme_rs.Error.{err, os}
use libnvme_rs.Ffi.{Libnvme, Call, nvme_ns_get_fd}
use libnvme_rs.Namespace.{Namespace, ns_fd_err}
use libnvme_rs.Admin.{SecureErase, no_erase, user_data, cryptographic, secure_erase_raw}
use libnvme_rs.Format.{
  Format, new_format, FormatSetter, set_secure_erase, apply_format_setter, raw_format_args,
  format_execute,
}

-- A builder after a chain of calls.
abbrev pub build : List FormatSetter → Format → Format
build [] c = c
build (s ∷ ss) c = build ss (apply_format_setter s c)

-- The erase mode that the last call of that setter chose, or the one before the chain.
abbrev pub chosen : List FormatSetter → SecureErase → SecureErase
chosen [] d = d
chosen (set_secure_erase mode ∷ ss) d = chosen ss mode
chosen (_ ∷ ss) d = chosen ss d

build_from :
    (ss : List FormatSetter) (c : Format) → (build ss c).secure_erase ≡ chosen ss c.secure_erase
unfolding apply_format_setter
build_from [] c = refl
build_from (s ∷ ss) c = build_from ss (apply_format_setter s c) ∙ kept s ss c
  where
    kept :
        (s : FormatSetter) (ss : List FormatSetter) (c : Format)
        → chosen ss (apply_format_setter s c).secure_erase ≡ chosen (s ∷ ss) c.secure_erase
    kept s ss c = ground arith

ses_values :
    (m : SecureErase)
    → ((secure_erase_raw m ≡ 0) ↔ (m ≡ no_erase))
      × ((secure_erase_raw m ≡ 1) ↔ (m ≡ user_data))
      × ((secure_erase_raw m ≡ 2) ↔ (m ≡ cryptographic))
unfolding secure_erase_raw
ses_values m = ground arith

module _ (lib : Libnvme) where
  -- The Secure Erase Settings that are sent are those of the mode that the last call of the setter chose, with the values
  -- of `enum nvme_cmd_format_ses`: 0 for none, which is also sent when no mode was chosen, 1 for the erasure of user data
  -- and 2 for the cryptographic one.
  pub format_ses_iff :
      (ns : Namespace) (ss : List FormatSetter) (fd : ℤ)
      → let ses = (raw_format_args lib (build ss (new_format ns)) fd).ses in
        ((ses ≡ 0) ↔ (chosen ss no_erase ≡ no_erase))
        × ((ses ≡ 1) ↔ (chosen ss no_erase ≡ user_data))
        × ((ses ≡ 2) ↔ (chosen ss no_erase ≡ cryptographic))
  unfolding raw_format_args new_format
  format_ses_iff ns ss fd = rw (build_from ss (new_format ns)) (ses_values (chosen ss no_erase))

  -- Without a descriptor nothing is formatted: the call for the descriptor is the only one.
  pub format_execute_no_fd :
      (c : Format) (t : List Call) (n : ℕ)
      → (lib.answer t (nvme_ns_get_fd c.ns.inner)).ret ≡ negsuc n
      → format_execute lib c t ≡ (
        err (os (pos (lib.answer t (nvme_ns_get_fd c.ns.inner)).errno)),
        nvme_ns_get_fd c.ns.inner ∷ t,
      )
  unfolding format_execute
  format_execute_no_fd c t n e = ground (arith, ns_fd_err lib c.ns t n e)
