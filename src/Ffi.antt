-- ===== src/Ffi.antt =====
-- The crate's calls of libnvme. The library itself is a parameter: a function that answers a call
-- from all the calls before it, which stands for any library, kernel and device with a state of their
-- own. A program runs over the history of its calls, the latest first, so that a theorem can say
-- which calls were made, with what arguments, and which were not.
use libnvme_rs.Base.{
  ℕ, ℤ, pos, negsuc, ◌%◌, ◌^◌, u32, Option, none, some, ◌≡◌, refl, ap, Bool, List, [], ◌∷◌,
}
use libnvme_rs.Error.{os, Result, ok, err, check_ret}
use libnvme_rs.Headers.ApiTypes.{
  NvmeIoArgs, NvmeDsmArgs, NvmeCopyArgs, NvmePassthruCmd, NvmeZnsMgmtSendArgs, NvmeZnsMgmtRecvArgs,
  NvmeZnsAppendArgs, NvmeResvAcquireArgs, NvmeResvRegisterArgs, NvmeResvReleaseArgs,
  NvmeResvReportArgs, NvmeDirectiveSendArgs, NvmeDirectiveRecvArgs, NvmeGetLogArgs,
  NvmeFormatNvmArgs, NvmeNsMgmtArgs, NvmeNsAttachArgs, NvmeFwCommitArgs, NvmeSecuritySendArgs,
  NvmeSecurityReceiveArgs, NvmeGetLbaStatusArgs, NvmeLockdownArgs, NvmeSetPropertyArgs,
  NvmeGetPropertyArgs, NvmeSanitizeNvmArgs, NvmeDevSelfTestArgs, NvmeIdentifyArgs,
}
use libnvme_rs.Headers.FeatureCalls.{GetFeatures, SetFeatures}
use libnvme_rs.Headers.Fabrics.{NvmeFabricsConfig}

-- A handle of libnvme's tree: a pointer, of which only its identity is used.
abbrev pub Handle : Type 0
Handle = ℕ

-- The parameters of `nvme_create_ctrl`: C strings, those that may be absent as options.
pub record CtrlParams : Type 0 where
  pub root : Handle
  pub subsysnqn : List ℕ
  pub transport : List ℕ
  pub traddr : Option (List ℕ)
  pub host_traddr : Option (List ℕ)
  pub host_iface : Option (List ℕ)
  pub trsvcid : Option (List ℕ)

-- The functions of libnvme that reach the system or the device, with their arguments.
pub data Call : Type 0 where
  nvme_ns_get_fd nvme_ctrl_get_fd : Handle → Call
  nvme_io : NvmeIoArgs → ℕ → Call
  nvme_dsm : NvmeDsmArgs → Call
  nvme_copy : NvmeCopyArgs → Call
  -- the file descriptor, the command, and what `result` points to
  nvme_io_passthru nvme_admin_passthru : ℤ → NvmePassthruCmd → Option ℕ → Call
  nvme_zns_mgmt_send : NvmeZnsMgmtSendArgs → Call
  nvme_zns_mgmt_recv : NvmeZnsMgmtRecvArgs → Call
  nvme_zns_append : NvmeZnsAppendArgs → Call
  nvme_resv_acquire : NvmeResvAcquireArgs → Call
  nvme_resv_register : NvmeResvRegisterArgs → Call
  nvme_resv_release : NvmeResvReleaseArgs → Call
  nvme_resv_report : NvmeResvReportArgs → Call
  nvme_directive_send : NvmeDirectiveSendArgs → Call
  nvme_directive_recv : NvmeDirectiveRecvArgs → Call
  nvme_get_log : NvmeGetLogArgs → Call
  nvme_format_nvm : NvmeFormatNvmArgs → Call
  nvme_ns_mgmt : NvmeNsMgmtArgs → Call
  nvme_ns_attach : NvmeNsAttachArgs → Call
  nvme_fw_commit : NvmeFwCommitArgs → Call
  -- the file descriptor, the size, the transfer size, the offset and the image
  nvme_fw_download_seq : ℤ → ℕ → ℕ → ℕ → List ℕ → Call
  nvme_security_send : NvmeSecuritySendArgs → Call
  nvme_security_receive : NvmeSecurityReceiveArgs → Call
  nvme_get_lba_status : NvmeGetLbaStatusArgs → Call
  nvme_lockdown : NvmeLockdownArgs → Call
  nvme_set_property : NvmeSetPropertyArgs → Call
  nvme_get_property : NvmeGetPropertyArgs → Call
  nvme_sanitize_nvm : NvmeSanitizeNvmArgs → Call
  nvme_dev_self_test : NvmeDevSelfTestArgs → Call
  nvme_ctrl_reset : ℤ → Call
  nvme_disconnect_ctrl : Handle → Call
  nvme_ctrl_identify nvme_ns_identify : Handle → Call
  nvme_identify : NvmeIdentifyArgs → Call
  -- a transfer size, and the arguments
  nvme_get_log_page : ℕ → NvmeGetLogArgs → Call
  -- what gives or takes ownership of a pointer
  nvme_scan : Call
  nvme_free_tree : Handle → Call
  nvmf_hostnqn_generate nvmf_hostid_generate nvmf_hostnqn_from_file nvmf_hostid_from_file : Call
  free : Handle → Call
  -- the controller, and `max_retries`
  nvmf_get_discovery_log : Handle → ℤ → Call
  nvme_create_ctrl : CtrlParams → Call
  nvmf_add_ctrl : Handle → Handle → NvmeFabricsConfig → Call
  nvme_free_ctrl : Handle → Call
  -- setters of the tree
  nvme_ctrl_set_discovery_ctrl nvme_ctrl_set_unique_discovery_ctrl nvme_ctrl_set_persistent :
      Handle → Bool → Call
  nvme_ctrl_set_dhchap_host_key nvme_ctrl_set_dhchap_key nvme_ctrl_set_tls_key
        nvme_ctrl_set_tls_key_identity nvme_ctrl_set_keyring :
      Handle → List ℕ → Call
  -- a descriptor, and the getter or setter of a feature with its arguments
  get_features : ℤ → GetFeatures → Call
  set_features : ℤ → SetFeatures → Call
  nvme_default_host : Handle → Call
  nvme_lookup_host : Handle → List ℕ → Option (List ℕ) → Call

-- What a call leaves behind: its return value, `errno`, what it wrote through `result` (if it did), the
-- pointer that it gave out (NULL as none), and the bytes that it wrote to the data buffer and to the metadata buffer.
pub record Reply : Type 0 where
  pub ret : ℤ
  pub errno : ℕ
  pub written : Option ℕ
  pub pointer : Option Handle
  pub data_bytes : List ℕ
  pub metadata_bytes : List ℕ

-- The argument structures, by name.
pub data ArgsStruct : Type 0 where
  io_args dsm_args copy_args zns_mgmt_send_args zns_mgmt_recv_args zns_append_args resv_acquire_args
        resv_register_args resv_release_args resv_report_args directive_send_args
        directive_recv_args get_log_args format_nvm_args ns_mgmt_args ns_attach_args fw_commit_args
        security_send_args security_receive_args get_lba_status_args lockdown_args set_property_args
        get_property_args sanitize_nvm_args dev_self_test_args identify_args :
      ArgsStruct

-- libnvme as the crate sees it: the answers, the getters of the tree, and the sizes of the argument
-- structures, which the generated bindings fix.
pub record Libnvme : Type 0 where
  pub answer : List Call → Call → Reply
  pub ns_get_nsid : Handle → ℤ
  pub ns_get_lba_size : Handle → ℤ
  pub ns_get_meta_size : Handle → ℤ
  pub ns_get_lba_count : Handle → ℕ
  pub size_of : ArgsStruct → ℤ
  -- what `nvmf_default_config` writes
  pub fabrics_defaults : NvmeFabricsConfig

-- A program: from the history of calls to a result and the longer history.
abbrev pub M : Type 0 → Type 0
M A = List Call → Result A × List Call

infixl 5 ◌>>=◌ ◌>>◌
abbrev pub ◌>>=◌ : {A B : Type 0} → M A → (A → M B) → M B
◌>>=◌ m f t = let (r, t') = m t in elim r [ ok a ↦ f a t' | err e ↦ (err e, t') ]

abbrev pub ◌>>◌ : {A B : Type 0} → M A → M B → M B
m >> k = m >>= λ _. k

abbrev pub pure : {A : Type 0} → A → M A
pure a t = (ok a, t)

-- `?` on a result that needed no call.
abbrev pub lift : {A : Type 0} → Result A → M A
lift r t = (r, t)

module _ (lib : Libnvme) where
  abbrev pub call : Call → M Reply
  call c t = (ok (lib.answer t c), c ∷ t)

-- What `result`, a `u32` that starts at 0, holds after the call.
abbrev pub result_u32 : Reply → ℕ
result_u32 r = elim r.written [ none ↦ 0 | some v ↦ u32 v ]

-- The same for a `u64`.
abbrev pub result_u64 : Reply → ℕ
result_u64 r = elim r.written [ none ↦ 0 | some v ↦ v % 2 ^ 64 ]

-- What a function that ends in `check_ret(ret)?; Ok(a)` returns.
unfoldable pub outcome : {A : Type 0} → Reply → A → Result A
outcome r a = elim (check_ret r.ret r.errno) [ ok _ ↦ ok a | err e ↦ err e ]

-- The end of most functions: one call, the check of its return value, and a result read from the
-- reply.
unfoldable pub issue : {A : Type 0} → Libnvme → Call → (Reply → A) → M A
unfolding outcome
issue lib c g = do r ← call lib c; lift (outcome r (g r))

-- The end of `ns_fd` and `open_fd`: a negative descriptor is an error of the system.
unfoldable pub fd_of : Reply → Result ℤ
fd_of r = elim r.ret [ pos n ↦ ok (pos n) | negsuc n ↦ err (os (pos r.errno)) ]

-- Inversion of a successful bind.
pub >>=-eq-ok :
    {A B : Type 0} (m : M A) (f : A → M B) (t : List Call) {b : B} {t' : List Call}
    → (m >>= f) t ≡ (ok b, t')
    → (a : A) × (t1 : List Call) × (m t ≡ (ok a, t1)) × (f a t1 ≡ (ok b, t'))
>>=-eq-ok {A} {B} m f t {b} {t'} h = go (m t) refl h
  where
    go :
        (p : Result A × List Call)
        → m t ≡ p
        → (let (r, t1) = p in elim r [ ok a ↦ f a t1 | err e ↦ (err e, t1) ]) ≡ (ok b, t')
        → (a : A) × (t1 : List Call) × (m t ≡ (ok a, t1)) × (f a t1 ≡ (ok b, t'))
    go (ok a, t1) e g = (a, t1, e, g)
    go (err x, t1) e g = cc

-- A bind whose first program succeeds.
pub >>=-ok :
    {A B : Type 0} (m : M A) (f : A → M B) (t : List Call) {a : A} {t' : List Call}
    → m t ≡ (ok a, t')
    → (m >>= f) t ≡ f a t'
>>=-ok m f t h = ap (λ p. ((λ _. p) >>= f) []) h

pub lift->>=-eq-ok :
    {A B : Type 0} (r : Result A) (f : A → M B) (t : List Call) {b : B} {t' : List Call}
    → (lift r >>= f) t ≡ (ok b, t')
    → (a : A) × (r ≡ ok a) × (f a t ≡ (ok b, t'))
lift->>=-eq-ok (ok a) f t h = (a, refl, h)
lift->>=-eq-ok (err e) f t h = cc
