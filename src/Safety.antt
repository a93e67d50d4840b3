-- ===== src/Safety.antt =====
-- What must hold of a call for libnvme and the device to stay inside the caller's buffers: the length or count passed with a
-- pointer is covered by what it points to, NULL goes with zero, and a count of blocks is that of the buffer.
use libnvme_rs.Base.{
  ℕ, ◌+◌, ◌*◌, ◌≤◌, ◌<◌, ◌^◌, ◌≡◌, Option, none, some, List, length, ◌≢◌, Bool, if◌then◌else◌, [],
  ◌∷◌, ℤ,
}
use libnvme_rs.Headers.FeatureCalls.{
  GetFeatures, SetFeatures, nvme_get_features_host_id, nvme_set_features_host_id,
}
use libnvme_rs.Headers.WireTypes.{NvmeCtrlList}
use libnvme_rs.Namespace.{Namespace, ns_fd, lba_size}
use libnvme_rs.Error.{Result, ok, err}
use libnvme_rs.Keeps.{Keeps}
use libnvme_rs.Ffi.{
  Libnvme, Reply, M, ◌>>=◌, issue, Call, nvme_io, nvme_dsm, nvme_copy, nvme_io_passthru,
  nvme_admin_passthru, nvme_zns_mgmt_send, nvme_zns_mgmt_recv, nvme_zns_append, nvme_resv_report,
  nvme_directive_send, nvme_directive_recv, nvme_get_log, nvme_ns_attach, nvme_fw_download_seq,
  nvme_security_send, nvme_security_receive, nvme_get_lba_status, nvme_identify, nvme_get_log_page,
  get_features, set_features, nvme_ns_get_fd, fd_of,
}

abbrev pub Fits {ℓ} : {A : Type ℓ} → Option (List A) → ℕ → Type 0
Fits none n = n ≡ 0
Fits (some buf) n = n ≤ length buf

-- A controller list of the wire format: 2047 slots, of which `num` are in use.
abbrev pub IsList : Option NvmeCtrlList → Type 0
IsList none = ⊥
IsList (some l) = (length l.identifier ≡ 2047) × (l.num ≤ 2047)

-- A host identifier has 8 bytes, or 16 when it is extended. The structures of the other features have their sizes
-- by their types.
abbrev pub hostid_size : Bool → ℕ
hostid_size exhid = if exhid then 16 else 8

abbrev IsSafeGet : GetFeatures → Type 0
IsSafeGet (nvme_get_features_host_id _ exhid len hostid) =
    (hostid_size exhid ≤ length hostid) × (len ≤ length hostid)
IsSafeGet _ = Unit

abbrev IsSafeSet : SetFeatures → Type 0
IsSafeSet (nvme_set_features_host_id exhid _ hostid) = hostid_size exhid ≤ length hostid
IsSafeSet _ = Unit

abbrev pub IsSafe : Call → Type 0
IsSafe (nvme_io a _) =
    Fits a.data_ptr a.data_len × Fits a.metadata a.metadata_len × (a.nlb < 2 ^ 16)
IsSafe (nvme_dsm a) = Fits a.dsm a.nr_ranges × (a.dsm ≢ none)
IsSafe (nvme_copy a) = Fits a.copy (a.nr + 1) × (a.nr < 128)
IsSafe (nvme_io_passthru _ c _) = Fits c.addr c.data_len × Fits c.metadata c.metadata_len
IsSafe (nvme_admin_passthru _ c _) = Fits c.addr c.data_len × Fits c.metadata c.metadata_len
IsSafe (nvme_zns_mgmt_send a) = Fits a.data_ptr a.data_len
IsSafe (nvme_zns_mgmt_recv a) = Fits a.data_ptr a.data_len × (a.data_ptr ≢ none)
IsSafe (nvme_zns_append a) =
    Fits a.data_ptr a.data_len × Fits a.metadata a.metadata_len × (a.nlb < 2 ^ 16)
IsSafe (nvme_resv_report a) = Fits a.report a.len × (a.report ≢ none)
IsSafe (nvme_directive_send a) = Fits a.data_ptr a.data_len
IsSafe (nvme_directive_recv a) = Fits a.data_ptr a.data_len
IsSafe (nvme_get_log a) = Fits a.log a.len
IsSafe (nvme_ns_attach a) = IsList a.ctrlist
IsSafe (nvme_fw_download_seq _ size _ _ image) = size ≤ length image
IsSafe (nvme_security_send a) = Fits a.data_ptr a.data_len × Fits a.data_ptr a.tl
IsSafe (nvme_security_receive a) = Fits a.data_ptr a.data_len × Fits a.data_ptr a.al
-- "Maximum number of dwords to return"
IsSafe (nvme_get_lba_status a) = Fits a.lbas (a.mndw * 4)
IsSafe (nvme_identify a) = Fits a.data_ptr 4096
IsSafe (nvme_get_log_page _ a) = Fits a.log a.len
IsSafe (get_features _ f) = IsSafeGet f
IsSafe (set_features _ f) = IsSafeSet f
IsSafe _ = Unit

-- The buffer of a command for `nlb + 1` blocks has just the bytes of so many blocks of the namespace that the call
-- before it opened. A command without a buffer transfers no data.
abbrev pub HoldsBlocks : Libnvme → Option (List ℕ) → ℕ → List Call → Type 0
HoldsBlocks lib none nlb t = Unit
HoldsBlocks lib (some buf) nlb (nvme_ns_get_fd ns ∷ t) =
    length buf ≡ (nlb + 1) * lba_size lib (record { inner = ns })
HoldsBlocks lib (some buf) nlb _ = ⊥

-- What the history before a call must have to do with it.
abbrev pub IsMeasured : Libnvme → Call → List Call → Type 0
IsMeasured lib (nvme_io a _) t = HoldsBlocks lib a.data_ptr a.nlb t
IsMeasured lib (nvme_zns_append a) t = HoldsBlocks lib a.data_ptr a.nlb t
IsMeasured lib _ t = Unit

abbrev pub AllSafe : Libnvme → List Call → Type 0
AllSafe lib [] = Unit
AllSafe lib (c ∷ t) = IsSafe c × IsMeasured lib c t × AllSafe lib t

-- A program that makes no unsafe call.
abbrev pub KeepsSafe : Libnvme → {A : Type 0} → M A → Type 0
KeepsSafe lib m = Keeps (AllSafe lib) m

-- A call for no blocks.
abbrev pub IsBlockless : Call → Type 0
IsBlockless (nvme_io _ _) = ⊥
IsBlockless (nvme_zns_append _) = ⊥
IsBlockless _ = Unit

blockless-IsMeasured :
    (lib : Libnvme) (c : Call) (t : List Call) → IsBlockless c → IsMeasured lib c t
blockless-IsMeasured lib (nvme_io _ _) t h = absurd h
blockless-IsMeasured lib (nvme_zns_append _) t h = absurd h
blockless-IsMeasured lib _ t h = tt

pub issue-KeepsSafe :
    {A : Type 0} (lib : Libnvme) (c : Call) (g : Reply → A)
    → IsBlockless c
    → IsSafe c
    → KeepsSafe lib (issue lib c g)
unfolding issue
issue-KeepsSafe lib c g blockless s = record {
  keeps = λ t h. (s, blockless-IsMeasured lib c t blockless, h);
}

pub ns_fd-KeepsSafe : (lib : Libnvme) (ns : Namespace) → KeepsSafe lib (ns_fd lib ns)
unfolding ns_fd
ns_fd-KeepsSafe lib ns = record { keeps = λ t h. (tt, tt, h) }

fd_bind-KeepsSafe :
    (lib : Libnvme) {A : Type 0} (r : Result ℤ) (mk : ℤ → Call) (g : Reply → A) (t : List Call)
    → ((fd : ℤ) → IsSafe (mk fd))
    → ((fd : ℤ) → IsMeasured lib (mk fd) t)
    → AllSafe lib t
    → AllSafe lib (((λ _. (r, t)) >>= λ fd. issue lib (mk fd) g) []).1
unfolding issue
fd_bind-KeepsSafe lib (ok fd) mk g t safe measured h = (safe fd, measured fd, h)
fd_bind-KeepsSafe lib (err e) mk g t safe measured h = h

-- A command for blocks, through the descriptor of its namespace.
pub blocks-KeepsSafe :
    (lib : Libnvme) {A : Type 0} (ns : Namespace) (mk : ℤ → Call) (g : Reply → A)
    → ((fd : ℤ) → IsSafe (mk fd))
    → ((fd : ℤ) (t : List Call) → IsMeasured lib (mk fd) (nvme_ns_get_fd ns.inner ∷ t))
    → KeepsSafe lib (ns_fd lib ns >>= λ fd. issue lib (mk fd) g)
unfolding ns_fd
blocks-KeepsSafe lib ns mk g safe measured = record {
  keeps = λ t h.
      let opened = nvme_ns_get_fd ns.inner in
      fd_bind-KeepsSafe lib (fd_of (lib.answer t opened)) mk g (opened ∷ t) safe
        (λ fd. measured fd t) (tt, tt, h);
}
