-- ===== src/Commands/Passthru.antt =====
-- libnvme/src/commands.rs: the raw command passed through to the admin queue or to an I/O queue.
use libnvme_rs.Base.{ℕ, Option, some, List}
use libnvme_rs.Headers.ApiTypes.{NvmePassthruCmd}
use libnvme_rs.Ffi.{
  Libnvme, M, ◌>>=◌, issue, Reply, result_u32, nvme_admin_passthru, nvme_io_passthru,
}
use libnvme_rs.Controller.{Controller, open_fd}
use libnvme_rs.Directives.{buf_len, filled_buf}

pub record PassthruArgs : Type 0 where
  pub opcode : ℕ
  pub flags : ℕ
  pub rsvd : ℕ
  pub nsid : ℕ
  pub cdw2 : ℕ
  pub cdw3 : ℕ
  pub cdw10 : ℕ
  pub cdw11 : ℕ
  pub cdw12 : ℕ
  pub cdw13 : ℕ
  pub cdw14 : ℕ
  pub cdw15 : ℕ
  pub payload : Option (List ℕ)
  pub metadata : Option (List ℕ)
  pub timeout_ms : ℕ

-- What a command leaves behind: its result dword and the caller's buffers.
pub record PassthruDone : Type 0 where
  pub result : ℕ
  pub payload : Option (List ℕ)
  pub metadata : Option (List ℕ)

unfoldable pub passthru_done : PassthruArgs → Reply → PassthruDone
passthru_done args r = record {
  result = result_u32 r;
  payload = filled_buf args.payload r.data_bytes;
  metadata = filled_buf args.metadata r.metadata_bytes;
}

-- The parameters of `nvme_admin_passthru` and `nvme_io_passthru`, under the names of the kernel's command.
unfoldable pub passthru_cmd : PassthruArgs → NvmePassthruCmd
passthru_cmd args = record {
  opcode = args.opcode;
  flags = args.flags;
  rsvd1 = args.rsvd;
  nsid = args.nsid;
  cdw2 = args.cdw2;
  cdw3 = args.cdw3;
  metadata = args.metadata;
  addr = args.payload;
  metadata_len = buf_len args.metadata;
  data_len = buf_len args.payload;
  cdw10 = args.cdw10;
  cdw11 = args.cdw11;
  cdw12 = args.cdw12;
  cdw13 = args.cdw13;
  cdw14 = args.cdw14;
  cdw15 = args.cdw15;
  timeout_ms = args.timeout_ms;
  result = 0;
}

module _ (lib : Libnvme) where
  unfoldable pub admin_passthru : Controller → PassthruArgs → M PassthruDone
  admin_passthru c args = do
    fd ← open_fd lib c
    issue lib (nvme_admin_passthru fd (passthru_cmd args) (some 0)) (passthru_done args)

  unfoldable pub io_passthru : Controller → PassthruArgs → M PassthruDone
  io_passthru c args = do
    fd ← open_fd lib c
    issue lib (nvme_io_passthru fd (passthru_cmd args) (some 0)) (passthru_done args)
