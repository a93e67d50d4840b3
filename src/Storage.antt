-- ===== src/Storage.antt =====
-- What a program that uses libnvme/src/io.rs relies on where data comes back from the device: libnvme and the device are
-- not in the repository, and this is the documented behaviour of both that the examples need.
pub mod Laws
pub mod ReadBack
use libnvme_rs.Base.{
  ℕ, ◌≡◌, ◌&&◌, ◌||◌, Bool, true, false, ◌==◌, if◌then◌else◌, ℤ, pos, negsuc, Option, none, some,
  List, [], ◌∷◌, ◌++◌, All, length, take, replicate,
}
use libnvme_rs.Headers.ApiTypes.{NvmeIoArgs}
use libnvme_rs.Ffi.{Handle, Call, Reply, Libnvme, nvme_ns_get_fd, nvme_io, nvme_free_tree}
use libnvme_rs.Io.Commands.{opc_read, opc_write, opc_compare, opc_verify, opc_write_zeroes}

-- What the history of calls says of a range of blocks.
pub data Content : Type 0 where
  unknown zeroes : Content
  bytes : List ℕ → Content

abbrev pub eq_ℤ : ℤ → ℤ → Bool
eq_ℤ (pos a) (pos b) = a == b
eq_ℤ (negsuc a) (negsuc b) = a == b
eq_ℤ (pos a) (negsuc b) = false
eq_ℤ (negsuc a) (pos b) = false

-- The same blocks of the same namespace, through the same descriptor.
unfoldable pub same_range : NvmeIoArgs → NvmeIoArgs → Bool
same_range a b = eq_ℤ a.fd b.fd && a.nsid == b.nsid && a.slba == b.slba && a.nlb == b.nlb

abbrev pub is_zero : ℤ → Bool
is_zero z = eq_ℤ z (pos 0)

-- What a Write was given to store: no more than the length that was announced.
unfoldable pub payload : NvmeIoArgs → Content
payload w = elim w.data_ptr [ none ↦ unknown | some buf ↦ bytes (take w.data_len buf) ]

-- What an I/O command leaves in the range of `a`, in which `before` was.
unfoldable pub after_io : NvmeIoArgs → ℕ → Bool → NvmeIoArgs → Content → Content
after_io w opcode succeeded a before =
    if opcode == opc_read || opcode == opc_compare || opcode == opc_verify
    then before
    else if succeeded && same_range w a && opcode == opc_write
    then payload w
    else if succeeded && same_range w a && opcode == opc_write_zeroes && w.control == 0
    then zeroes
    else unknown

-- The last write to just this range, if only calls that write nothing came after it.
unfoldable pub stored : (List Call → Call → Reply) → List Call → NvmeIoArgs → Content
stored answer [] a = unknown
stored answer (nvme_ns_get_fd h ∷ t) a = stored answer t a
stored answer (nvme_io w opcode ∷ t) a =
    after_io w opcode (is_zero (answer t (nvme_io w opcode)).ret) a (stored answer t a)
stored answer (_ ∷ t) a = unknown

abbrev pub Reads : Content → ℕ → List ℕ → Type 0
Reads unknown n read = Unit
Reads zeroes n read = read ≡ replicate n 0
Reads (bytes buf) n read = length buf ≡ n → read ≡ buf

abbrev pub KeepsOpen : Call → Type 0
KeepsOpen (nvme_free_tree _) = ⊥
KeepsOpen _ = Unit

pub record StoresBlocks (lib : Libnvme) : Type 0 where
  -- libnvme "will open() the file (if not already opened) and keep an internal copy of the file descriptor"
  pub fd_cached :
      (t u : List Call) (ns : Handle) (fd : ℕ)
      → (lib.answer t (nvme_ns_get_fd ns)).ret ≡ pos fd
      → All KeepsOpen u
      → (lib.answer (u ++ nvme_ns_get_fd ns ∷ t) (nvme_ns_get_fd ns)).ret ≡ pos fd
  -- a successful Read gives the data that was last written
  pub reads_stored :
      (t : List Call) (a : NvmeIoArgs)
      → let r = lib.answer t (nvme_io a opc_read) in
        r.ret ≡ pos 0 → Reads (stored lib.answer t a) a.data_len r.data_bytes
