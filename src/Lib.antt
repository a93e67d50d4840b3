-- ===== src/Lib.antt =====
-- libnvme-rs: a Rust crate over libnvme, the C library for NVMe devices, and the library's headers.
--
-- The program. A caller walks libnvme's tree to a controller or a namespace, builds a command by chained
-- setters and runs its `execute`. That checks the request, asks libnvme for a file descriptor, fills an
-- argument structure of the C interface, makes one call, and turns the return value into the crate's
-- `Result`. Payloads that the device writes are decoded by accessors.
--
-- The model. libnvme itself is not in the repository: it is the parameter `Libnvme` (Ffi), whose field
-- `answer` gives the reply to a call from all the calls before it, so that it may keep any state. A program
-- maps the history of its calls to a result and the longer history; so a theorem can say which calls were
-- made, with which arguments. A pointer is an Option of the list that it points to, a buffer a list of
-- bytes, a buffer that the device fills is part of the result. Casts between integer types are written out
-- modulo their width; `usize` has 64 bits. Three things run on fuel: the check of UTF-8 (Util.Utf8), which is
-- given the number of bytes, since every step consumes one or more; and the `for` loops over the tree
-- (Tree.Cursor, Examples.Program), which need one step more than the list has nodes. `str::trim` (Examples.Text)
-- runs on the length of the text in the same way.
-- libnvme's tree is a parameter as well: NvmeTree has the links between its nodes (Tree), TreeFields the values
-- of its getters (Tree.Fields). A feature of the build (`cfg`) that adds a method is taken as present.
--
-- The files, and the code that they model:
--   Base         numbers, lists, words and bits
--   Headers      libnvme-sys/vendored-headers/nvme: the structures of api-types.h, ioctl.h, types.h and
--                fabrics.h (ApiTypes, WireTypes, DeviceTypes, Fabrics), NVME_GET and NVME_SET (Fields), the
--                decoders of feature values in util.h (Features), the status functions of types.h (Status),
--                the inline functions of ioctl.h (Ioctl), the feature functions that are called (FeatureCalls)
--   Error        libnvme/src/error.rs: Error, Result, check_ret
--   Ffi          the calls of libnvme, and programs over them
--   Namespace    libnvme/src/namespace.rs: the numeric getters and the descriptor
--   Keeps        invariants of the history of calls
--   Safety       what a call must satisfy for libnvme and the device to stay inside the caller's buffers
--   Io           libnvme/src/io.rs: control word and options (IoControl, Control), checks (Validate), the
--                argument structure (Args), transfers (Commands), Dataset Management and Copy (Ranges,
--                RangeCommands); read_to_vec of libnvme/src/namespace.rs (ReadToVec)
--   Util         libnvme/src/util.rs: C strings and padded fields
--   Identify     libnvme/src/identify.rs (accessors: CtrlFields, NsFields); Admin: libnvme/src/admin.rs
--   Log          libnvme/src/log.rs (accessors: SmartFields, ErrorFields); Layout: the bytes of a SMART page
--   Controller   libnvme/src/controller.rs: the admin commands; Identify, flags and secrets (Setters)
--   Commands     libnvme/src/commands.rs: the rarer admin commands, and raw commands (Passthru)
--   Directives   libnvme/src/directives.rs
--   Features     libnvme/src/features: the getters (Get) and setters (Set) of features
--   Zns          libnvme/src/zns.rs; Reservations: libnvme/src/reservations.rs
--   Format       libnvme/src/namespace.rs: the Format builder
--   Tree         libnvme/src/host.rs, subsystem.rs, path.rs and the iterators of controller.rs and
--                namespace.rs: the cursors and what they share (Cursor, Iterators), the getters of texts
--                (CtrlText, NamespaceText and so on) and of identifiers (NamespaceFields);
--                libnvme/examples/list_nvme.rs (ListNvme), with the tree as lists (Spec)
--   Root         libnvme/src/root.rs; the allocations that the crate has to give back (Ownership)
--   Fabrics      libnvme/src/fabrics.rs: Connect, and the discovery log (DiscoveryLog)
--   Session      a whole program that uses the crate, as steps over the history of calls
--   Requests     every command of the crate as one type, and a caller that makes any of them in any order
--   Storage      the documented behaviour of a device that stores blocks, on which the examples rely
--   Examples     libnvme/examples/io_smoke.rs and format_smoke.rs (Smoke): the `main` of an example (Program), its
--                texts (Text), what its loops keep (Rules, Smoke.Invariants): its check of the model (Latch), and
--                the tree that it scans (Memory)
--   Reference    the crate's commands beside the inline functions of ioctl.h (zone reports and opcodes: Zones)
--   Tests        concrete inputs, and the theorems at them
-- In each, `x_execute` is the method `execute` of the builder `X`, `raw_x_args` the structure that it fills.
--
-- Not modelled: the rest of the vendored headers, which is a copy of libnvme's: the structures that the crate
-- does not use, and prototypes of functions whose bodies are not in the repository; mi.h, whose inline
-- functions the crate does not call; the text of messages, Debug and Display; the lifetimes of borrowed handles,
-- which Rust checks; the lines that the examples print, and with them the examples that do nothing else.
pub mod Base
pub mod Headers
pub mod Error
pub mod Ffi
pub mod Namespace
pub mod Keeps
pub mod Safety
pub mod Io
pub mod Util
pub mod Identify
pub mod Log
pub mod Admin
pub mod Controller
pub mod Zns
pub mod Reservations
pub mod Format
pub mod Tests
pub mod Directives
pub mod Commands
pub mod Tree
pub mod Root
pub mod Fabrics
pub mod Session
pub mod Features
pub mod Reference
pub mod Requests
pub mod Storage
pub mod Examples
