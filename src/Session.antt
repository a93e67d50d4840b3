-- ===== src/Session.antt =====
-- A program that uses the crate, as far as libnvme's memory is concerned: the history of its calls, and the pointers
-- that its live values of `Root` and `DiscoveryLog` own. A step is one use of the crate; dropping a value is
-- a step of its own, which the program may take at any time.
pub mod Laws
use libnvme_rs.Base.{ℤ, ◌≡◌, true, none, List, [], ◌∷◌}
use libnvme_rs.Error.{Error, ok, err}
use libnvme_rs.Ffi.{Handle, Call, Libnvme, CtrlParams, nvme_create_ctrl, nvmf_get_discovery_log}
use libnvme_rs.Controller.{Controller}
use libnvme_rs.Root.{
  Root, scan, drop_root, generate_hostnqn, generate_hostid, hostnqn_from_file, hostid_from_file,
}
use libnvme_rs.Root.Ownership.{IsHeld, without}
use libnvme_rs.Root.Laws.{IsPlain}
use libnvme_rs.Fabrics.{Connect, connect_params, connect_execute}
use libnvme_rs.Fabrics.Laws.{any_nul}
use libnvme_rs.Fabrics.DiscoveryLog.{DiscoveryLog, discovery_log, drop_log}

pub record Session : Type 0 where
  pub history : List Call
  pub values : List Handle

abbrev pub fresh : Session
fresh = record { history = []; values = [] }

-- The step to another history that leaves the values alone.
abbrev pub calling : Session → List Call → Session
calling s t = record { history = t; values = s.values }

pub data Step (lib : Libnvme) (s : Session) : Session → Type 0 where
  scanned :
      (root : Root) (t : List Call)
      → scan lib s.history ≡ (ok root, t)
      → Step lib s (record { history = t; values = root.inner ∷ s.values })
  not_scanned :
      (e : Error) (t : List Call) → scan lib s.history ≡ (err e, t) → Step lib s (calling s t)
  root_dropped :
      (root : Root)
      → IsHeld root.inner s.values
      → Step lib s (record {
        history = (drop_root lib root s.history).1;
        values = without root.inner s.values;
      })
  hostnqn_generated : Step lib s (calling s (generate_hostnqn lib s.history).1)
  hostid_generated : Step lib s (calling s (generate_hostid lib s.history).1)
  hostnqn_read : Step lib s (calling s (hostnqn_from_file lib s.history).1)
  hostid_read : Step lib s (calling s (hostid_from_file lib s.history).1)
  connected :
      (c : Connect) (k : Controller) (t : List Call)
      → connect_execute lib c s.history ≡ (ok k, t)
      → Step lib s (calling s t)
  connection_refused :
      (c : Connect) → any_nul c ≡ true → Step lib s (calling s (connect_execute lib c s.history).1)
  not_created :
      (c : Connect) (params : CtrlParams)
      → connect_params c s.history ≡ (ok params, s.history)
      → (lib.answer s.history (nvme_create_ctrl params)).pointer ≡ none
      → Step lib s (calling s (connect_execute lib c s.history).1)
  log_fetched :
      (c : Controller) (n : ℤ) (log : DiscoveryLog) (t : List Call)
      → discovery_log lib c n s.history ≡ (ok log, t)
      → Step lib s (record { history = t; values = log.inner ∷ s.values })
  -- libnvme gives no log when it fails
  log_missing :
      (c : Controller) (n : ℤ)
      → (lib.answer s.history (nvmf_get_discovery_log c.inner n)).pointer ≡ none
      → Step lib s (calling s (discovery_log lib c n s.history).1)
  log_dropped :
      (log : DiscoveryLog)
      → IsHeld log.inner s.values
      → Step lib s
          (record { history = (drop_log lib log s.history).1; values = without log.inner s.values })
  -- any other call of libnvme, by a command or a setter
  commanded : (c : Call) → IsPlain c → Step lib s (calling s (c ∷ s.history))

pub data Reach (lib : Libnvme) : Session → Type 0 where
  start : Reach lib fresh
  next : {s s1 : Session} → Reach lib s → Step lib s s1 → Reach lib s1
