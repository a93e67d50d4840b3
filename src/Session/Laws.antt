-- ===== src/Session/Laws.antt =====
-- What a program that uses the crate owns of libnvme's memory, over all its uses of the crate.
use libnvme_rs.Base.{◌≡◌, refl, ap, ◌∙◌, ℤ, none, some, List, ◌∷◌, arith}
use libnvme_rs.Error.{Error, ok, err}
use libnvme_rs.Ffi.{Call, Libnvme, M, outcome, nvme_scan, nvmf_get_discovery_log}
use libnvme_rs.Root.{Root, non_null, scan, drop_root}
use libnvme_rs.Root.Ownership.{without, owned, IsClean}
use libnvme_rs.Root.Laws.{
  KeepsOwned, plain-owned, plain-IsClean, generate_hostnqn-KeepsOwned, generate_hostid-KeepsOwned,
  hostnqn_from_file-KeepsOwned, hostid_from_file-KeepsOwned,
}
use libnvme_rs.Controller.{Controller}
use libnvme_rs.Fabrics.Laws.{
  connect_execute-KeepsOwned, connect_execute_refuses, connect_execute-not_created,
}
use libnvme_rs.Fabrics.DiscoveryLog.{discovery_log, drop_log}
use libnvme_rs.Fabrics.DiscoveryLog.Laws.{discovery_log-owned}
use libnvme_rs.Session.{
  Session, calling, Step, scanned, not_scanned, root_dropped, hostnqn_generated, hostid_generated,
  hostnqn_read, hostid_read, connected, connection_refused, not_created, log_fetched, log_missing,
  log_dropped, commanded, Reach, start, next,
}

module _ (lib : Libnvme) where
  -- What libnvme has given and not got back is what the live values own, and nothing was given back twice.
  abbrev pub IsBalanced : Session → Type 0
  IsBalanced s = (owned lib s.history ≡ s.values) × IsClean lib s.history

  kept :
      (s : Session) (t : List Call)
      → (owned lib t ≡ owned lib s.history) × (IsClean lib s.history → IsClean lib t)
      → IsBalanced s
      → IsBalanced (calling s t)
  kept s t k b = (k.0 ∙ b.0, k.1 b.1)

  kept_by :
      {A : Type 0} {m : M A} (s : Session)
      → KeepsOwned lib m
      → IsBalanced s
      → IsBalanced (calling s (m s.history).1)
  kept_by {m} s k b = kept s (m s.history).1 (k.same s.history, k.clean s.history) b

  pub scan_history :
      (t t1 : List Call) (root : Root)
      → scan lib t ≡ (ok root, t1)
      → (t1 ≡ nvme_scan ∷ t) × ((lib.answer t nvme_scan).pointer ≡ some root.inner)
  unfolding scan non_null
  scan_history t t1 root h = ground (arith, h)

  pub scan_failed_history :
      (t t1 : List Call) (e : Error)
      → scan lib t ≡ (err e, t1)
      → (t1 ≡ nvme_scan ∷ t) × ((lib.answer t nvme_scan).pointer ≡ none)
  unfolding scan non_null
  scan_failed_history t t1 e h = ground (arith, h)

  log_missing_history :
      (c : Controller) (n : ℤ) (t : List Call)
      → (discovery_log lib c n t).1 ≡ nvmf_get_discovery_log c.inner n ∷ t
  unfolding discovery_log outcome
  log_missing_history c n t = ground arith

  Step-IsBalanced : {s s1 : Session} → Step lib s s1 → IsBalanced s → IsBalanced s1
  unfolding drop_root drop_log
  Step-IsBalanced {s} (scanned root t h) b =
      let (e, p) = scan_history s.history t root h in rw (e, p, b.0) (refl, (tt, b.1))
  Step-IsBalanced {s} (not_scanned x t h) b =
      let (e, p) = scan_failed_history s.history t x h in rw (e, p) (b.0, (tt, b.1))
  Step-IsBalanced {s} (root_dropped root h) b = (ap (without root.inner) b.0, (rw b.0 h, b.1))
  Step-IsBalanced {s} hostnqn_generated b = kept_by s (generate_hostnqn-KeepsOwned lib) b
  Step-IsBalanced {s} hostid_generated b = kept_by s (generate_hostid-KeepsOwned lib) b
  Step-IsBalanced {s} hostnqn_read b = kept_by s (hostnqn_from_file-KeepsOwned lib) b
  Step-IsBalanced {s} hostid_read b = kept_by s (hostid_from_file-KeepsOwned lib) b
  Step-IsBalanced {s} (connected c k t h) b =
      kept s t (connect_execute-KeepsOwned lib c s.history k t h) b
  Step-IsBalanced {s} (connection_refused c h) b = rw (connect_execute_refuses lib c s.history h) b
  Step-IsBalanced {s} (not_created c params p h) b =
      rw (connect_execute-not_created lib c params s.history p h, h) (b.0, (tt, b.1))
  Step-IsBalanced {s} (log_fetched c n log t h) b =
      let (e, clean) = discovery_log-owned lib c n s.history t log h in
      (e ∙ ap (λ ps. log.inner ∷ ps) b.0, clean b.1)
  Step-IsBalanced {s} (log_missing c n h) b =
      rw (log_missing_history c n s.history, h) (b.0, (tt, b.1))
  Step-IsBalanced {s} (log_dropped log h) b = (ap (without log.inner) b.0, (rw b.0 h, b.1))
  Step-IsBalanced {s} (commanded c p) b =
      (plain-owned lib c s.history p ∙ b.0, plain-IsClean lib c s.history p b.1)

  -- However a program uses the crate and in whatever order it drops its values, as long as every controller that it
  -- creates is also connected and a failed discovery log leaves no memory behind: what libnvme has given it and
  -- not got back is what its live roots and discovery logs own, and nothing was freed that it did not own.
  pub Reach-IsBalanced : (s : Session) → Reach lib s → IsBalanced s
  Reach-IsBalanced s start = (refl, tt)
  Reach-IsBalanced s (next r st) = Step-IsBalanced st (Reach-IsBalanced _ r)
