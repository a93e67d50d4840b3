-- ===== src/Controller/Setters.antt =====
-- libnvme/src/controller.rs: the Identify command, the flags of a controller, and the secrets that are handed to libnvme
-- before a connection.
use libnvme_rs.Base.{ℕ, Bool, List}
use libnvme_rs.Util.{str_to_cstring}
use libnvme_rs.Ffi.{
  Libnvme, Call, M, ◌>>=◌, pure, lift, call, issue, nvme_ctrl_identify, nvme_ctrl_set_persistent,
  nvme_ctrl_set_dhchap_host_key, nvme_ctrl_set_dhchap_key, nvme_ctrl_set_tls_key,
  nvme_ctrl_set_tls_key_identity, nvme_ctrl_set_keyring,
}
use libnvme_rs.Controller.{Controller, filled, zeros}
use libnvme_rs.Tree.Fields.{TreeFields}

module _ (fields : TreeFields) where
  unfoldable pub is_discovery_controller : Controller → Bool
  is_discovery_controller c = fields.ctrl_is_discovery_ctrl c.inner

  unfoldable pub was_discovered : Controller → Bool
  was_discovered c = fields.ctrl_is_discovered c.inner

  unfoldable pub is_unique_discovery_controller : Controller → Bool
  is_unique_discovery_controller c = fields.ctrl_is_unique_discovery_ctrl c.inner

  unfoldable pub is_persistent : Controller → Bool
  is_persistent c = fields.ctrl_is_persistent c.inner

module _ (lib : Libnvme) where
  -- `Controller::identify`: the 4096 bytes of `nvme_id_ctrl`.
  unfoldable pub ctrl_identify : Controller → M (List ℕ)
  ctrl_identify c = issue lib (nvme_ctrl_identify c.inner) (filled 4096 (zeros 4096))

  unfoldable pub set_persistent : Controller → Bool → M (Unit {0})
  set_persistent c persistent = do
    _ ← call lib (nvme_ctrl_set_persistent c.inner persistent)
    pure tt

  -- What the setters of texts share: the C string, and the setter.
  unfoldable pub set_text : (List ℕ → Call) → List ℕ → M (Unit {0})
  set_text setter s = do c ← lift (str_to_cstring s); _ ← call lib (setter c); pure tt

  unfoldable pub set_dhchap_host_key : Controller → List ℕ → M (Unit {0})
  set_dhchap_host_key c key = set_text (nvme_ctrl_set_dhchap_host_key c.inner) key

  unfoldable pub set_dhchap_key : Controller → List ℕ → M (Unit {0})
  set_dhchap_key c key = set_text (nvme_ctrl_set_dhchap_key c.inner) key

  unfoldable pub set_tls_key : Controller → List ℕ → M (Unit {0})
  set_tls_key c key = set_text (nvme_ctrl_set_tls_key c.inner) key

  unfoldable pub set_tls_key_identity : Controller → List ℕ → M (Unit {0})
  set_tls_key_identity c identity = set_text (nvme_ctrl_set_tls_key_identity c.inner) identity

  unfoldable pub set_keyring : Controller → List ℕ → M (Unit {0})
  set_keyring c keyring = set_text (nvme_ctrl_set_keyring c.inner) keyring
