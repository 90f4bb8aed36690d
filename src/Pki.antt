-- ===== src/Pki.antt =====
-- PKI/manager.go and paradigm/ca.go: the check of a node's certificate. Decoding (base64, JSON and
-- the points of the curve), the signature check and the equality of keys are third-party code, and
-- so parameters.
pub mod Certificates
pub mod Totality
use rappa_master.Base.Assoc.{Assoc, lookup, insert}
use rappa_master.Base.{
  ℕ, String, string_eq, ℤ, negsuc, int_eq, int_beq, ltb_ℤ, Bool, true, false, not, ◌&&◌, ◌||◌,
  Option, none, some, if◌then◌else◌, ◌==◌,
}

pub record Ca (Key : Type 0) : Type 0 where
  pub public_key : Key
  pub epoch_lower_bound : ℤ
  pub epoch_upper_bound : ℤ
  pub signature : String
  pub decrypt_key : Key

-- VerifyExpire: the bounds -1 and -1 stand for no limit.
unfoldable pub verify_expire : {Key : Type 0} → Ca Key → ℤ → Bool
verify_expire ca epoch =
    if int_beq ca.epoch_lower_bound ca.epoch_upper_bound && int_beq ca.epoch_upper_bound (negsuc 0)
    then true
    else not (ltb_ℤ epoch ca.epoch_lower_bound || ltb_ℤ ca.epoch_upper_bound epoch)

-- The third-party code.
pub record Crypto : Type 1 where
  pub Key : Type 0
  pub key_beq : Key → Key → Bool
  pub decode_ca : String → Option (Ca Key)
  pub signature_valid : Ca Key → Bool

pub record PkiManager (c : Crypto) : Type 0 where
  pub host_key : c.Key
  pub node_cert : Assoc ℤ c.Key
  pub node_ca_map : Assoc ℤ String

module _ (c : Crypto) where
  -- The cached certificate of a node. A read of the map gives the empty text for a missing key.
  unfoldable pub cached_ca : PkiManager c → ℤ → String
  cached_ca pm node_id = elim (lookup node_id pm.node_ca_map) [ none ↦ "" | some ca ↦ ca ]

  -- The test on the two keys: it rejects only if both are foreign. `none` is the panic on a node
  -- that the configuration does not list.
  unfoldable pub has_foreign_keys : PkiManager c → ℤ → Ca c.Key → Option Bool
  has_foreign_keys pm node_id ca =
      if not (c.key_beq ca.decrypt_key pm.host_key)
      then elim (lookup node_id pm.node_cert) [
        | none ↦ none
        | some key ↦ some (not (c.key_beq ca.public_key key))
      ]
      else some false

  -- The checks after decoding, in the order of the source.
  unfoldable pub verify_decoded :
      PkiManager c → (node_id current_epoch : ℤ) → String → Ca c.Key → Option (Bool × PkiManager c)
  verify_decoded pm node_id current_epoch ca_base64 ca =
      if not (c.signature_valid ca)
      then some (false, pm)
      else elim (has_foreign_keys pm node_id ca) [
        | none ↦ none
        | some true ↦ some (false, pm)
        | some false ↦
            if not (verify_expire ca current_epoch)
            then some (false, pm)
            else some (true, record pm { node_ca_map = insert node_id ca_base64 pm.node_ca_map })
      ]

  unfoldable pub verify_node_ca :
      PkiManager c → (node_id current_epoch : ℤ) → String → Option (Bool × PkiManager c)
  verify_node_ca pm node_id current_epoch ca_base64 =
      if cached_ca pm node_id == ca_base64 then some (true, pm) else elim (c.decode_ca ca_base64) [
        | none ↦ some (false, pm)
        | some ca ↦ verify_decoded pm node_id current_epoch ca_base64 ca
      ]
