-- ===== src/Pki/Totality.antt =====
-- The check of a listed node's certificate returns, and leaves the listed keys alone.
use rappa_master.Base.Assoc.{contains, lookup, insert}
use rappa_master.Base.{
  ◌≡◌, refl, inl, inr, String, string_eq, ℤ, int_eq, Bool, true, false, Option, some, arith,
  Bool-cases, Option-cases, ◌==◌,
}
use rappa_master.Pki.{
  Ca, Crypto, PkiManager, verify_expire, cached_ca, has_foreign_keys, verify_decoded,
  verify_node_ca,
}

module _ (c : Crypto) where
  abbrev Answers : PkiManager c → Option (Bool × PkiManager c) → Type 0
  Answers pm r =
      (b : Bool) × (pm' : PkiManager c) × (r ≡ some (b, pm')) × (pm'.node_cert ≡ pm.node_cert)

  has_foreign_keys_listed :
      (pm : PkiManager c) (node_id : ℤ) (ca : Ca c.Key)
      → contains node_id pm.node_cert ≡ true
      → (b : Bool) × (has_foreign_keys c pm node_id ca ≡ some b)
  unfolding has_foreign_keys
  has_foreign_keys_listed pm node_id ca listed =
      elim (Bool-cases (c.key_beq ca.decrypt_key pm.host_key)) [
        | inl ours ↦ (false, ground arith)
        | inr foreign ↦ elim (Option-cases (lookup node_id pm.node_cert)) [
          | inl nil ↦ absurd (ground arith)
          | inr (key, found) ↦ elim (Bool-cases (c.key_beq ca.public_key key)) [
            | inl theirs ↦ (false, ground arith)
            | inr other ↦ (true, ground arith)
          ]
        ]
      ]

  verify_decoded-Answers :
      (pm : PkiManager c) (node_id epoch : ℤ) (text : String) (ca : Ca c.Key)
      → contains node_id pm.node_cert ≡ true
      → Answers pm (verify_decoded c pm node_id epoch text ca)
  unfolding verify_decoded
  verify_decoded-Answers pm node_id epoch text ca listed =
      let (b, keys) = has_foreign_keys_listed pm node_id ca listed in
      elim (Bool-cases (c.signature_valid ca)) [
        | inr forged ↦ (false, pm, ground arith, refl)
        | inl signed ↦ elim (Bool-cases b) [
          | inl foreign ↦ (false, pm, ground arith, refl)
          | inr ours ↦ elim (Bool-cases (verify_expire ca epoch)) [
            | inr expired ↦ (false, pm, ground arith, refl)
            | inl in_force ↦ (
              true,
              record pm { node_ca_map = insert node_id text pm.node_ca_map },
              ground arith,
              refl,
            )
          ]
        ]
      ]

  -- The check of a certificate does not panic for a node that the configuration lists, and the list
  -- of the nodes' keys stays as it is.
  pub verify_node_ca-Answers :
      (pm : PkiManager c) (node_id epoch : ℤ) (text : String)
      → contains node_id pm.node_cert ≡ true
      → Answers pm (verify_node_ca c pm node_id epoch text)
  unfolding verify_node_ca
  verify_node_ca-Answers pm node_id epoch text listed =
      elim (Bool-cases (cached_ca c pm node_id == text)) [
        | inl same ↦ (true, pm, ground arith, refl)
        | inr other ↦ elim (Option-cases (c.decode_ca text)) [
          | inl bad ↦ (false, pm, ground arith, refl)
          | inr (ca, good) ↦
              let (b, pm', runs, kept) = verify_decoded-Answers pm node_id epoch text ca listed in
              (b, pm', ground arith, kept)
        ]
      ]
