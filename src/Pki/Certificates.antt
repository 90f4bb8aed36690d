-- ===== src/Pki/Certificates.antt =====
-- Which certificates the check of PKI/manager.go lets pass.
use rappa_master.Base.Assoc.{lookup, insert, lookup-insert}
use rappa_master.Base.{
  ◌⊎◌, inl, inr, ◌↔◌, String, string_eq, ℤ, negsuc, int_eq, ◌≤ℤ◌, Bool, true, false, ◌≡◌, refl,
  some, arith, Bool-cases, Option-cases, ◌==◌,
}
use text.Mathlib.TextEquality.{eq_iff}
use rappa_master.Pki.{
  Ca, Crypto, PkiManager, verify_expire, cached_ca, has_foreign_keys, verify_decoded,
  verify_node_ca,
}

-- A certificate is in force at an epoch if its bounds are both -1, or the epoch lies within them.
pub verify_expire_lem :
    {Key : Type 0} (ca : Ca Key) (epoch : ℤ)
    → (verify_expire ca epoch ≡ true) ↔ (
        (ca.epoch_lower_bound ≡ negsuc 0) × (ca.epoch_upper_bound ≡ negsuc 0)
        ⊎ (ca.epoch_lower_bound ≤ℤ epoch) × (epoch ≤ℤ ca.epoch_upper_bound))
unfolding verify_expire
verify_expire_lem ca epoch = (λ h. ground arith, λ h. ground arith)

module _ (c : Crypto) where
  -- What an accepted certificate that is not the cached one has passed.
  pub record IsChecked (pm : PkiManager c) (node_id epoch : ℤ) (text : String) : Type 0 where
    pub certificate : Ca c.Key
    pub decoded : c.decode_ca text ≡ some certificate
    pub signed : c.signature_valid certificate ≡ true
    pub keys :
        (c.key_beq certificate.decrypt_key pm.host_key ≡ true)
        ⊎ ((key : c.Key) × (lookup node_id pm.node_cert ≡ some key)
            × (c.key_beq certificate.public_key key ≡ true))
    pub in_force :
        (certificate.epoch_lower_bound ≡ negsuc 0) × (certificate.epoch_upper_bound ≡ negsuc 0)
        ⊎ (certificate.epoch_lower_bound ≤ℤ epoch) × (epoch ≤ℤ certificate.epoch_upper_bound)

  has_foreign_keys_sound :
      (pm : PkiManager c) (node_id : ℤ) (ca : Ca c.Key)
      → has_foreign_keys c pm node_id ca ≡ some false
      → (c.key_beq ca.decrypt_key pm.host_key ≡ true)
        ⊎ ((key : c.Key) × (lookup node_id pm.node_cert ≡ some key)
            × (c.key_beq ca.public_key key ≡ true))
  unfolding has_foreign_keys
  has_foreign_keys_sound pm node_id ca h =
      elim (Bool-cases (c.key_beq ca.decrypt_key pm.host_key)) [
        | inl mine ↦ inl mine
        | inr foreign ↦ elim (Option-cases (lookup node_id pm.node_cert)) [
          | inl missing ↦ absurd (ground arith)
          | inr (key, listed) ↦ inr (key, listed, ground arith)
        ]
      ]

  verify_decoded_sound :
      (pm : PkiManager c) (node_id epoch : ℤ) (text : String) (ca : Ca c.Key) (pm' : PkiManager c)
      → verify_decoded c pm node_id epoch text ca ≡ some (true, pm')
      → (c.signature_valid ca ≡ true)
        × (has_foreign_keys c pm node_id ca ≡ some false)
        × (verify_expire ca epoch ≡ true)
        × (pm' ≡ record pm { node_ca_map = insert node_id text pm.node_ca_map })
  unfolding verify_decoded
  verify_decoded_sound pm node_id epoch text ca pm' h = ground arith

  -- If a certificate is accepted, then it is the text cached for the node (the empty text, if none
  -- is), and the manager is unchanged; or it was decoded, its signature is valid, it was issued by the
  -- host or its public key is the one listed for the node, its bounds are both -1 or the epoch lies
  -- within them, and it is now the cached one.
  pub verify_node_ca_sound :
      (pm : PkiManager c) (node_id epoch : ℤ) (text : String) (pm' : PkiManager c)
      → verify_node_ca c pm node_id epoch text ≡ some (true, pm')
      → (cached_ca c pm node_id ≡ text) × (pm' ≡ pm)
        ⊎ IsChecked pm node_id epoch text
          × (pm' ≡ record pm { node_ca_map = insert node_id text pm.node_ca_map })
  unfolding verify_node_ca
  verify_node_ca_sound pm node_id epoch text pm' h =
      elim (Bool-cases (cached_ca c pm node_id == text)) [
        | inl same ↦ inl ((eq_iff _ text).0 same, ground arith)
        | inr other ↦ elim (Option-cases (c.decode_ca text)) [
          | inl bad ↦ absurd (ground arith)
          | inr (ca, good) ↦
              let (signed, keys, in_force, after) =
                verify_decoded_sound pm node_id epoch text ca pm' (ground arith) in
              inr (
                record {
                  certificate = ca;
                  decoded = good;
                  signed = signed;
                  keys = has_foreign_keys_sound pm node_id ca keys;
                  in_force = (verify_expire_lem ca epoch).0 in_force;
                },
                after,
              )
        ]
      ]

  cached_ca-insert :
      (pm : PkiManager c) (node_id : ℤ) (text : String)
      → cached_ca c (record pm { node_ca_map = insert node_id text pm.node_ca_map }) node_id ≡ text
  unfolding cached_ca
  cached_ca-insert pm node_id text =
      ground (arith, lookup-insert node_id node_id text pm.node_ca_map)

  -- A text that is cached stays so when the same text, or one of another node, is stored.
  insert-cached_ca :
      (pm : PkiManager c) (n node_id : ℤ) (t text : String)
      → (n ≡ node_id → t ≡ text)
      → cached_ca c pm node_id ≡ text
      → cached_ca c (record pm { node_ca_map = insert n t pm.node_ca_map }) node_id ≡ text
  unfolding cached_ca
  insert-cached_ca pm n node_id t text same h = elim (Bool-cases (n == node_id)) [
    | inl e ↦ rw (cached_ca, lookup-insert, e) (same ((int_eq.same_iff n node_id).0 e))
    | inr ne ↦ rw (cached_ca, lookup-insert, ne) h
  ]

  verify_node_ca_cached :
      (pm : PkiManager c) (node_id epoch : ℤ) (text : String)
      → cached_ca c pm node_id ≡ text
      → verify_node_ca c pm node_id epoch text ≡ some (true, pm)
  unfolding verify_node_ca
  verify_node_ca_cached pm node_id epoch text same =
      ground (arith, (eq_iff (cached_ca c pm node_id) text).1 same)

  -- A certificate that is not accepted changes nothing.
  verify_node_ca_rejected :
      (pm : PkiManager c) (node_id epoch : ℤ) (text : String) (pm' : PkiManager c)
      → verify_node_ca c pm node_id epoch text ≡ some (false, pm')
      → pm' ≡ pm
  unfolding verify_node_ca verify_decoded
  verify_node_ca_rejected pm node_id epoch text pm' h = ground arith

  -- Calls of VerifyNodeCA for any nodes, each of which accepts or rejects, where no text but this one
  -- is accepted for this node.
  pub data Calls (node_id : ℤ) (text : String) : PkiManager c → PkiManager c → Type 0 where
    done : (pm : PkiManager c) → Calls node_id text pm pm
    call :
        (pm mid after : PkiManager c) (n epoch : ℤ) (t : String) (accepted : Bool)
        → verify_node_ca c pm n epoch t ≡ some (accepted, mid)
        → (accepted ≡ true → n ≡ node_id → t ≡ text)
        → Calls node_id text mid after
        → Calls node_id text pm after

  call-cached_ca :
      (pm mid : PkiManager c) (n node_id epoch : ℤ) (t text : String) (accepted : Bool)
      → verify_node_ca c pm n epoch t ≡ some (accepted, mid)
      → (accepted ≡ true → n ≡ node_id → t ≡ text)
      → cached_ca c pm node_id ≡ text
      → cached_ca c mid node_id ≡ text
  call-cached_ca pm mid n node_id epoch t text false runs same h =
      rw (verify_node_ca_rejected pm n epoch t mid runs) h
  call-cached_ca pm mid n node_id epoch t text true runs same h =
      elim (verify_node_ca_sound pm n epoch t mid runs) [
        | inl (_, kept) ↦ rw kept h
        | inr (_, stored) ↦ rw stored (insert-cached_ca pm n node_id t text (same refl) h)
      ]

  Calls-cached_ca :
      (node_id : ℤ) (text : String) (pm pm' : PkiManager c)
      → Calls node_id text pm pm'
      → cached_ca c pm node_id ≡ text
      → cached_ca c pm' node_id ≡ text
  Calls-cached_ca node_id text pm pm' (done _) h = h
  Calls-cached_ca node_id text pm pm' (call _ mid _ n epoch t b runs same rest) h =
      Calls-cached_ca node_id text mid pm' rest
        (call-cached_ca pm mid n node_id epoch t text b runs same h)

  -- A certificate that was accepted once for a node is accepted from it again at every epoch, also
  -- after its upper bound, after any calls for any nodes in between, as long as no other
  -- certificate of the node was accepted in them.
  pub verify_node_ca_again :
      (pm : PkiManager c) (node_id epoch : ℤ) (text : String) (pm' pm'' : PkiManager c)
      → verify_node_ca c pm node_id epoch text ≡ some (true, pm')
      → Calls node_id text pm' pm''
      → (later : ℤ) → verify_node_ca c pm'' node_id later text ≡ some (true, pm'')
  verify_node_ca_again pm node_id epoch text pm' pm'' h calls later =
      let cached : cached_ca c pm' node_id ≡ text =
        elim (verify_node_ca_sound pm node_id epoch text pm' h) [
          | inl (same, kept) ↦ rw kept same
          | inr (_, stored) ↦ rw stored (cached_ca-insert pm node_id text)
        ] in
      verify_node_ca_cached pm'' node_id later text
        (Calls-cached_ca node_id text pm' pm'' calls cached)
