-- ===== src/Examples/Certificates.antt =====
-- Certificates, with a toy cipher: the only text that decodes is "good".
use rappa_master.Base.Assoc.{lookup, insert}
use rappa_master.Base.{
  ◌≡◌, ◌⊎◌, refl, String, string_eq, pos, int_eq, true, false, none, some, [], ◌∷◌, ◌==◌,
  if◌then◌else◌,
}
use rappa_master.Pki.{
  Ca, Crypto, PkiManager, cached_ca, verify_expire, verify_node_ca, verify_decoded,
  has_foreign_keys,
}
use rappa_master.Pki.Certificates.{
  IsChecked, verify_node_ca_sound, verify_node_ca_again, call, done,
}

abbrev good : Ca String
good = record {
  public_key = "node";
  epoch_lower_bound = pos 1;
  epoch_upper_bound = pos 9;
  signature = "";
  decrypt_key = "host";
}

abbrev pub toy : Crypto
toy = record {
  Key = String;
  key_beq = λ a b. a == b;
  decode_ca = λ t. if t == "good" then some good else none;
  signature_valid = λ ca. true;
}

abbrev pub manager : PkiManager toy
manager = record { host_key = "host"; node_cert = (pos 1, "node") ∷ []; node_ca_map = [] }

abbrev after : PkiManager toy
after = record manager { node_ca_map = (pos 1, "good") ∷ [] }

pub accepts : verify_node_ca toy manager (pos 1) (pos 5) "good" ≡ some (true, after)
unfolding verify_node_ca cached_ca verify_decoded has_foreign_keys verify_expire lookup insert
accepts = refl

-- Epoch 10 is past the bound.
rejects : verify_node_ca toy manager (pos 1) (pos 10) "good" ≡ some (false, manager)
unfolding verify_node_ca cached_ca verify_decoded has_foreign_keys verify_expire lookup insert
rejects = refl

verify_node_ca_sound_example :
    (cached_ca toy manager (pos 1) ≡ "good") × (after ≡ manager)
    ⊎ IsChecked toy manager (pos 1) (pos 5) "good"
      × (after ≡ record manager { node_ca_map = insert (pos 1) "good" manager.node_ca_map })
verify_node_ca_sound_example = verify_node_ca_sound toy manager (pos 1) (pos 5) "good" after accepts

-- Accepted again, long after its upper bound, also when a bad one was presented in between.
verify_node_ca_again_example :
    verify_node_ca toy after (pos 1) (pos 100) "good" ≡ some (true, after)
unfolding verify_node_ca cached_ca verify_decoded lookup
verify_node_ca_again_example =
    verify_node_ca_again toy manager (pos 1) (pos 5) "good" after after accepts
      (call after after after (pos 1) (pos 6) "bad" false refl (λ e. absurd (cc e)) (done after))
      (pos 100)
