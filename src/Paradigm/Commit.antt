-- ===== src/Paradigm/Commit.antt =====
-- paradigm/commit.go, paradigm/cert.go: the slot that a node commits, and the state that the master
-- keeps of it. A Go struct that embeds a pointer is a record with an `Option`, where `none` is nil.
-- The field Speed, a float that is only logged and averaged, is left out.
use rappa_master.Base.{
  String, ℤ, Option, none, some, List, Comparable, Bool, true, false, ◌≡◌, ◌↔◌, arith,
}
use rappa_master.Paradigm.Model.{SlotHash, SlotCommitment}

pub data CommitState : Type 0 where
  invalid undetermined justified finalized : CommitState

pub data InvalidCommitType : Type 0 where
  invalid_slot expire_slot invalid_commitment verified_failed down_failed unknown :
      InvalidCommitType
  no_reason : InvalidCommitType

pub record InvalidCommitError : Type 0 where
  pub error : InvalidCommitType
  pub error_message : String

unfoldable pub invalid_commit_type_to_string : InvalidCommitType → String
invalid_commit_type_to_string invalid_slot = "INVALID_SLOT"
invalid_commit_type_to_string expire_slot = "EXPIRE_SLOT"
invalid_commit_type_to_string invalid_commitment = "INVALID_COMMITMENT"
invalid_commit_type_to_string verified_failed = "VERIFIED_FAILED"
invalid_commit_type_to_string down_failed = "DOWN_FAILED"
invalid_commit_type_to_string unknown = "UNKNOWN"
invalid_commit_type_to_string no_reason = "NONE"

abbrev pub new_invalid_commit_error : InvalidCommitType → String → InvalidCommitError
new_invalid_commit_error t message = record { error = t; error_message = message }

-- service.JustifiedSlot, the message of the protocol.
pub record JustifiedSlot : Type 0 where
  pub nid : ℤ
  pub process : ℤ
  pub sign : String
  pub slot : ℤ
  pub epoch : ℤ
  pub padding : List ℤ
  pub store : ℤ
  pub commitment : SlotCommitment
  pub upload_size : ℤ

pub record CommitSlotItem : Type 0 where
  pub justified_slot : Option JustifiedSlot
  pub state : CommitState
  pub hash : SlotHash
  pub invalid_type : InvalidCommitType

pub record SignedCommitSlotItem : Type 0 where
  pub item : CommitSlotItem
  pub open item use *
  pub signature : String
  pub ca : String

unfoldable pub new_commit_slot_item : JustifiedSlot → CommitSlotItem
new_commit_slot_item slot = record {
  justified_slot = some slot;
  state = undetermined;
  hash = "";
  invalid_type = no_reason;
}

unfoldable pub new_fake_commit_slot_item : SlotHash → CommitSlotItem
new_fake_commit_slot_item hash = record {
  justified_slot = none;
  state = justified;
  hash = hash;
  invalid_type = no_reason;
}

unfoldable pub new_signed_commit_slot : JustifiedSlot → String → String → SignedCommitSlotItem
unfolding new_commit_slot_item
new_signed_commit_slot slot sign ca = record {
  item = new_commit_slot_item slot;
  signature = sign;
  ca = ca;
}

abbrev pub new_signed_commit_slot_from : CommitSlotItem → String → String → SignedCommitSlotItem
new_signed_commit_slot_from slot sign ca = record { item = slot; signature = sign; ca = ca }

unfoldable pub set_invalid : InvalidCommitType → CommitSlotItem → CommitSlotItem
set_invalid t c = record c { state = invalid; invalid_type = t }

unfoldable pub set_default : CommitSlotItem → CommitSlotItem
set_default c = record c { state = undetermined; invalid_type = no_reason }

unfoldable pub set_finalize : CommitSlotItem → CommitSlotItem
unfolding set_default
set_finalize c = let d = set_default c in record d { state = finalized }

abbrev pub set_hash : SlotHash → CommitSlotItem → CommitSlotItem
set_hash h c = record c { hash = h }

-- A write through the nil pointer panics.
unfoldable pub set_epoch : ℤ → CommitSlotItem → Option CommitSlotItem
set_epoch e c = elim c.justified_slot [
  | none ↦ none
  | some j ↦ some (record c { justified_slot = some (record j { epoch = e }) })
]

abbrev pub state_beq : CommitState → CommitState → Bool
state_beq invalid invalid = true
state_beq undetermined undetermined = true
state_beq justified justified = true
state_beq finalized finalized = true
state_beq _ _ = false

pub state_beq_iff : (a b : CommitState) → (state_beq a b ≡ true) ↔ (a ≡ b)
state_beq_iff a b = ground arith

instance abbrev pub state_eq : Comparable CommitState
state_eq = record { same = state_beq; same_iff = state_beq_iff }

-- Check: the commitment is not examined yet, so the inner check always holds.
unfoldable pub check : CommitSlotItem → CommitSlotItem × Bool
check c = (c, true)
