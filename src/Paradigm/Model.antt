-- ===== src/Paradigm/Model.antt =====
-- paradigm/mod.go, paradigm/model.go: identifiers and the models that a task may name.
-- A parameter of a model is any JSON value. The master reads only texts and passes on all else, so
-- any other value is an opaque number.
use rappa_master.Base.Assoc.{Assoc}
use rappa_master.Base.{
  ℕ, String, ◌≡◌, refl, Option, none, some, Comparable, string_eq, ◌==◌, Bool, true, false, ◌↔◌,
  arith, List, if◌then◌else◌,
}

abbrev pub TaskHash : Type 0
TaskHash = String

abbrev pub SlotHash : Type 0
SlotHash = String

-- []byte
abbrev pub SlotCommitment : Type 0
SlotCommitment = List ℕ

pub data SupportModelType : Type 0 where
  ctgan baed finkan abm : SupportModelType

pub data ModelOutputType : Type 0 where
  dataframe network : ModelOutputType

pub data ParamValue : Type 0 where
  text : String → ParamValue
  other : ℕ → ParamValue

abbrev pub Params : Type 0
Params = Assoc String ParamValue

abbrev pub model_beq : SupportModelType → SupportModelType → Bool
model_beq ctgan ctgan = true
model_beq baed baed = true
model_beq finkan finkan = true
model_beq abm abm = true
model_beq _ _ = false

pub model_beq_iff : (a b : SupportModelType) → (model_beq a b ≡ true) ↔ (a ≡ b)
model_beq_iff a b = ground arith

instance abbrev pub model_eq : Comparable SupportModelType
model_eq = record { same = model_beq; same_iff = model_beq_iff }

unfoldable pub model_type_to_string : SupportModelType → String
model_type_to_string ctgan = "CTGAN"
model_type_to_string baed = "BAED"
model_type_to_string finkan = "FINKAN"
model_type_to_string abm = "ABM"

-- `none` is the panic on a name that is none of the four.
unfoldable pub name_to_model_type : String → Option SupportModelType
name_to_model_type name =
    if name == "CTGAN"
    then some ctgan
    else if name == "BAED"
    then some baed
    else if name == "FINKAN"
    then some finkan
    else if name == "ABM"
    then some abm
    else none

-- The output that a model produces, as NewTask chooses it.
unfoldable pub output_type : SupportModelType → ModelOutputType
output_type ctgan = dataframe
output_type baed = network
output_type finkan = dataframe
output_type abm = dataframe

-- The name that goes to the nodes is read back as the same model.
pub name_to_model_type-model_type_to_string :
    (t : SupportModelType) → name_to_model_type (model_type_to_string t) ≡ some t
unfolding name_to_model_type model_type_to_string
name_to_model_type-model_type_to_string ctgan = refl
name_to_model_type-model_type_to_string baed = refl
name_to_model_type-model_type_to_string finkan = refl
name_to_model_type-model_type_to_string abm = refl
