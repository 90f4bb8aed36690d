-- ===== src/Query/Request.antt =====
-- Query/request.go, and the parsing and printing of each kind of query in Query/: a GET request of the
-- front end becomes a query. The query string that gin has parsed is an association list.
use rappa_master.Base.Assoc.{Assoc, lookup}
use rappa_master.Base.Bytes.{Bytes}
use rappa_master.Base.{
  ℕ, ◌+◌, ◌-◌, ◌*◌, ◌^◌, String, string_eq, ℤ, pos, sub_ℕ, wrap_i32, Bool, true, false, ◌&&◌,
  Option, none, some, [], ◌∷◌, leb, ltb, nat_beq, if◌then◌else◌, ◌==◌,
}
use rappa_master.Collector.{HttpCollectRequest}
use rappa_master.Query.Integrity.{StructType, merkle, verkle}

abbrev pub QueryString : Type 0
QueryString = Assoc String String

-- c.DefaultQuery(key, value)
abbrev pub default_query : (key value : String) → QueryString → String
default_query key value c = elim (lookup key c) [ none ↦ value | some given ↦ given ]

-- The digits that strconv.Atoi reads, after the sign.
unfoldable pub read_digits : Bytes → ℕ → Option ℕ
read_digits [] n = some n
read_digits (b ∷ s) n =
    let rest = read_digits s (10 * n + (b - b'0')) in
    if leb b'0' b && leb b b'9' then rest else none

abbrev read_number : Bytes → Option ℕ
read_number [] = none
read_number (b ∷ s) = read_digits (b ∷ s) 0

-- strconv.Atoi of the bytes of a text, with `none` for its errors: no digits, another byte, or a
-- number that does not fit in 64 bits.
unfoldable pub atoi : Bytes → Option ℤ
atoi [] = none
atoi (b ∷ s) =
    if nat_beq b b'-'
    then elim (read_number s) [
      | none ↦ none
      | some n ↦ if leb n (2 ^ 63) then some (sub_ℕ 0 n) else none
    ]
    else elim (read_number (if nat_beq b b'+' then s else b ∷ s)) [
      | none ↦ none
      | some n ↦ if ltb n (2 ^ 63) then some (pos n) else none
    ]

-- The values of a map[interface{}]interface{}.
pub data RawValue : Type 0 where
  text : String → RawValue
  number : ℤ → RawValue

abbrev pub RawData : Type 0
RawData = Assoc String RawValue

-- rawData[key].(string) and .(int), with `none` where the value is missing or of another type.
unfoldable pub text_of : String → RawData → Option String
text_of key raw = elim (lookup key raw) [
  | some (text t) ↦ some t
  | some (number _) ↦ none
  | none ↦ none
]

unfoldable pub number_of : String → RawData → Option ℤ
number_of key raw = elim (lookup key raw) [
  | some (number n) ↦ some n
  | some (text _) ↦ none
  | none ↦ none
]

pub record HttpUploadTaskRequest : Type 0 where
  pub task_id : String
  pub purpose : String
  pub description : String
  pub create_by : String

pub data Query : Type 0 where
  evidence_preserve_task_tx : (tx_hash : String) → Query
  evidence_preserve_task_id : (task_id : String) → Query
  evidence_preserve_epoch_tx : (tx_hash : String) → Query
  evidence_preserve_epoch_id : (epoch_id : ℤ) → Query
  blockchain_latest_info : Query
  blockchain_block_hash : (block_hash : String) → Query
  blockchain_block_number : (block_number : ℤ) → Query
  blockchain_transaction : (tx_hash : String) → Query
  nodes_status : Query
  date_synth_data : Query
  date_transaction : Query
  synth_task : Query
  task_on_nodes : (sign : String) → Query
  collect_task : HttpCollectRequest → Query
  upload_task : HttpUploadTaskRequest → Query
  slot_integrity_verification : (slot_hash : String) → StructType → Query

-- The fields of a new query that hold a text: the zero value where the parsing fails.
abbrev pub text_or_zero : String → RawData → String
text_or_zero key raw = elim (text_of key raw) [ none ↦ "" | some t ↦ t ]

abbrev pub number_or_zero : String → RawData → ℤ
number_or_zero key raw = elim (number_of key raw) [ none ↦ pos 0 | some n ↦ wrap_i32 n ]

-- ParseRawDataFromHttpEngine of a CollectTaskQuery.
unfoldable pub parse_collect : RawData → HttpCollectRequest → HttpCollectRequest × Bool
parse_collect raw q = elim (text_of "taskID" raw) [
  | none ↦ (q, false)
  | some sign ↦ elim (number_of "size" raw) [
    | none ↦ (q, false)
    | some size ↦ (record { sign = sign; size = wrap_i32 size }, true)
  ]
]

-- ParseRawDataFromHttpEngine of an UploadTaskQuery.
unfoldable pub parse_upload : RawData → HttpUploadTaskRequest → HttpUploadTaskRequest × Bool
parse_upload raw q = elim (text_of "taskID" raw) [
  | none ↦ (q, false)
  | some task_id ↦ elim (text_of "purpose" raw) [
    | none ↦ (q, false)
    | some purpose ↦ elim (text_of "description" raw) [
      | none ↦ (q, false)
      | some description ↦ elim (text_of "createBy" raw) [
        | none ↦ (q, false)
        | some create_by ↦ (
          record {
            task_id = task_id;
            purpose = purpose;
            description = description;
            create_by = create_by;
          },
          true,
        )
      ]
    ]
  ]
]

-- ParseRawDataFromHttpEngine of a SlotIntegrityVerification: the hash is written before the type is
-- read.
unfoldable pub parse_integrity : RawData → String × StructType → (String × StructType) × Bool
parse_integrity raw (slot_hash, type) = elim (text_of "slotHash" raw) [
  | none ↦ ((slot_hash, type), false)
  | some hash ↦ elim (text_of "type" raw) [
    | none ↦ ((hash, type), false)
    | some name ↦
        if name == "merkle"
        then ((hash, merkle), true)
        else if name == "verkle"
        then ((hash, verkle), true)
        else ((hash, type), false)
  ]
]
