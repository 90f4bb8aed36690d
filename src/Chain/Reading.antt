-- ===== src/Chain/Reading.antt =====
-- What the queries of the worker read of the contract.
use rappa_master.Base.Assoc.{Assoc, lookup, insert, lookup-insert}
use rappa_master.Base.{
  ℕ, ◌≤◌, ◌≡◌, refl, ap, sym, subst, ◌∙◌, ◌<>◌, ℤ, word_of, ==_refl, none, some, List, [], ◌∷◌, map,
  length, length-map, All, nat_beq_iff, int_eq,
}
use rappa_master.Base.Bytes.{Bytes, bytes_of, bytes_eq, decode_string, trim_right}
use rappa_master.Paradigm.Model.{Params, SlotHash}
use rappa_master.Paradigm.Commit.{JustifiedSlot, InvalidCommitType}
use rappa_master.Merkle.{hex}
use rappa_master.Epoch.{TaskProcessTransaction, EpochRecordTransaction}
use rappa_master.Chain.{Transaction, epoch_record_transaction}
use rappa_master.Chain.Words.{
  string_to_bytes32, trim_zero, hex_list, bytes32_list_to_strings, trim_right-copied,
}
use rappa_master.Chain.Contract.{
  StoreData, TaskProcess, get_task_process, store_epoch_record, get_epoch_record_full,
  invalid_entries, EpochEntry,
}
use rappa_master.Chain.Store.{
  query_word, hash_word, reason_number, process, process_all, TaskProcessJson,
  get_task_process_json, EpochRecordJson, get_epoch_record_json, invalid_map, put_epoch_record,
}
use rappa_master.Chain.Keys.{
  decode_string-underscore, IsSlotHash, word_of_hash, params_of, task_process_params_lem,
  IsStorable, last_of, Keeps, process_all-Keeps,
}

-- What a transaction says of its slot, as a query shows it.
abbrev pub shown :
    (Bytes → Bytes) → (hash : Bytes) → TaskProcessTransaction → JustifiedSlot → TaskProcessJson
shown bytes_to_hash hash tx j = record {
  sign = bytes_of j.sign;
  hash = hash;
  slot = word_of j.slot;
  process = word_of j.process;
  id = word_of j.nid;
  epoch = word_of j.epoch;
  commitment = "0x" <> hex (bytes_to_hash j.commitment);
  proof = "0x";
  signatures = hex_list (map bytes_of tx.signatures);
}

abbrev json_of : (hash : Bytes) → TaskProcess → TaskProcessJson
json_of hash res = record {
  sign = trim_zero res.sign;
  hash = hash;
  slot = res.slot;
  process = res.process;
  id = res.id;
  epoch = res.epoch;
  commitment = "0x" <> hex res.commitment;
  proof = "0x" <> hex res.proof;
  signatures = hex_list res.signatures;
}

pub get_task_process_json_lem :
    (bytes_to_hash : Bytes → Bytes) (hash : Bytes) (tx : TaskProcessTransaction) (j : JustifiedSlot)
    (s : StoreData)
    → length (bytes_of j.sign) ≤ 32
    → trim_right (bytes_of j.sign) ≡ bytes_of j.sign
    → lookup (query_word hash) s.task_processes ≡ some (params_of bytes_to_hash tx j)
    → get_task_process_json hash s ≡ shown bytes_to_hash hash tx j
unfolding get_task_process_json get_task_process string_to_bytes32 hex
get_task_process_json_lem bytes_to_hash hash tx j s fits trims found =
    let sign : trim_zero (string_to_bytes32 (bytes_of j.sign)) ≡ bytes_of j.sign =
      trim_right-copied 32 (bytes_of j.sign) fits ∙ trims in
    let got : get_task_process (query_word hash) s ≡ params_of bytes_to_hash tx j =
      rw (get_task_process, found) refl in
    ap (json_of hash) got ∙ ap (λ text. record (shown bytes_to_hash hash tx j) { sign = text }) sign

-- The workers put any transactions, whose slots are no fakes and whose hashes the contract can keep,
-- into the contract. A query for the hash of a slot then shows what the last transaction with this
-- hash says: its task, if the task's identifier fits a word, its numbers as uint32s, its commitment
-- and its signatures.
pub get_task_process_json-process_all :
    (bytes_to_hash : Bytes → Bytes) (marshal : Params → Bytes) (txs : List Transaction)
    (s : StoreData) (hash : Bytes) (tx : TaskProcessTransaction) (j : JustifiedSlot)
    → All IsStorable txs
    → IsSlotHash hash
    → last_of hash txs none ≡ some tx
    → tx.commit_slot_item.justified_slot ≡ some j
    → length (bytes_of j.sign) ≤ 32
    → trim_right (bytes_of j.sign) ≡ bytes_of j.sign
    → (s' : StoreData) × (process_all bytes_to_hash marshal txs s ≡ some s')
      × (get_task_process_json hash s' ≡ shown bytes_to_hash hash tx j)
get_task_process_json-process_all bytes_to_hash marshal txs s hash tx j ok is last there fits
      trims =
    let (s', made, kept) = process_all-Keeps bytes_to_hash marshal hash txs none s is ok tt in
    let (t, params, found) : Keeps bytes_to_hash marshal hash (some tx) s'.task_processes =
      subst (λ o. Keeps bytes_to_hash marshal hash o s'.task_processes) last kept in
    let same : some t ≡ some (params_of bytes_to_hash tx j) =
      sym params ∙ task_process_params_lem bytes_to_hash tx j there in
    (
      s',
      made,
      get_task_process_json_lem bytes_to_hash hash tx j s' fits trims (
          ap (λ w. lookup w s'.task_processes) (word_of_hash bytes_to_hash hash is).1
          ∙ found
          ∙ same),
    )

-- The pairs, put into a map one after the other.
abbrev pub inserted : List (Bytes × ℕ) → Assoc Bytes ℕ → Assoc Bytes ℕ
inserted [] m = m
inserted ((hash, reason) ∷ rest) m = inserted rest (insert hash reason m)

hash_word-IsSlotHash : (h : Bytes) → IsSlotHash h → trim_right (hash_word h) ≡ h
unfolding hash_word string_to_bytes32
hash_word-IsSlotHash h (front, back, is, fits, trims) =
    let d : decode_string h ≡ none = ap decode_string is ∙ decode_string-underscore front back in
    rw (hash_word, d) (trim_right-copied 32 h fits ∙ trims)

hash_words-trimmed :
    (hashes : List SlotHash)
    → All (λ h. IsSlotHash (bytes_of h)) hashes
    → bytes32_list_to_strings (map (λ h. hash_word (bytes_of h)) hashes) ≡ map bytes_of hashes
hash_words-trimmed [] h = refl
hash_words-trimmed (hash ∷ hashes) (h, hs) =
    cc (hash_word-IsSlotHash (bytes_of hash) h, hash_words-trimmed hashes hs)

invalids_read :
    (invalids : List (SlotHash × InvalidCommitType)) (m : Assoc Bytes ℕ)
    → All (λ e. IsSlotHash (bytes_of e.0)) invalids
    → invalid_map
        (invalid_entries
          (map (λ e. hash_word (bytes_of e.0)) invalids)
          (map (λ e. reason_number e.1) invalids))
        m
      ≡ inserted (map (λ e. (bytes_of e.0, reason_number e.1)) invalids) m
unfolding invalid_map invalid_entries
invalids_read [] m h = refl
invalids_read ((hash, reason) ∷ invalids) m (h, hs) =
    ap
      (λ k.
        invalid_map
          (invalid_entries (map (λ e. hash_word (bytes_of e.0)) invalids)
            (map (λ e. reason_number e.1) invalids))
          (insert k (reason_number reason) m))
      (hash_word-IsSlotHash (bytes_of hash) h)
    ∙ invalids_read invalids (insert (bytes_of hash) (reason_number reason) m) hs

abbrev epoch_json : ℤ → List Bytes → List Bytes → Assoc Bytes ℕ → EpochRecordJson
epoch_json id justified commits invalids = record {
  id = id;
  justified_hash = justified;
  commits_hash = commits;
  invalids = invalids;
}

-- The record of an epoch is put on the chain without a panic or a revert, and a query for it then
-- shows the hashes of its committed and of its justified slots, and the reasons of the invalid ones,
-- where each of these hashes is one that the contract can keep.
pub get_epoch_record_json-process :
    (bytes_to_hash : Bytes → Bytes) (marshal : Params → Bytes) (tx : EpochRecordTransaction)
    (s : StoreData)
    → All (λ h. IsSlotHash (bytes_of h)) tx.justified_hash
    → All (λ h. IsSlotHash (bytes_of h)) tx.commits_hash
    → All (λ e. IsSlotHash (bytes_of e.0)) tx.invalids
    → (s' : StoreData) × (process bytes_to_hash marshal (epoch_record_transaction tx) s ≡ some s')
      × (get_epoch_record_json tx.id s' ≡ record {
        id = tx.id;
        justified_hash = map bytes_of tx.justified_hash;
        commits_hash = map bytes_of tx.commits_hash;
        invalids = inserted (map (λ e. (bytes_of e.0, reason_number e.1)) tx.invalids) [];
      })
unfolding process put_epoch_record store_epoch_record get_epoch_record_json get_epoch_record_full
get_epoch_record_json-process bytes_to_hash marshal tx s justified commits invalids =
    let hashes : List Bytes = map (λ e. hash_word (bytes_of e.0)) tx.invalids in
    let reasons : List ℕ = map (λ e. reason_number e.1) tx.invalids in
    let js : List Bytes = map (λ h. hash_word (bytes_of h)) tx.justified_hash in
    let cs : List Bytes = map (λ h. hash_word (bytes_of h)) tx.commits_hash in
    let same : length hashes ≡ length reasons =
      length-map (λ e. hash_word (bytes_of e.0)) tx.invalids
      ∙ sym (length-map (λ e. reason_number e.1) tx.invalids) in
    let entry : EpochEntry = record {
      justified = js;
      commits = cs;
      invalids = invalid_entries hashes reasons;
    } in
    let s' : StoreData = record s { epoch_records = insert tx.id entry s.epoch_records } in
    let found : lookup tx.id s'.epoch_records ≡ some entry =
      lookup-insert tx.id tx.id entry s.epoch_records ∙ rw (==_refl tx.id) refl in
    let got : get_epoch_record_full tx.id s' ≡ entry = rw (get_epoch_record_full, found) refl in
    (
      s',
      rw ((nat_beq_iff (length hashes) (length reasons)).1 same) refl,
      ap
            (λ e.
              epoch_json tx.id (bytes32_list_to_strings e.justified)
                (bytes32_list_to_strings e.commits) (invalid_map e.invalids []))
            got
          ∙ ap
              (λ j. epoch_json tx.id j (bytes32_list_to_strings cs) (invalid_map entry.invalids []))
              (hash_words-trimmed tx.justified_hash justified)
          ∙ ap
              (λ c.
                epoch_json tx.id (map bytes_of tx.justified_hash) c (invalid_map entry.invalids []))
              (hash_words-trimmed tx.commits_hash commits)
          ∙ ap (epoch_json tx.id (map bytes_of tx.justified_hash) (map bytes_of tx.commits_hash))
              (invalids_read tx.invalids [] invalids),
    )
