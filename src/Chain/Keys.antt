-- ===== src/Chain/Keys.antt =====
-- The keys under which the contract keeps the progress of tasks, and what is read back.
use rappa_master.Base.Assoc.{Assoc, lookup, insert, lookup-insert}
use rappa_master.Base.{
  ℕ, ◌≤◌, ◌≡◌, refl, ap, sym, ◌∙◌, inl, inr, ℤ, word_of, ◌&&◌, Bool-cases, ◌==◌, ==_ne, nat_beq,
  Option, none, some, List, [], ◌∷◌, ◌++◌, map, length, length-map, All, arith, if◌then◌else◌,
  nat_beq_iff, int_eq,
}
use rappa_master.Base.Bytes.{Bytes, bytes_of, bytes_eq, bytes_beq_iff, decode_string, trim_right}
use rappa_master.Paradigm.Model.{Params}
use rappa_master.Paradigm.Commit.{JustifiedSlot}
use rappa_master.Epoch.{TaskProcessTransaction, EpochRecordTransaction}
use rappa_master.Chain.{
  Transaction, init_task_transaction, task_process_transaction, epoch_record_transaction,
}
use rappa_master.Chain.Words.{copied, string_to_bytes32, trim_right-copied}
use rappa_master.Chain.Contract.{
  StoreData, TaskProcess, EpochEntry, invalid_entries, store_task_process, store_init_task,
  store_epoch_record,
}
use rappa_master.Chain.Store.{
  trim_0x, query_word, process_word, init_task_params, task_process_params, put_epoch_record,
  process, process_all, hash_word, reason_number,
}

-- The byte `_`, which parts a slot's hash from the numbers of its schedule and its node.
abbrev pub underscore : ℕ
underscore = 0x5F

-- A text with that byte is no hexadecimal text.
pub decode_string-underscore :
    (front back : Bytes) → decode_string (front ++ underscore ∷ back) ≡ none
unfolding decode_string
decode_string-underscore [] [] = refl
decode_string-underscore [] (b ∷ back) = refl
decode_string-underscore (a ∷ []) back = ground arith
decode_string-underscore (a ∷ b ∷ front) back = ground (arith, decode_string-underscore front back)

-- A slot's hash that the contract can keep: it holds the byte `_`, fits a word, and does not end in
-- a zero byte.
abbrev pub IsSlotHash : Bytes → Type 0
IsSlotHash h =
    (front : Bytes) × (back : Bytes) × (h ≡ front ++ underscore ∷ back)
    × (length h ≤ 32)
    × (trim_right h ≡ h)

pub trim_0x-underscore :
    (front back : Bytes) → decode_string (trim_0x (front ++ underscore ∷ back)) ≡ none
trim_0x-underscore [] [] = decode_string-underscore [] []
trim_0x-underscore [] (b ∷ back) = decode_string-underscore [] (b ∷ back)
trim_0x-underscore (a ∷ []) back = elim (Bool-cases (nat_beq a b'0' && nat_beq underscore b'x')) [
  | inl t ↦ absurd (ground arith)
  | inr f ↦ rw f (decode_string-underscore (a ∷ []) back)
]
trim_0x-underscore (a ∷ b ∷ front) back = elim (Bool-cases (nat_beq a b'0' && nat_beq b b'x')) [
  | inl t ↦ rw t (decode_string-underscore front back)
  | inr f ↦ rw f (decode_string-underscore (a ∷ b ∷ front) back)
]

module _ (bytes_to_hash : Bytes → Bytes) where
  -- Such a hash is stored, and looked up, under its own bytes.
  pub word_of_hash :
      (h : Bytes)
      → IsSlotHash h
      → (process_word bytes_to_hash h ≡ copied 32 h) × (query_word h ≡ copied 32 h)
  unfolding process_word query_word string_to_bytes32
  word_of_hash h (front, back, is, _, _) =
      let d : decode_string h ≡ none = ap decode_string is ∙ decode_string-underscore front back in
      let q : decode_string (trim_0x h) ≡ none =
        ap (λ x. decode_string (trim_0x x)) is ∙ trim_0x-underscore front back in
      (rw (process_word, d) refl, rw (query_word, q) refl)

copied-IsSlotHash :
    (g h : Bytes) → IsSlotHash g → IsSlotHash h → (copied 32 g == copied 32 h) ≡ (g == h)
copied-IsSlotHash g h (_, _, _, gs, gt) (_, _, _, hs, ht) = elim (Bool-cases (g == h)) [
  | inl same ↦
      (bytes_beq_iff (copied 32 g) (copied 32 h)).1 (ap (copied 32) ((bytes_beq_iff g h).0 same))
      ∙ sym same
  | inr other ↦
      ==_ne (copied 32 g) (copied 32 h) (λ e.
        let back : g ≡ h =
          sym gt
          ∙ sym (trim_right-copied 32 g gs)
          ∙ ap trim_right e
          ∙ trim_right-copied 32 h hs
          ∙ ht in
        cc (sym other ∙ (bytes_beq_iff g h).1 back))
      ∙ sym other
]

-- What StoreParams makes of a transaction with this slot.
abbrev pub params_of : (Bytes → Bytes) → TaskProcessTransaction → JustifiedSlot → TaskProcess
params_of bytes_to_hash tx j = record {
  sign = string_to_bytes32 (bytes_of j.sign);
  slot = word_of j.slot;
  process = word_of j.process;
  id = word_of j.nid;
  epoch = word_of j.epoch;
  hash = process_word bytes_to_hash (bytes_of tx.commit_slot_item.hash);
  commitment = bytes_to_hash j.commitment;
  proof = [];
  signatures = map bytes_of tx.signatures;
}

pub task_process_params_lem :
    (bytes_to_hash : Bytes → Bytes) (tx : TaskProcessTransaction) (j : JustifiedSlot)
    → tx.commit_slot_item.justified_slot ≡ some j
    → task_process_params bytes_to_hash tx ≡ some (params_of bytes_to_hash tx j)
unfolding task_process_params
task_process_params_lem bytes_to_hash tx j there = rw there refl

-- A transaction that the contract can keep.
abbrev pub IsStorable : Transaction → Type 0
IsStorable (init_task_transaction task) = Unit
IsStorable (task_process_transaction tx) =
    (j : JustifiedSlot) × (tx.commit_slot_item.justified_slot ≡ some j)
    × IsSlotHash (bytes_of tx.commit_slot_item.hash)
IsStorable (epoch_record_transaction tx) = Unit

-- The last transaction on the progress of the slot, or `before` if there is none.
abbrev pub last_of :
    Bytes → List Transaction → Option TaskProcessTransaction → Option TaskProcessTransaction
last_of h [] before = before
last_of h (init_task_transaction task ∷ txs) before = last_of h txs before
last_of h (task_process_transaction tx ∷ txs) before =
    last_of h txs (if bytes_of tx.commit_slot_item.hash == h then some tx else before)
last_of h (epoch_record_transaction tx ∷ txs) before = last_of h txs before

store_epoch_record_lem :
    (id : ℤ) (justified commits hashes : List Bytes) (reasons : List ℕ) (s : StoreData)
    → length hashes ≡ length reasons
    → (s' : StoreData) × (store_epoch_record id justified commits hashes reasons s ≡ some s')
      × (s'.task_processes ≡ s.task_processes)
unfolding store_epoch_record
store_epoch_record_lem id justified commits hashes reasons s h =
    let entry : EpochEntry = record {
      justified = justified;
      commits = commits;
      invalids = invalid_entries hashes reasons;
    } in
    (
      record s { epoch_records = insert id entry s.epoch_records },
      rw ((nat_beq_iff (length hashes) (length reasons)).1 h) refl,
      refl,
    )

put_epoch_record_lem :
    (tx : EpochRecordTransaction) (s : StoreData)
    → (s' : StoreData) × (put_epoch_record tx s ≡ some s') × (s'.task_processes ≡ s.task_processes)
unfolding put_epoch_record
put_epoch_record_lem tx s =
    store_epoch_record_lem tx.id (map (λ h. hash_word (bytes_of h)) tx.justified_hash)
      (map (λ h. hash_word (bytes_of h)) tx.commits_hash)
      (map (λ e. hash_word (bytes_of e.0)) tx.invalids) (map (λ e. reason_number e.1) tx.invalids) s
      (length-map (λ e. hash_word (bytes_of e.0)) tx.invalids
        ∙ sym (length-map (λ e. reason_number e.1) tx.invalids))

module _ (bytes_to_hash : Bytes → Bytes) (marshal : Params → Bytes) where
  -- The mapping holds, for the slot with this hash, what the transaction says; nothing is said
  -- where there is no transaction.
  abbrev pub Keeps : Bytes → Option TaskProcessTransaction → Assoc Bytes TaskProcess → Type 0
  Keeps h none m = Unit
  Keeps h (some tx) m =
      (t : TaskProcess) × (task_process_params bytes_to_hash tx ≡ some t)
      × (lookup (copied 32 h) m ≡ some t)

  Keeps-other :
      (h : Bytes) (before : Option TaskProcessTransaction) (m m' : Assoc Bytes TaskProcess)
      → lookup (copied 32 h) m' ≡ lookup (copied 32 h) m
      → Keeps h before m
      → Keeps h before m'
  Keeps-other h none m m' same keeps = tt
  Keeps-other h (some tx) m m' same (t, params, found) = (t, params, same ∙ found)

  -- What one write to the mapping does.
  insert-Keeps :
      (h : Bytes) (before : Option TaskProcessTransaction) (tx : TaskProcessTransaction)
      (t : TaskProcess) (m : Assoc Bytes TaskProcess)
      → IsSlotHash h
      → IsSlotHash (bytes_of tx.commit_slot_item.hash)
      → task_process_params bytes_to_hash tx ≡ some t
      → t.hash ≡ copied 32 (bytes_of tx.commit_slot_item.hash)
      → Keeps h before m
      → Keeps h
          (if bytes_of tx.commit_slot_item.hash == h then some tx else before)
          (insert t.hash t m)
  insert-Keeps h before tx t m is st params hash keeps =
      let g = bytes_of tx.commit_slot_item.hash in
      let e : (t.hash == copied 32 h) ≡ (g == h) =
        ap (λ w. w == copied 32 h) hash ∙ copied-IsSlotHash g h st is in
      let reads : lookup (copied 32 h) (insert t.hash t m)
          ≡ (if g == h then some t else lookup (copied 32 h) m) =
        lookup-insert t.hash (copied 32 h) t m
        ∙ ap (λ b. if b then some t else lookup (copied 32 h) m) e in
      elim (Bool-cases (g == h)) [
        | inl same ↦ rw same (t, params, reads ∙ rw same refl)
        | inr other ↦
            rw other (Keeps-other h before m (insert t.hash t m) (reads ∙ rw other refl) keeps)
      ]

  pub process_all-Keeps :
      (h : Bytes) (txs : List Transaction) (before : Option TaskProcessTransaction) (s : StoreData)
      → IsSlotHash h
      → All IsStorable txs
      → Keeps h before s.task_processes
      → (s' : StoreData) × (process_all bytes_to_hash marshal txs s ≡ some s')
        × Keeps h (last_of h txs before) s'.task_processes
  unfolding process_all process store_init_task store_task_process
  process_all-Keeps h [] before s is ok keeps = (s, refl, keeps)
  process_all-Keeps h (init_task_transaction task ∷ txs) before s is (_, ok) keeps =
      process_all-Keeps h txs before
        (store_init_task (string_to_bytes32 (bytes_of task.sign)) (init_task_params marshal task) s)
        is ok keeps
  process_all-Keeps h (task_process_transaction tx ∷ txs) before s is ((j, there, st), ok) keeps =
      let t = params_of bytes_to_hash tx j in
      let params = task_process_params_lem bytes_to_hash tx j there in
      let (s', made, kept) =
        process_all-Keeps h txs (if bytes_of tx.commit_slot_item.hash == h then some tx else before)
          (store_task_process t s) is ok
          (insert-Keeps h before tx t s.task_processes is st params
            (word_of_hash bytes_to_hash (bytes_of tx.commit_slot_item.hash) st).0 keeps) in
      (s', rw (process_all, process, params) made, kept)
  process_all-Keeps h (epoch_record_transaction tx ∷ txs) before s is (_, ok) keeps =
      let (s1, put, same) = put_epoch_record_lem tx s in
      let (s', made, kept) = process_all-Keeps h txs before s1 is ok (rw same keeps) in
      (s', rw (process_all, process, put) made, kept)
