-- ===== src/Chain/Collision.antt =====
-- Where two slots share a key of the contract.
use rappa_master.Base.Assoc.{lookup, lookup-insert}
use rappa_master.Base.{
  ◌≤◌, ◌≡◌, refl, ap, sym, ◌∙◌, ◌==◌, ==_refl, some, [], ◌∷◌, ◌++◌, length, if◌then◌else◌, int_eq,
}
use rappa_master.Base.Bytes.{Bytes, bytes_of, bytes_eq, decode_string, trim_right}
use rappa_master.Paradigm.Model.{Params}
use rappa_master.Paradigm.Commit.{JustifiedSlot}
use rappa_master.Epoch.{TaskProcessTransaction}
use rappa_master.Chain.{task_process_transaction}
use rappa_master.Chain.Words.{copied, string_to_bytes32, copied-append}
use rappa_master.Chain.Contract.{StoreData, store_task_process}
use rappa_master.Chain.Store.{
  trim_0x, query_word, process_word, process, process_all, get_task_process_json,
}
use rappa_master.Chain.Keys.{
  underscore, decode_string-underscore, trim_0x-underscore, params_of, task_process_params_lem,
}
use rappa_master.Chain.Reading.{shown, get_task_process_json_lem}

words-underscore :
    (bytes_to_hash : Bytes → Bytes) (h front back : Bytes)
    → h ≡ front ++ underscore ∷ back
    → process_word bytes_to_hash h ≡ copied 32 h
unfolding process_word string_to_bytes32
words-underscore bytes_to_hash h front back is =
    rw (process_word, ap decode_string is ∙ decode_string-underscore front back) refl

query_word-underscore :
    (h front back : Bytes) → h ≡ front ++ underscore ∷ back → query_word h ≡ copied 32 h
unfolding query_word string_to_bytes32
query_word-underscore h front back is =
    rw (query_word, ap (λ x. decode_string (trim_0x x)) is ∙ trim_0x-underscore front back) refl

-- A hash that holds the byte `_`.
abbrev pub IsParted : Bytes → Type 0
IsParted h = (front : Bytes) × (back : Bytes) × (h ≡ front ++ underscore ∷ back)

-- Of two slots whose hashes hold `_` and agree in their first 32 bytes or more, the second takes the
-- place of the first: a query for the hash of the first then shows the task, the numbers, the
-- commitment and the signatures of the second.
pub process_all-collide :
    (bytes_to_hash : Bytes → Bytes) (marshal : Params → Bytes) (s : StoreData) (front a b : Bytes)
    (tx ty : TaskProcessTransaction) (i j : JustifiedSlot)
    → 32 ≤ length front
    → bytes_of tx.commit_slot_item.hash ≡ front ++ a
    → bytes_of ty.commit_slot_item.hash ≡ front ++ b
    → IsParted (bytes_of tx.commit_slot_item.hash)
    → IsParted (bytes_of ty.commit_slot_item.hash)
    → tx.commit_slot_item.justified_slot ≡ some i
    → ty.commit_slot_item.justified_slot ≡ some j
    → length (bytes_of j.sign) ≤ 32
    → trim_right (bytes_of j.sign) ≡ bytes_of j.sign
    → (s' : StoreData) × (process_all bytes_to_hash marshal
          (task_process_transaction tx ∷ task_process_transaction ty ∷ [])
          s
        ≡ some s')
      × (get_task_process_json (bytes_of tx.commit_slot_item.hash) s'
          ≡ shown bytes_to_hash (bytes_of tx.commit_slot_item.hash) ty j)
unfolding process_all process store_task_process
process_all-collide bytes_to_hash marshal s front a b tx ty i j long x y (fx, bx, px) (fy, by, py)
      first second fits trims =
    let u = params_of bytes_to_hash ty j in
    let s1 = store_task_process (params_of bytes_to_hash tx i) s in
    let s2 = store_task_process u s1 in
    let hx = bytes_of tx.commit_slot_item.hash in
    let hy = bytes_of ty.commit_slot_item.hash in
    let same : copied 32 hx ≡ copied 32 hy =
      ap (copied 32) x ∙ copied-append 32 front a b long ∙ ap (copied 32) (sym y) in
    let key : u.hash ≡ query_word hx =
      words-underscore bytes_to_hash hy fy by py
      ∙ sym same
      ∙ sym (query_word-underscore hx fx bx px) in
    let found : lookup (query_word hx) s2.task_processes ≡ some u =
      lookup-insert u.hash (query_word hx) u s1.task_processes
      ∙ ap (λ k. if k == query_word hx then some u else lookup (query_word hx) s1.task_processes)
          key
      ∙ rw (==_refl (query_word hx)) refl in
    (
      s2,
      rw
          (
            process_all,
            process,
            task_process_params_lem bytes_to_hash tx i first,
            task_process_params_lem bytes_to_hash ty j second,
          )
          refl,
      get_task_process_json_lem bytes_to_hash hx ty j s2 fits trims found,
    )
