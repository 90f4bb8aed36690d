-- ===== src/Chain/Queue.antt =====
-- Which transactions get to the queue.
use rappa_master.Base.{
  ℕ, suc, ◌+◌, ◌<◌, ◌≡◌, refl, ap, ◌∙◌, sym, inl, inr, Bool, true, false, Bool-cases, Option, none,
  some, List, [], ◌∷◌, ◌++◌, append-nil, append_assoc, length, length-append, drop, All-append,
  nat_beq, All, arith, if◌then◌else◌,
}
use rappa_master.Chain.{
  Transaction, ChainUpper, new_chain_upper, check, push_all, pack, up_chain, Turn, receive, up, run,
}

-- The check of a transaction gives an answer.
abbrev pub IsWhole : Transaction → Type 0
IsWhole tx = (passes : Bool) × (check tx ≡ some passes)

abbrev pub passes : Transaction → Bool
passes tx = elim (check tx) [ none ↦ false | some b ↦ b ]

-- The transactions that the check lets pass, in order.
abbrev pub checked : List Transaction → List Transaction
checked [] = []
checked (tx ∷ txs) = if passes tx then tx ∷ checked txs else checked txs

-- The transactions that come in.
abbrev pub received : List Turn → List Transaction
received [] = []
received (receive tx ∷ turns) = tx ∷ received turns
received (up ∷ turns) = received turns

push_all-checked :
    (packed queue : List Transaction)
    → All IsWhole packed
    → push_all packed queue ≡ some (queue ++ checked packed)
unfolding push_all
push_all-checked [] queue h = ap some (sym (append-nil queue))
push_all-checked (tx ∷ packed) queue ((true, found), hs) =
    let keep : checked (tx ∷ packed) ≡ tx ∷ checked packed =
      ap (λ o. if elim o [ none ↦ false | some b ↦ b ] then tx ∷ checked packed else checked packed)
        found in
    rw (push_all, found)
      (push_all-checked packed (queue ++ tx ∷ []) hs
        ∙ ap some
            (append_assoc queue (tx ∷ []) (checked packed) ∙ ap (λ zs. queue ++ zs) (sym keep)))
push_all-checked (tx ∷ packed) queue ((false, found), hs) =
    let skip : checked (tx ∷ packed) ≡ checked packed =
      ap (λ o. if elim o [ none ↦ false | some b ↦ b ] then tx ∷ checked packed else checked packed)
        found in
    rw (push_all, found)
      (push_all-checked packed queue hs ∙ ap (λ zs. some (queue ++ zs)) (sym skip))

checked-append : (xs ys : List Transaction) → checked (xs ++ ys) ≡ checked xs ++ checked ys
checked-append [] ys = refl
checked-append (tx ∷ xs) ys = elim (Bool-cases (passes tx)) [
  | inl good ↦ rw good (ap (λ zs. tx ∷ zs) (checked-append xs ys))
  | inr bad ↦ rw bad (checked-append xs ys)
]

drop-length_append : (xs ys : List Transaction) → drop (length xs) (xs ++ ys) ≡ ys
drop-length_append [] ys = refl
drop-length_append (x ∷ xs) ys = drop-length_append xs ys

-- The pool is what UpChain has had, and then what it has not; the queue got the first part.
abbrev pub Split : ChainUpper → List Transaction → List Transaction → Type 0
Split c had new =
    (c.transaction_pool ≡ had ++ new) × (c.unprocessed_index ≡ length had) × (c.queue ≡ checked had)

nat_beq-eq : (a b : ℕ) → a ≡ b → nat_beq a b ≡ true
nat_beq-eq a b h = ground arith

nat_beq-lt : (a b : ℕ) → a < b → nat_beq a b ≡ false
nat_beq-lt a b h = ground arith

-- UpChain, after pack.
abbrev push_packed : ChainUpper × List Transaction → Option ChainUpper
push_packed (c, packed) = elim (push_all packed c.queue) [
  | none ↦ none
  | some queue ↦ some (record c { queue = queue })
]

up_chain-Split :
    (c : ChainUpper) (had new : List Transaction)
    → Split c had new
    → All IsWhole new
    → (c' : ChainUpper) × (up_chain c ≡ some c') × Split c' (had ++ new) []
unfolding up_chain pack push_all
up_chain-Split c had [] (pool, index, queue) whole =
    let len : length c.transaction_pool ≡ length had + 0 = ap length pool ∙ length-append had [] in
    let at_end : nat_beq c.unprocessed_index (length c.transaction_pool) ≡ true =
      nat_beq-eq (c.unprocessed_index) (length c.transaction_pool) (omega (arith, len, index)) in
    let packed : pack c ≡ (c, []) = rw (pack, at_end) refl in
    (
      c,
      ap push_packed packed,
      (
        pool ∙ sym (append-nil (had ++ [])),
        index ∙ ap length (sym (append-nil had)),
        queue ∙ ap checked (sym (append-nil had)),
      ),
    )
up_chain-Split c had (tx ∷ new) (pool, index, queue) whole =
    let len : length c.transaction_pool ≡ length had + suc (length new) =
      ap length pool ∙ length-append had (tx ∷ new) in
    let before : nat_beq c.unprocessed_index (length c.transaction_pool) ≡ false =
      nat_beq-lt (c.unprocessed_index) (length c.transaction_pool) (omega (arith, len, index)) in
    let packed : drop c.unprocessed_index c.transaction_pool ≡ tx ∷ new =
      rw (index, pool) (drop-length_append had (tx ∷ new)) in
    let moved : ChainUpper = record c { unprocessed_index = length c.transaction_pool } in
    let all_packed : pack c ≡ (moved, tx ∷ new) =
      rw (pack, before) (ap (λ xs. (moved, xs)) packed) in
    (
      record {
        transaction_pool = c.transaction_pool;
        unprocessed_index = length c.transaction_pool;
        queue = c.queue ++ checked (tx ∷ new);
      },
      ap push_packed all_packed
          ∙ ap (λ r. elim r [ none ↦ none | some q ↦ some (record moved { queue = q }) ])
              (push_all-checked (tx ∷ new) c.queue whole),
      (
        pool ∙ sym (append-nil (had ++ tx ∷ new)),
        ap length pool,
        ap (λ q. q ++ checked (tx ∷ new)) queue ∙ sym (checked-append had (tx ∷ new)),
      ),
    )

run-Split :
    (turns : List Turn) (c : ChainUpper) (had new : List Transaction)
    → Split c had new
    → All IsWhole new
    → All IsWhole (received turns)
    → (c' : ChainUpper) × (had' : List Transaction) × (new' : List Transaction) × (run turns c
        ≡ some c')
      × Split c' had' new'
      × All IsWhole new'
      × (had' ++ new' ≡ (had ++ new) ++ received turns)
unfolding run
run-Split [] c had new split whole h =
    (c, had, new, refl, split, whole, sym (append-nil (had ++ new)))
run-Split (receive tx ∷ turns) c had new (pool, index, queue) whole (h, hs) =
    let c1 : ChainUpper = record c { transaction_pool = c.transaction_pool ++ tx ∷ [] } in
    let pool1 : c.transaction_pool ++ tx ∷ [] ≡ had ++ (new ++ tx ∷ []) =
      ap (λ xs. xs ++ tx ∷ []) pool ∙ append_assoc had new (tx ∷ []) in
    let (c', had', new', made, split, whole', all) =
      run-Split turns c1 had (new ++ tx ∷ []) (pool1, index, queue)
        (All-append IsWhole new (tx ∷ []) whole (h, tt)) hs in
    (
      c',
      had',
      new',
      made,
      split,
      whole',
      all
          ∙ ap (λ xs. xs ++ received turns) (sym (append_assoc had new (tx ∷ [])))
          ∙ append_assoc (had ++ new) (tx ∷ []) (received turns),
    )
run-Split (up ∷ turns) c had new split whole hs =
    let (c1, up_made, split1) = up_chain-Split c had new split whole in
    let (c', had', new', made, split', whole', all) =
      run-Split turns c1 (had ++ new) [] split1 tt hs in
    (
      c',
      had',
      new',
      rw (run, up_made) made,
      split',
      whole',
      all ∙ ap (λ xs. xs ++ received turns) (append-nil (had ++ new)),
    )

-- Turns from the start, whose transactions hold no fake item, all return; then the queue got the
-- transactions that the check lets pass of a first part of those that came in, in order, each once;
-- and one more turn of UpChain returns and leaves in the queue those of all that came in.
pub run-queue :
    (turns : List Turn)
    → All IsWhole (received turns)
    → (c : ChainUpper) × (c' : ChainUpper) × (had : List Transaction) × (new : List Transaction)
      × (run turns new_chain_upper ≡ some c)
      × (had ++ new ≡ received turns)
      × (c.queue ≡ checked had)
      × (up_chain c ≡ some c')
      × (c'.queue ≡ checked (received turns))
run-queue turns whole =
    let (c, had, new, made, split, whole', all) =
      run-Split turns new_chain_upper [] [] (refl, refl, refl) tt whole in
    let (c', up_made, split') = up_chain-Split c had new split whole' in
    (c, c', had, new, made, all, split.2, up_made, split'.2 ∙ ap checked all)
