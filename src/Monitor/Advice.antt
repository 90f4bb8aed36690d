-- ===== src/Monitor/Advice.antt =====
-- How much work the monitor's advice hands out.
use Prim.Native.Nat.{min, max}
use native.Mathlib.Nat.{div-add-mod}
use native.Mathlib.Nat.{div-eq_of_lt, mod-eq_of_lt}
use native.Mathlib.Decide.{dec_lt}
use rappa_master.Base.{
  ℕ, zero, suc, ◌+◌, ◌*◌, ◌/◌, ◌%◌, ◌^◌, ◌≤◌, ◌<◌, ◌≡◌, refl, ap, ◌∙◌, ℤ, pos, ◌+ℤ◌, pos-add, ◌≤ℤ◌,
  All, add_i32-pos, some, List, [], ◌∷◌, length, arith,
}
use rappa_master.Monitor.{AdviceResponse, advice_size, fill_nodes, fill_sizes, advice}

abbrev pub total : List ℤ → ℤ
total [] = pos 0
total (z ∷ zs) = z +ℤ total zs

-- The share of a node: an even part, at most the size asked for a slot, and at least 1.
abbrev pub share : (size slot_size n : ℕ) → ℕ
share size slot_size n = max 1 (min slot_size (size / n))

advice_size-eq-share :
    (size slot_size n : ℕ) → advice_size (pos size) (pos slot_size) n ≡ pos (share size slot_size n)
unfolding advice_size
advice_size-eq-share size slot_size n = ground arith

length-fill_nodes : (i n : ℕ) → length (fill_nodes i n) ≡ n
unfolding fill_nodes
length-fill_nodes i zero = refl
length-fill_nodes i (suc n) = ap suc (length-fill_nodes (i + 1) n)

length-fill_sizes : (z : ℤ) (n : ℕ) → length (fill_sizes z n) ≡ n
unfolding fill_sizes
length-fill_sizes z zero = refl
length-fill_sizes z (suc n) = ap suc (length-fill_sizes z n)

total-fill_sizes : (s n : ℕ) → total (fill_sizes (pos s) n) ≡ pos (n * s)
unfolding fill_sizes
total-fill_sizes s zero = ap pos (omega arith)
total-fill_sizes s (suc n) = rw (total-fill_sizes s n, pos-add s (n * s)) (ap pos (grind arith))

div_le : (a n : ℕ) → 0 < n → a / n ≤ n * (a / n)
div_le a n h = grind arith

div_pos : (a n : ℕ) → 0 < n → n ≤ a → 1 ≤ a / n
div_pos a n h le = grind arith

-- The first node takes the remainder too, which does not overflow.
first_bound :
    (size slot_size n : ℕ)
    → 0 < n
    → n < 2 ^ 31
    → size < 2 ^ 31
    → share size slot_size n + size % n < 2 ^ 31
first_bound size slot_size n h k l = elim (dec_lt size n) [
  | yes small ↦ omega (arith, div-eq_of_lt small)
  | no large ↦ omega (arith, div-add-mod size n, div_le size n h, div_pos size n h (omega arith))
]

-- The advice, written out.
advice_shares :
    (n size slot_size : ℕ)
    → suc n < 2 ^ 31
    → size < 2 ^ 31
    → let s = share size slot_size (suc n) in
      advice (suc n) (pos size) (pos slot_size)
      ≡ some (record {
        node_ids = fill_nodes 0 (suc n);
        schedule_size = pos (s + size % suc n) ∷ fill_sizes (pos s) n;
      })
unfolding advice
advice_shares n size slot_size k l =
    let s = share size slot_size (suc n) in
    rw (
      advice_size-eq-share size slot_size (suc n),
      add_i32-pos s (size % suc n) (first_bound size slot_size (suc n) (omega arith) k l),
    )

-- For at least one node, fewer than 2^31, and sizes that are int32s and not negative, the advice
-- names each node once, in order, with one size for each, and the sizes add up to the number of
-- nodes times the share of one, plus the remainder of the division.
pub advice_total :
    (n size slot_size : ℕ)
    → 0 < n
    → n < 2 ^ 31
    → size < 2 ^ 31
    → (r : AdviceResponse) × (advice n (pos size) (pos slot_size) ≡ some r)
      × (r.node_ids ≡ fill_nodes 0 n)
      × (length r.schedule_size ≡ n)
      × (total r.schedule_size ≡ pos (n * share size slot_size n + size % n))
advice_total zero size slot_size h k l = elim h [ ]
advice_total (suc n) size slot_size h k l =
    let s = share size slot_size (suc n) in
    (
      record {
        node_ids = fill_nodes 0 (suc n);
        schedule_size = pos (s + size % suc n) ∷ fill_sizes (pos s) n;
      },
      advice_shares n size slot_size k l,
      refl,
      ap suc (length-fill_sizes (pos s) n),
      rw (total-fill_sizes s n, pos-add (s + size % suc n) (n * s)) (ap pos (grind arith)),
    )

-- Where there is work for each node, and no node would get more than the size asked for a slot, the
-- shares add up to the whole task, no more and no less.
pub advice_covers :
    (n size slot_size : ℕ)
    → 0 < n
    → n < 2 ^ 31
    → size < 2 ^ 31
    → size / n ≤ slot_size
    → n ≤ size
    → (r : AdviceResponse) × (advice n (pos size) (pos slot_size) ≡ some r)
      × (total r.schedule_size ≡ pos size)
advice_covers n size slot_size h k l fits large =
    let (r, e, _, _, t) = advice_total n size slot_size h k l in
    let even : share size slot_size n ≡ size / n = omega (arith, div_pos size n h large) in
    (r, e, t ∙ ap pos (rw even (div-add-mod size n)))

All-fill_sizes : (z : ℤ) (n : ℕ) → pos 1 ≤ℤ z → All (λ size. pos 1 ≤ℤ size) (fill_sizes z n)
unfolding fill_sizes
All-fill_sizes z zero h = tt
All-fill_sizes z (suc n) h = (h, All-fill_sizes z n h)

-- Where there is less work than nodes (fewer than 2^31 of them), and at least 1 is asked for a slot, each
-- node gets a share of at least one, and the shares add up to the task and one more for each node:
-- more than there is to do.
pub advice_surplus :
    (n size slot_size : ℕ)
    → 0 < n
    → n < 2 ^ 31
    → 1 ≤ slot_size
    → size < n
    → (r : AdviceResponse) × (advice n (pos size) (pos slot_size) ≡ some r)
      × (r.node_ids ≡ fill_nodes 0 n)
      × (length r.schedule_size ≡ n)
      × All (λ share. pos 1 ≤ℤ share) r.schedule_size
      × (total r.schedule_size ≡ pos (n + size))
advice_surplus zero size slot_size h k pos_slot small = elim h [ ]
advice_surplus (suc n) size slot_size h k pos_slot small =
    let s = share size slot_size (suc n) in
    let one : s ≡ 1 = omega (arith, div-eq_of_lt small) in
    (
      record {
        node_ids = fill_nodes 0 (suc n);
        schedule_size = pos (s + size % suc n) ∷ fill_sizes (pos s) n;
      },
      advice_shares n size slot_size k (omega arith),
      refl,
      ap suc (length-fill_sizes (pos s) n),
      (omega (arith, one), All-fill_sizes (pos s) n (omega (arith, one))),
      rw (total-fill_sizes s n, pos-add (s + size % suc n) (n * s))
          (ap pos (rw (one, mod-eq_of_lt small) (omega arith))),
    )
