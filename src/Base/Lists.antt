-- ===== src/Base/Lists.antt =====
-- Lists with the native numbers for lengths and positions.
use Prim.Native.Nat.{ℕ, zero, suc, ◌+◌, ◌-◌, ◌<◌, min}
use mathlib.Core.Path.{◌≡◌, refl, ap, subst}
use mathlib.Core.Option.{Option, none, some}
use mathlib.Core.List.{List, [], ◌∷◌, ◌++◌, map}
use native.Mathlib.Omega.{arith}

module _ {ℓ} {A : Type ℓ} where
  abbrev pub length : List A → ℕ
  length [] = 0
  length (x ∷ xs) = suc (length xs)

  abbrev pub get_elem? : List A → ℕ → Option A
  get_elem? [] i = none
  get_elem? (x ∷ xs) zero = some x
  get_elem? (x ∷ xs) (suc i) = get_elem? xs i

  -- A write out of bounds changes nothing.
  abbrev pub set : List A → ℕ → A → List A
  set [] i v = []
  set (x ∷ xs) zero v = v ∷ xs
  set (x ∷ xs) (suc i) v = x ∷ set xs i v

  abbrev pub take : ℕ → List A → List A
  take zero xs = []
  take (suc n) [] = []
  take (suc n) (x ∷ xs) = x ∷ take n xs

  abbrev pub drop : ℕ → List A → List A
  drop zero xs = xs
  drop (suc n) [] = []
  drop (suc n) (x ∷ xs) = drop n xs

  abbrev pub All {κ} : (A → Type κ) → List A → Type κ
  All P [] = Unit
  All P (x ∷ xs) = P x × All P xs

  pub length-append : (xs ys : List A) → length (xs ++ ys) ≡ length xs + length ys
  length-append [] ys = omega arith
  length-append (x ∷ xs) ys = omega (arith, length-append xs ys)

  pub take-append-drop : (n : ℕ) (xs : List A) → take n xs ++ drop n xs ≡ xs
  take-append-drop zero xs = refl
  take-append-drop (suc n) [] = refl
  take-append-drop (suc n) (x ∷ xs) = rw (take-append-drop n xs)

  pub length-take : (n : ℕ) (xs : List A) → length (take n xs) ≡ min n (length xs)
  length-take zero xs = omega arith
  length-take (suc n) [] = omega arith
  length-take (suc n) (x ∷ xs) = omega (arith, length-take n xs)

  pub length-drop : (n : ℕ) (xs : List A) → length (drop n xs) ≡ length xs - n
  length-drop zero xs = omega arith
  length-drop (suc n) [] = omega arith
  length-drop (suc n) (x ∷ xs) = omega (arith, length-drop n xs)

  pub All-append {κ} :
      (Holds : A → Type κ) (front back : List A)
      → All Holds front
      → All Holds back
      → All Holds (front ++ back)
  All-append Holds [] back _ k = k
  All-append Holds (a ∷ front) back (h, hs) k = (h, All-append Holds front back hs k)

  pub All-parts {κ} :
      (Holds : A → Type κ) (front back : List A)
      → All Holds (front ++ back)
      → All Holds front × All Holds back
  All-parts Holds [] back k = (tt, k)
  All-parts Holds (a ∷ front) back (h, k) =
      let (hs, rest) = All-parts Holds front back k in ((h, hs), rest)

  pub length-set : (xs : List A) (i : ℕ) (v : A) → length (set xs i v) ≡ length xs
  length-set [] i v = refl
  length-set (x ∷ xs) zero v = refl
  length-set (x ∷ xs) (suc i) v = ap suc (length-set xs i v)

  -- A read inside the bounds gives a value.
  pub get_elem?-lt : (xs : List A) (i : ℕ) → i < length xs → (a : A) × (get_elem? xs i ≡ some a)
  get_elem?-lt [] i h = elim h [ ]
  get_elem?-lt (x ∷ xs) zero h = (x, refl)
  get_elem?-lt (x ∷ xs) (suc i) h = get_elem?-lt xs i (omega arith)

pub length-map {ℓ κ} :
    {A : Type ℓ} {B : Type κ} (f : A → B) (xs : List A) → length (map f xs) ≡ length xs
length-map f [] = refl
length-map f (x ∷ xs) = ap suc (length-map f xs)

module _ {ℓ} {A : Type ℓ} where
  pub get_elem?-append :
      (xs ys : List A) (i : ℕ) {a : A} → get_elem? xs i ≡ some a → get_elem? (xs ++ ys) i ≡ some a
  get_elem?-append [] ys i h = cc
  get_elem?-append (x ∷ xs) ys zero h = h
  get_elem?-append (x ∷ xs) ys (suc i) h = get_elem?-append xs ys i h

  pub get_elem?-append_length :
      (xs : List A) (a : A) → get_elem? (xs ++ a ∷ []) (length xs) ≡ some a
  get_elem?-append_length [] a = refl
  get_elem?-append_length (x ∷ xs) a = get_elem?-append_length xs a

  pub get_elem?-set_self :
      (xs : List A) (i : ℕ) (v : A) {a : A}
      → get_elem? xs i ≡ some a
      → get_elem? (set xs i v) i ≡ some v
  get_elem?-set_self [] i v h = cc
  get_elem?-set_self (x ∷ xs) zero v h = refl
  get_elem?-set_self (x ∷ xs) (suc i) v h = get_elem?-set_self xs i v h

  pub get_elem?-set_ne :
      (xs : List A) (i j : ℕ) (v : A) → ¬ (i ≡ j) → get_elem? (set xs i v) j ≡ get_elem? xs j
  get_elem?-set_ne [] i j v h = refl
  get_elem?-set_ne (x ∷ xs) zero zero v h = absurd (h refl)
  get_elem?-set_ne (x ∷ xs) zero (suc j) v h = refl
  get_elem?-set_ne (x ∷ xs) (suc i) zero v h = refl
  get_elem?-set_ne (x ∷ xs) (suc i) (suc j) v h = get_elem?-set_ne xs i j v (λ e. h (ap suc e))

  pub lt-get_elem? : (xs : List A) (i : ℕ) {a : A} → get_elem? xs i ≡ some a → i < length xs
  lt-get_elem? [] i h = cc
  lt-get_elem? (x ∷ xs) zero h = omega arith
  lt-get_elem? (x ∷ xs) (suc i) h = omega (arith, lt-get_elem? xs i h)

  -- What holds of each member holds of the one at a position, and of those that are left.
  pub All-get_elem? {κ} :
      (P : A → Type κ) (xs : List A) (i : ℕ) {a : A} → All P xs → get_elem? xs i ≡ some a → P a
  All-get_elem? P [] i h e = cc
  All-get_elem? P (x ∷ xs) zero h e = subst P (ground arith) h.0
  All-get_elem? P (x ∷ xs) (suc i) h e = All-get_elem? P xs i h.1 e

  abbrev pub remove_at : List A → ℕ → List A
  remove_at [] i = []
  remove_at (x ∷ xs) zero = xs
  remove_at (x ∷ xs) (suc i) = x ∷ remove_at xs i

  pub All-remove_at {κ} : (P : A → Type κ) (xs : List A) (i : ℕ) → All P xs → All P (remove_at xs i)
  All-remove_at P [] i h = tt
  All-remove_at P (x ∷ xs) zero h = h.1
  All-remove_at P (x ∷ xs) (suc i) h = (h.0, All-remove_at P xs i h.1)

  pub All-set {κ} :
      (P : A → Type κ) (xs : List A) (i : ℕ) (v : A) → All P xs → P v → All P (set xs i v)
  All-set P [] i v h p = tt
  All-set P (x ∷ xs) zero v h p = (p, h.1)
  All-set P (x ∷ xs) (suc i) v h p = (h.0, All-set P xs i v h.1 p)

  pub All-map {κ μ} :
      {P : A → Type κ} {Q : A → Type μ} (f : (a : A) → P a → Q a) (xs : List A)
      → All P xs
      → All Q xs
  All-map f [] h = tt
  All-map f (x ∷ xs) h = (f x h.0, All-map f xs h.1)
