-- ===== src/Base/Assoc.antt =====
-- Go's maps: association lists with one entry for each key that was written. A read of a missing
-- key gives `none`; where Go takes the zero value instead, the caller says so.
use mathlib.Core.Path.{◌≡◌, refl, sym}
use mathlib.Core.Logic.{inl, inr}
use mathlib.Core.Bool.{Bool, true, false}
use mathlib.Core.Option.{Option, none, some}
use mathlib.Core.List.{List, [], ◌∷◌}
use native.Mathlib.Omega.{arith}
use rappa_master.Base.Tests.{Comparable, ◌==◌, ==_ne, Bool-cases, Option-cases, if◌then◌else◌}

abbrev pub Assoc {ℓ κ} : Type ℓ → Type κ → Type (ℓ ⊔ κ)
Assoc K V = List (K × V)

module _ {ℓ κ} {K : Type ℓ} {V : Type κ} ⦃e : Comparable K⦄ where
  -- v, ok := m[k]
  unfoldable pub lookup : K → Assoc K V → Option V
  lookup k [] = none
  lookup k ((j, v) ∷ m) = if j == k then some v else lookup k m

  -- m[k] = v
  unfoldable pub insert : K → V → Assoc K V → Assoc K V
  insert k v [] = (k, v) ∷ []
  insert k v ((j, w) ∷ m) = let rest = insert k v m in if j == k then (k, v) ∷ m else (j, w) ∷ rest

  -- delete(m, k)
  unfoldable pub delete : K → Assoc K V → Assoc K V
  delete k [] = []
  delete k ((j, v) ∷ m) = let rest = delete k m in if j == k then rest else (j, v) ∷ rest

  -- _, ok := m[k]
  abbrev pub contains : K → Assoc K V → Bool
  contains k m = elim (lookup k m) [ none ↦ false | some _ ↦ true ]

  pub lookup-nil : (k : K) → lookup k [] ≡ none
  unfolding lookup
  lookup-nil k = refl

  -- What is read after a write.
  pub lookup-insert :
      (written read : K) (value : V) (m : Assoc K V)
      → lookup read (insert written value m)
        ≡ (if written == read then some value else lookup read m)
  unfolding lookup insert
  lookup-insert written read value [] = refl
  lookup-insert written read value ((head, old) ∷ m) =
      let rest = lookup-insert written read value m in
      ground (arith, e.same_iff written read, e.same_iff head written, e.same_iff head read)

  -- if value, ok := m[k]; ok { m[k] = more(value) } else { m[k] = fresh }
  unfoldable pub upsert : K → (more : V → V) → (fresh : V) → Assoc K V → Assoc K V
  upsert k more fresh m = elim (lookup k m) [
    | some v ↦ insert k (more v) m
    | none ↦ insert k fresh m
  ]

  pub lookup-upsert :
      (written read : K) (more : V → V) (fresh : V) (m : Assoc K V)
      → lookup read (upsert written more fresh m) ≡ (
          if written == read
          then elim (lookup read m) [ some v ↦ some (more v) | none ↦ some fresh ]
          else lookup read m)
  unfolding upsert
  lookup-upsert written read more fresh m = elim (Option-cases (lookup written m)) [
    | inl new ↦ ground (arith, lookup-insert written read fresh m, e.same_iff written read)
    | inr (v, old) ↦ ground (arith, lookup-insert written read (more v) m, e.same_iff written read)
  ]

  pub lookup-delete :
      (k j : K) (m : Assoc K V) → lookup j (delete k m) ≡ (if k == j then none else lookup j m)
  unfolding lookup delete
  lookup-delete k j [] = ground arith
  lookup-delete k j ((i, w) ∷ m) =
      ground (arith, e.same_iff k j, e.same_iff i k, e.same_iff i j, lookup-delete k j m)

-- The keys, in the order in which a range over the map meets them (Go leaves the order open).
abbrev pub keys {ℓ κ} : {K : Type ℓ} {V : Type κ} → Assoc K V → List K
keys [] = []
keys ((k, v) ∷ m) = k ∷ keys m

module _ {ℓ κ} {K : Type ℓ} {V : Type κ} ⦃e : Comparable K⦄ where
  -- No entry has the key `k`.
  abbrev pub IsFresh : K → Assoc K V → Type 0
  IsFresh k [] = Unit
  IsFresh k ((j, v) ∷ m) = ((j == k) ≡ false) × IsFresh k m

  -- What Go's maps guarantee: no key has two entries.
  abbrev pub IsDistinct : Assoc K V → Type 0
  IsDistinct [] = Unit
  IsDistinct ((k, v) ∷ m) = IsFresh k m × IsDistinct m

  pub lookup-IsFresh : (k : K) (m : Assoc K V) → IsFresh k m → lookup k m ≡ none
  unfolding lookup
  lookup-IsFresh k [] h = refl
  lookup-IsFresh k ((j, v) ∷ m) h = ground (arith, lookup-IsFresh k m)

  pub insert-IsFresh :
      (k j : K) (v : V) (m : Assoc K V) → (k == j) ≡ false → IsFresh j m → IsFresh j (insert k v m)
  unfolding insert
  insert-IsFresh k j v [] ne h = (ne, tt)
  insert-IsFresh k j v ((i, w) ∷ m) ne h = elim (Bool-cases (i == k)) [
    | inl same ↦ rw same (ne, h.1)
    | inr other ↦ rw other (h.0, insert-IsFresh k j v m ne h.1)
  ]

  pub insert-IsDistinct : (k : K) (v : V) (m : Assoc K V) → IsDistinct m → IsDistinct (insert k v m)
  unfolding insert
  insert-IsDistinct k v [] h = (tt, tt)
  insert-IsDistinct k v ((i, w) ∷ m) h = elim (Bool-cases (i == k)) [
    | inl same ↦ rw same (rw (sym ((e.same_iff i k).0 same)) h)
    | inr other ↦ rw other (
      insert-IsFresh k i v m (==_ne k i (λ p. cc ((e.same_iff i k).1 (sym p)))) h.0,
      insert-IsDistinct k v m h.1,
    )
  ]
