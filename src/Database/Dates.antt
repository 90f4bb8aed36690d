-- ===== src/Database/Dates.antt =====
-- The record of the day (Database/dataRecordImpl.go).
use rappa_master.Base.{
  sym, pos, append_assoc, ◌++◌, List, [], ◌∷◌, ℕ, zero, suc, ◌+◌, ◌-◌, ◌*◌, ◌≤◌, ◌≡◌, refl, ap,
  subst, ◌∙◌, Option, none, some, arith, ltb, true, false,
}
use rappa_master.Date.{DateRecord, new_date_record}
use rappa_master.Database.{DateTable, create_dates, get_date_record}

-- The record of the day with this number, with nothing counted yet.
abbrev pub fresh_day : ℕ → DateRecord
fresh_day day = record {
  date = 24 * day;
  synth_data = [];
  nb_init_tasks = pos 0;
  nb_finalized_slot = pos 0;
  nb_transactions = pos 0;
  nb_finish_tasks = pos 0;
  dataset_distribution = [];
}

-- The fresh records of `left` days.
abbrev pub fresh_days : (first left : ℕ) → List DateRecord
fresh_days first zero = []
fresh_days first (suc left) = fresh_day first ∷ fresh_days (first + 1) left

module _ (dates : DateTable) where
  -- What the loop has made of the table.
  abbrev Created : (left : ℕ) → dates.State → Option DateRecord × dates.State → Type 0
  Created left s (found, s') =
      (found ≡ some (fresh_day (dates.count s + left)))
      × (dates.last s' ≡ some (fresh_day (dates.count s + left)))
      × (dates.count s' ≡ dates.count s + suc left)
      × (dates.find s' ≡ dates.find s ++ fresh_days (dates.count s) (suc left))

  create_dates-Created :
      (left : ℕ) (s : dates.State) (x : Option DateRecord)
      → Created left s (create_dates dates (suc left) s x)
  unfolding create_dates new_date_record
  create_dates-Created zero s x =
      let r = fresh_day (dates.count s) in
      let here : dates.count s + 0 ≡ dates.count s = omega arith in
      (
        rw here refl,
        rw here (dates.last-create r s),
        dates.count-create r s ∙ omega arith,
        dates.find-create r s,
      )
  create_dates-Created (suc left) s x =
      let r = fresh_day (dates.count s) in
      let s1 = dates.create r s in
      let next : dates.count s1 ≡ dates.count s + 1 = dates.count-create r s ∙ omega arith in
      let n : dates.count s1 + left ≡ dates.count s + suc left = omega (arith, next) in
      let (found, last, count, rows) = create_dates-Created left s1 (some r) in
      (
        rw (← n) found,
        rw (← n) last,
        count ∙ omega (arith, next),
        rows ∙ rw (dates.find-create r s, next, append_assoc (dates.find s)) refl,
      )

  -- On a day that has no record yet, each missing day up to it gets a record of its date with nothing
  -- counted, behind the records that are there, in order. The one found is that of the day, and a
  -- second call on the same day finds the same record and creates none.
  pub get_date_record_again :
      (duration : ℕ) (s : dates.State)
      → dates.count s ≤ duration
      → (s' : dates.State) × (get_date_record dates duration s ≡ (some (fresh_day duration), s'))
        × (dates.find s'
            ≡ dates.find s ++ fresh_days (dates.count s) (suc duration - dates.count s))
        × (dates.count s' ≡ suc duration)
        × (get_date_record dates duration s' ≡ (some (fresh_day duration), s'))
  unfolding get_date_record
  get_date_record_again duration s new =
      let left = duration - dates.count s in
      let s' = (create_dates dates (suc left) s none).1 in
      let (found, last, count, rows) = create_dates-Created left s none in
      let n : dates.count s + left ≡ duration = omega arith in
      let missing : ltb duration (dates.count s) ≡ false = ground arith in
      let l : suc duration - dates.count s ≡ suc left = omega arith in
      let count' : dates.count s' ≡ suc duration = count ∙ omega arith in
      let there : ltb duration (dates.count s') ≡ true = rw count' (ground arith) in
      let r = λ (k : ℕ). some (fresh_day k) in
      let found' = subst (λ k. (create_dates dates (suc left) s none).0 ≡ r k) n found in
      let last' = subst (λ k. dates.last s' ≡ r k) n last in
      let first : get_date_record dates duration s ≡ create_dates dates (suc left) s none =
        rw (missing, l) refl in
      let second : get_date_record dates duration s' ≡ (dates.last s', s') = rw there refl in
      (
        s',
        first ∙ ap (λ x. (x, s')) found',
        rows ∙ ap (λ k. dates.find s ++ fresh_days (dates.count s) k) (sym l),
        count',
        second ∙ ap (λ x. (x, s')) last',
      )
