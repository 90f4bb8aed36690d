-- ===== src/Epoch/Run.antt =====
-- The epoch manager over any sequence of events.
use rappa_master.Base.{◌≡◌, refl, subst, string_eq, int_eq, some, List, [], ◌∷◌, ◌++◌, arith}
use rappa_master.Tracker.Sound.{IsSound}
use rappa_master.Pki.{Crypto}
use rappa_master.Epoch.{EpochManager, Event, Report, process_tasks}
use rappa_master.Epoch.Ledger.{IsSynced, Balanced, Books, process_event-Books, Balanced-append}
use rappa_master.Epoch.Needs.{AllNeeds}
use rappa_master.Epoch.Progress.{process_event-Goes}

module _ {c : Crypto} where
  -- The epoch manager takes any events whose needs are met. Each slot that it reports as task
  -- progress is stamped with the manager's epoch, one below the number of the record that counts
  -- it, and each record that it reports carries the sum of the progress reported since the one
  -- before.
  pub process_tasks-Balanced :
      (es : List Event) (m : EpochManager c)
      → IsSound m.tracker
      → IsSynced m
      → AllNeeds m.pki_manager.node_cert m.epoch_record.tasks es
      → (m' : EpochManager c) × (rs : List Report) × (process_tasks c es m ≡ some (m', rs))
        × IsSynced m'
        × Balanced m.current_epoch m.epoch_record.process rs m'.current_epoch
            m'.epoch_record.process
  unfolding process_tasks
  process_tasks-Balanced [] m s y n = (m, [], refl, y, (refl, refl))
  process_tasks-Balanced (e ∷ es) m s y (n, ns) =
      let g = process_event-Goes e m n s in
      let m1 = g.after in
      let (y1, b1) : Books m (some (m1, g.reports)) =
        subst (Books m) g.runs (process_event-Books e m y) in
      let ns1 : AllNeeds m1.pki_manager.node_cert m1.epoch_record.tasks es =
        rw (g.cert, g.tasks_now) ns in
      let (m2, more, runs, y2, b2) = process_tasks-Balanced es m1 g.sound y1 ns1 in
      (
        m2,
        g.reports ++ more,
        ground (arith, g.runs),
        y2,
        Balanced-append g.reports more m.current_epoch m.epoch_record.process m1.current_epoch
            m1.epoch_record.process m2.current_epoch m2.epoch_record.process b1 b2,
      )
