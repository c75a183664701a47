-- ===== src/Scheduler.antt =====
-- internal/scheduler/scheduler.go: which monitors a tick dispatches. A run of the scheduler is a sequence
-- of events, the ticks and the ends of the probes, in the order in which they take the lock; the probes
-- themselves run beside it. A tick reads the clock once for `due`, and once for each monitor.
pub mod Runs
pub mod Spacing
use neo_line.Prelude.{
  ℕ, ◌+◌, ◌*◌, Bool, true, false, not, ◌&&◌, String, ◌==◌, Option, none, some, List, [], ◌∷◌, ◌++◌,
  leb, nat_beq, if◌then◌else◌,
}
use neo_line.Monitoring.Types.{Monitor}

pub record State : Type 0 where
  pub last_run : String → Option ℕ
  pub in_flight : String → Bool

-- `New`.
abbrev pub start : State
start = record { last_run = λ _. none; in_flight = λ _. false }

-- The interval in nanoseconds.
unfoldable pub interval_of : Monitor → ℕ
interval_of m =
    if nat_beq m.interval_seconds 0 then 60 * 1000000000 else m.interval_seconds * 1000000000

-- `now.Sub(last) >= interval`, where the monitor has run.
unfoldable pub elapsed : ℕ → ℕ → Option ℕ → Bool
elapsed interval now none = true
elapsed interval now (some last) = leb (last + interval) now

unfoldable pub due : State → Monitor → ℕ → Bool
unfolding interval_of elapsed
due s m now = if s.in_flight m.id then false else elapsed (interval_of m) now (s.last_run m.id)

-- The part of `dispatch` under the lock, at the clock's `at`.
unfoldable pub dispatch : Monitor → ℕ → State → State
dispatch m at s = record {
  last_run = λ k. if k == m.id then some at else s.last_run k;
  in_flight = λ k. if k == m.id then true else s.in_flight k;
}

-- The part after the probe.
unfoldable pub finish : String → State → State
finish id s = record s { in_flight = λ k. if k == id then false else s.in_flight k }

pub data Act : Type 0 where
  started : String → ℕ → Act
  finished : String → Act

-- The rest of a tick: each monitor with the clock at its dispatch.
unfoldable pub reconcile : ℕ → List (Monitor × ℕ) → State → State × List Act
unfolding due dispatch
reconcile now [] s = (s, [])
reconcile now (m ∷ ms) s =
    let is_due = due s m.0 now in
    let (end, acts) = reconcile now ms (if is_due then dispatch m.0 m.1 s else s) in
    (end, if is_due then started m.0.id m.1 ∷ acts else acts)

pub data Event : Type 0 where
  tick : ℕ → List (Monitor × ℕ) → Event
  probe_ended : String → Event

unfoldable pub handle : Event → State → State × List Act
unfolding reconcile finish
handle (tick now ms) s = reconcile now ms s
handle (probe_ended id) s = (finish id s, finished id ∷ [])

-- What a sequence of events starts and ends.
unfoldable pub acts : List Event → State → List Act
unfolding handle
acts [] s = []
acts (e ∷ es) s = (handle e s).1 ++ acts es (handle e s).0
