-- ===== src/Scheduler/Spacing.antt =====
-- The time between two runs of one monitor.
use neo_line.Prelude.{
  ℕ, ◌≤◌, ◌≡◌, refl, Bool, true, false, ◌&&◌, String, ◌==◌, eq_iff, Option, none, some, List, [],
  ◌∷◌, ◌++◌, if◌then◌else◌, arith, Bool-cases, inl, inr, subst, ◌∙◌, All,
}
use neo_line.Monitoring.Types.{Monitor}
use neo_line.Scheduler.{
  State, interval_of, elapsed, due, dispatch, finish, Act, started, finished, reconcile, Event,
  tick, probe_ended, handle, acts,
}
use neo_line.Scheduler.Runs.{beq-sym}

-- The starts of the monitor are a gap apart, and apart from its last run.
abbrev pub far_apart : String → ℕ → Option ℕ → List Act → Bool
far_apart id gap last [] = true
far_apart id gap last (started k at ∷ xs) =
    let rest = far_apart id gap (if k == id then some at else last) xs in
    (if k == id then elapsed gap at last else true) && rest
far_apart id gap last (finished k ∷ xs) = far_apart id gap last xs

-- In a tick the monitor has the interval, and the clock does not go back before its dispatch.
abbrev pub Regular : String → ℕ → ℕ → List (Monitor × ℕ) → Type 0
Regular id gap now = All λ m. m.0.id ≡ id → (interval_of m.0 ≡ gap) × (now ≤ m.1)

abbrev pub RegularTicks : String → ℕ → List Event → Type 0
RegularTicks id gap [] = Unit
RegularTicks id gap (tick now ms ∷ es) = Regular id gap now ms × RegularTicks id gap es
RegularTicks id gap (probe_ended k ∷ es) = RegularTicks id gap es

elapsed_later :
    (gap now at : ℕ) (last : Option ℕ)
    → now ≤ at
    → elapsed gap now last ≡ true
    → elapsed gap at last ≡ true
unfolding elapsed
elapsed_later gap now at none l h = refl
elapsed_later gap now at (some t) l h = ground arith

due-elapsed :
    (s : State) (m : Monitor) (now : ℕ)
    → due s m now ≡ true
    → elapsed (interval_of m) now (s.last_run m.id) ≡ true
unfolding due
due-elapsed s m now h = ground arith

starts_late :
    (id gap_id : String) (gap at : ℕ) (last_run : String → Option ℕ) (xs : List Act)
    → (gap_id ≡ id → elapsed gap at (last_run gap_id) ≡ true)
    → far_apart id gap (if id == gap_id then some at else last_run id) xs ≡ true
    → ((if gap_id == id then elapsed gap at (last_run id) else true)
        && far_apart id gap (if gap_id == id then some at else last_run id) xs)
      ≡ true
starts_late id k gap at last_run xs late h = elim (Bool-cases (k == id)) [
  | inl e ↦
      let same : k ≡ id = (eq_iff k id).0 e in
      let late_here : elapsed gap at (last_run id) ≡ true =
        subst (λ x. elapsed gap at (last_run x) ≡ true) same (late same) in
      rw (e, late_here)
        (subst (λ b. far_apart id gap (if b then some at else last_run id) xs ≡ true)
          (beq-sym id k ∙ e) h)
  | inr e ↦ rw e (
      subst (λ b. far_apart id gap (if b then some at else last_run id) xs ≡ true)
        (beq-sym id k ∙ e) h)
]

reconcile-far_apart :
    (id : String) (gap now : ℕ) (ms : List (Monitor × ℕ)) (s : State) (rest : List Act)
    → Regular id gap now ms
    → far_apart id gap ((reconcile now ms s).0.last_run id) rest ≡ true
    → far_apart id gap (s.last_run id) ((reconcile now ms s).1 ++ rest) ≡ true
unfolding reconcile dispatch
reconcile-far_apart id gap now [] s rest r h = h
reconcile-far_apart id gap now ((m, at) ∷ ms) s rest r h =
    by_due (due s m now) refl (λ t. reconcile-far_apart id gap now ms t rest r.1) h
  where
    by_due :
        (b : Bool)
        → due s m now ≡ b
        → ((t : State)
            → far_apart id gap ((reconcile now ms t).0.last_run id) rest ≡ true
            → far_apart id gap (t.last_run id) ((reconcile now ms t).1 ++ rest) ≡ true)
        → let (end, later) = reconcile now ms (if b then dispatch m at s else s) in
          far_apart id gap (end.last_run id) rest ≡ true
          → far_apart id gap
              (s.last_run id)
              ((if b then started m.id at ∷ later else later) ++ rest)
            ≡ true
    by_due true e ih h =
        starts_late id m.id gap at s.last_run ((reconcile now ms (dispatch m at s)).1 ++ rest)
          (λ same.
            let (interval, clock) = r.0 same in
            elapsed_later gap now at (s.last_run m.id) clock (
              subst (λ g. elapsed g now (s.last_run m.id) ≡ true) interval (due-elapsed s m now e)))
          (ih (dispatch m at s) h)
    by_due false e ih h = ih s h

-- However ticks and ends of probes follow each other, two starts of a monitor are at least its interval
-- apart, as long as the interval stays the same and the clock does not go back within a tick.
pub acts-far_apart :
    (id : String) (gap : ℕ) (es : List Event) (s : State)
    → RegularTicks id gap es
    → far_apart id gap (s.last_run id) (acts es s) ≡ true
unfolding acts handle finish
acts-far_apart id gap [] s r = refl
acts-far_apart id gap (tick now ms ∷ es) s r =
    reconcile-far_apart id gap now ms s _ r.0 (acts-far_apart id gap es (reconcile now ms s).0 r.1)
acts-far_apart id gap (probe_ended k ∷ es) s r = acts-far_apart id gap es (finish k s) r
