-- ===== src/Scheduler/Runs.antt =====
-- The runs of one monitor over a whole sequence of events.
use neo_line.Prelude.{
  ◌∙◌, subst, ℕ, ◌≡◌, refl, Bool, true, false, not, ◌&&◌, String, ◌==◌, eq_iff, List, [], ◌∷◌, ◌++◌,
  if◌then◌else◌, arith, Bool-cases, inl, inr,
}
use neo_line.Monitoring.Types.{Monitor}
use neo_line.Scheduler.{
  State, due, dispatch, finish, Act, started, finished, reconcile, Event, tick, probe_ended, handle,
  acts,
}

-- No act starts the monitor while it is in flight.
abbrev pub alternates : String → Bool → List Act → Bool
alternates id busy [] = true
alternates id busy (started k at ∷ xs) =
    let rest = alternates id (if k == id then true else busy) xs in
    (if k == id then not busy else true) && rest
alternates id busy (finished k ∷ xs) =
    let rest = alternates id (if k == id then false else busy) xs in rest

pub beq-sym : (a b : String) → (a == b) ≡ (b == a)
beq-sym a b = ground (arith, eq_iff a b, eq_iff b a)

starts_idle :
    (id k : String) (in_flight : String → Bool) (xs : List Act)
    → in_flight k ≡ false
    → alternates id (if id == k then true else in_flight id) xs ≡ true
    → ((if k == id then not (in_flight id) else true)
        && alternates id (if k == id then true else in_flight id) xs)
      ≡ true
starts_idle id k in_flight xs idle h = elim (Bool-cases (k == id)) [
  | inl e ↦
      let same : in_flight id ≡ false = subst (λ x. in_flight x ≡ false) ((eq_iff k id).0 e) idle in
      rw (e, same)
        (subst (λ b. alternates id (if b then true else in_flight id) xs ≡ true) (beq-sym id k ∙ e)
          h)
  | inr e ↦
      rw e (
        subst (λ b. alternates id (if b then true else in_flight id) xs ≡ true) (beq-sym id k ∙ e)
          h)
]

due-idle : (s : State) (m : Monitor) (now : ℕ) → due s m now ≡ true → s.in_flight m.id ≡ false
unfolding due
due-idle s m now h = ground arith

reconcile-alternates :
    (id : String) (now : ℕ) (ms : List (Monitor × ℕ)) (s : State) (rest : List Act)
    → alternates id ((reconcile now ms s).0.in_flight id) rest ≡ true
    → alternates id (s.in_flight id) ((reconcile now ms s).1 ++ rest) ≡ true
unfolding reconcile dispatch
reconcile-alternates id now [] s rest h = h
reconcile-alternates id now ((m, at) ∷ ms) s rest h =
    by_due (due s m now) refl (λ t. reconcile-alternates id now ms t rest) h
  where
    by_due :
        (b : Bool)
        → due s m now ≡ b
        → ((t : State)
            → alternates id ((reconcile now ms t).0.in_flight id) rest ≡ true
            → alternates id (t.in_flight id) ((reconcile now ms t).1 ++ rest) ≡ true)
        → let (end, later) = reconcile now ms (if b then dispatch m at s else s) in
          alternates id (end.in_flight id) rest ≡ true
          → alternates id (s.in_flight id) ((if b then started m.id at ∷ later else later) ++ rest)
            ≡ true
    by_due true e ih h =
        starts_idle id m.id s.in_flight ((reconcile now ms (dispatch m at s)).1 ++ rest)
          (due-idle s m now e) (ih (dispatch m at s) h)
    by_due false e ih h = ih s h

-- However ticks and ends of probes follow each other, no monitor is started while it is in flight.
pub acts-alternates :
    (id : String) (es : List Event) (s : State) → alternates id (s.in_flight id) (acts es s) ≡ true
unfolding acts handle finish
acts-alternates id [] s = refl
acts-alternates id (tick now ms ∷ es) s =
    reconcile-alternates id now ms s _ (acts-alternates id es (reconcile now ms s).0)
acts-alternates id (probe_ended k ∷ es) s =
    subst (λ b. alternates id (if b then false else s.in_flight id) (acts es (finish k s)) ≡ true)
      (beq-sym id k) (acts-alternates id es (finish k s))
