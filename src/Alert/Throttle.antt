-- ===== src/Alert/Throttle.antt =====
-- The throttle over a sequence of alerts of any groups and monitors.
use neo_line.Prelude.{
  Result-cases, ap, subst, ◌⊎◌, ℕ, ◌+◌, ◌*◌, ◌≤◌, ◌<◌, ◌≡◌, ◌≢◌, refl, Bool, true, false, ◌&&◌,
  String, ◌==◌, eq_iff, Option, none, some, List, [], ◌∷◌, if◌then◌else◌, arith, Bool-cases, inl,
  inr,
}
use neo_line.Monitoring.Types.{Monitor, AlertPolicy, MonitorGroup}
use neo_line.Alert.{
  visit_group, visit_groups, ok, alert_group, should_fire, AlertStore, on_monitor_status_change,
  reset_throttle, Last, recorded, within, allow_throttle, pass_throttle, normalize,
}

-- A firing alert that reaches the throttle: its key, the status, the interval of the policy, the time.
pub record Request : Type 0 where
  pub key : String
  pub status : String
  pub min_interval : ℕ
  pub at : ℕ

-- The times of the incidents of one key that pass.
unfoldable pub passed_at : String → List Request → Last → List ℕ
passed_at key [] last = []
passed_at key (r ∷ rs) last =
    let (passed, next) = pass_throttle r.key r.status r.min_interval r.at last in
    let rest = passed_at key rs next in if passed && r.key == key then r.at ∷ rest else rest

abbrev pub Spaced : ℕ → Option ℕ → List ℕ → Type 0
Spaced gap before [] = Unit
Spaced gap none (t ∷ ts) = Spaced gap (some t) ts
Spaced gap (some s) (t ∷ ts) = (s + gap ≤ t) × Spaced gap (some t) ts

-- The requests of a key are incidents under one interval.
abbrev pub Incidents : String → ℕ → List Request → Type 0
Incidents key gap [] = Unit
Incidents key gap (r ∷ rs) =
    (r.key ≡ key → (normalize r.status ≢ "Healthy") × (r.min_interval ≡ gap)) × Incidents key gap rs

key_beq-sym : (a b : String) → (a == b) ≡ (b == a)
key_beq-sym a b = ground (arith, eq_iff a b, eq_iff b a)

-- What the throttle leaves of another key's alert.
pass_throttle-other :
    (key k status : String) (gap now : ℕ) (last : Last)
    → (k == key) ≡ false
    → (pass_throttle k status gap now last).1 key ≡ last key
unfolding pass_throttle reset_throttle allow_throttle recorded
pass_throttle-other key k status gap now last h = ground (arith, key_beq-sym k key)

-- An incident under a positive interval is held back, or is recorded outside the window of the last.
pass_throttle-same :
    (key k status : String) (gap g now : ℕ) (last : Last)
    → (k == key) ≡ true
    → normalize status ≢ "Healthy"
    → g ≡ gap
    → 0 < gap
    → let r = pass_throttle k status g now last in
      ((r.0 ≡ false) × (r.1 key ≡ last key))
      ⊎ ((r.0 ≡ true) × (r.1 key ≡ some now) × (within gap now (last key) ≡ false))
unfolding pass_throttle allow_throttle recorded
pass_throttle-same key k status gap g now last e h q o =
    let k_is_key : k ≡ key = (eq_iff k key).0 e in
    ground (arith, key_beq-sym k key, eq_iff (normalize status) "Healthy", ap last k_is_key)

-- Skipping an alert keeps the times apart, and so does adding one outside the window.
add-Spaced :
    (gap now : ℕ) (before : Option ℕ) (ts : List ℕ)
    → within gap now before ≡ false
    → Spaced (gap * 1000000000) (some now) ts
    → Spaced (gap * 1000000000) before (now ∷ ts)
unfolding within
add-Spaced gap now none ts w h = h
add-Spaced gap now (some t) ts w h = (ground arith, h)

step-Spaced :
    (gap now : ℕ) (passed mine : Bool) (before after : Option ℕ) (ts : List ℕ)
    → Spaced (gap * 1000000000) after ts
    → (mine ≡ false → after ≡ before)
    → (mine ≡ true
        → ((passed ≡ false) × (after ≡ before))
          ⊎ ((passed ≡ true) × (after ≡ some now) × (within gap now before ≡ false)))
    → Spaced (gap * 1000000000) before (if passed && mine then now ∷ ts else ts)
step-Spaced gap now true true before after ts h o m = elim (m refl) [
  | inl (p, _) ↦ cc p
  | inr (_, p, w) ↦ add-Spaced gap now before ts w (subst (λ a. Spaced (gap * 1000000000) a ts) p h)
]
step-Spaced gap now false true before after ts h o m = elim (m refl) [
  | inl (_, p) ↦ subst (λ a. Spaced (gap * 1000000000) a ts) p h
  | inr (p, _, _) ↦ cc p
]
step-Spaced gap now true false before after ts h o m =
    subst (λ a. Spaced (gap * 1000000000) a ts) (o refl) h
step-Spaced gap now false false before after ts h o m =
    subst (λ a. Spaced (gap * 1000000000) a ts) (o refl) h

-- However the alerts of other keys and recoveries of other monitors fall between them, two alerts of one
-- monitor for one group that pass are at least the policy's positive interval apart, as long as the
-- interval stays the same and no recovery is announced.
pub passed_at-Spaced :
    (key : String) (gap : ℕ) (rs : List Request) (last : Last)
    → 0 < gap
    → Incidents key gap rs
    → Spaced (gap * 1000000000) (last key) (passed_at key rs last)
unfolding passed_at
passed_at-Spaced key gap [] last g h = tt
passed_at-Spaced key gap (r ∷ rs) last g h =
    let (passed, next) = pass_throttle r.key r.status r.min_interval r.at last in
    step-Spaced gap r.at passed (r.key == key) (last key) (next key) (passed_at key rs next)
      (passed_at-Spaced key gap rs next g h.1)
      (pass_throttle-other key r.key r.status r.min_interval r.at last)
      λ e.
        let (status, interval) = h.0 ((eq_iff r.key key).0 e) in
        pass_throttle-same key r.key r.status gap r.min_interval r.at last e status interval g

if-same : {A : Type 0} (b : Bool) (x : A) → (if b then x else x) ≡ x
if-same true x = refl
if-same false x = refl

module _ (st : AlertStore) (m : Monitor) (prev curr : String) (at : ℕ) where
  unannounced :
      (policy : AlertPolicy)
      → normalize curr ≡ "Healthy"
      → policy.on_recover ≡ false
      → should_fire policy prev curr ≡ false
  unfolding should_fire
  unannounced policy h r = rw (h, r) refl

  alert_group-unannounced :
      (id : String) (group : MonitorGroup) (last : Last)
      → should_fire group.alert_policy prev curr ≡ false
      → alert_group st m prev curr at id group last ≡ (last, [])
  unfolding alert_group
  alert_group-unannounced id group last h = rw h (if-same _ (last, []))

  visit_group-recovered :
      (id : String) (last : Last)
      → normalize curr ≡ "Healthy"
      → ((group : MonitorGroup)
          → st.get_monitor_group id ≡ ok group
          → group.alert_policy.on_recover ≡ false)
      → visit_group st m prev curr at id last ≡ (last, [])
  unfolding visit_group
  visit_group-recovered id last h r = elim (Result-cases (st.get_monitor_group id)) [
    | inl (e, p) ↦ rw (p, visit_group) refl
    | inr (group, p) ↦
        rw (p, visit_group)
          (alert_group-unannounced id group last (unannounced group.alert_policy h (r group p)))
  ]

  visit_groups-recovered :
      (ids : List String) (last : Last)
      → normalize curr ≡ "Healthy"
      → ((id : String) (group : MonitorGroup)
          → st.get_monitor_group id ≡ ok group
          → group.alert_policy.on_recover ≡ false)
      → visit_groups st m prev curr at ids last ≡ (last, [])
  unfolding visit_groups
  visit_groups-recovered [] last h r = refl
  visit_groups-recovered (id ∷ ids) last h r =
      rw (visit_group-recovered id last h (r id)) (visit_groups-recovered ids last h r)

-- A recovery that no policy of a group announces delivers nothing and leaves the throttle as it is.
pub on_monitor_status_change-unannounced :
    (st : AlertStore) (m : Monitor) (prev curr : String) (occurred_at : ℕ) (last : Last)
    → normalize curr ≡ "Healthy"
    → ((id : String) (group : MonitorGroup)
        → st.get_monitor_group id ≡ ok group
        → group.alert_policy.on_recover ≡ false)
    → on_monitor_status_change st m prev curr occurred_at last ≡ (last, [])
unfolding on_monitor_status_change
on_monitor_status_change-unannounced st m prev curr at last h r =
    elim (Bool-cases (normalize prev == normalize curr)) [
      | inl e ↦ rw e refl
      | inr e ↦ rw e (visit_groups-recovered st m prev curr at m.group_ids last h r)
    ]
