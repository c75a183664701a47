-- ===== src/Alert/Policy.antt =====
-- The policy of a group: which changes it announces, and what is delivered.
use neo_line.Prelude.{
  ◌||◌, nat_beq, length, Bool-cases, All-append, inr, inl, Result-cases, if◌then◌else◌, ℕ, ◌≡◌,
  refl, Bool, true, false, not, String, ◌==◌, arith, List, [], ◌∷◌, All, ok,
}
use mathlib.Core.List.{map, Memᴰ}
use neo_line.Monitoring.Types.{Monitor, AlertPolicy, MonitorGroup}
use neo_line.Monitoring.Status.{
  Status, healthy, warning, critical, down, unknown, text, normalize_status,
}
use neo_line.Alert.{
  throttle_key, pass_throttle, AlertChannel, resolve_channels, alert_group, payload, visit_group,
  AlertStore, Last, Delivery, normalize, should_fire, on_monitor_status_change, visit_groups,
}

same-choice :
    (a b c d e : Bool)
    → e ≡ false
    → (if a
        then "Healthy"
        else if b
        then "Warning"
        else if c
        then "Critical"
        else if d
        then "Down"
        else if e
        then ""
        else "Unknown")
      ≡ text (
          if a
          then healthy
          else if b
          then warning
          else if c
          then critical
          else if d
          then down
          else unknown)
same-choice true b c d e h = refl
same-choice false true c d e h = refl
same-choice false false true d e h = refl
same-choice false false false true e h = refl
same-choice false false false false true h = cc
same-choice false false false false false h = refl

-- The dispatcher reads a status as the store does, but for the empty one, which it keeps.
pub normalize-normalize_status :
    (s : String) → (s == "") ≡ false → normalize s ≡ text (normalize_status s)
unfolding normalize normalize_status
normalize-normalize_status s h = same-choice _ _ _ _ _ h

-- What a policy asks for, by the statuses before and after.
abbrev pub announced : AlertPolicy → Status → Status → Bool
announced policy s down = policy.on_down
announced policy s critical = policy.on_critical
announced policy s warning = policy.on_warning
announced policy s unknown = false
announced policy healthy healthy = false
announced policy unknown healthy = false
announced policy warning healthy = policy.on_recover
announced policy critical healthy = policy.on_recover
announced policy down healthy = policy.on_recover

-- Between definite statuses a policy announces exactly what it asks for: a recovery by `on_recover`, and
-- an incident by the flag of the status reached.
pub should_fire-announced :
    (policy : AlertPolicy) (s t : Status)
    → should_fire policy (text s) (text t) ≡ announced policy s t
unfolding should_fire normalize
should_fire-announced policy healthy healthy = ground arith
should_fire-announced policy warning healthy = ground arith
should_fire-announced policy critical healthy = ground arith
should_fire-announced policy down healthy = ground arith
should_fire-announced policy unknown healthy = ground arith
should_fire-announced policy healthy warning = ground arith
should_fire-announced policy warning warning = ground arith
should_fire-announced policy critical warning = ground arith
should_fire-announced policy down warning = ground arith
should_fire-announced policy unknown warning = ground arith
should_fire-announced policy healthy critical = ground arith
should_fire-announced policy warning critical = ground arith
should_fire-announced policy critical critical = ground arith
should_fire-announced policy down critical = ground arith
should_fire-announced policy unknown critical = ground arith
should_fire-announced policy healthy down = ground arith
should_fire-announced policy warning down = ground arith
should_fire-announced policy critical down = ground arith
should_fire-announced policy down down = ground arith
should_fire-announced policy unknown down = ground arith
should_fire-announced policy healthy unknown = ground arith
should_fire-announced policy warning unknown = ground arith
should_fire-announced policy critical unknown = ground arith
should_fire-announced policy down unknown = ground arith
should_fire-announced policy unknown unknown = ground arith

-- A delivery that the policy of one of the monitor's groups asks for.
pub record IsDue (st : AlertStore) (m : Monitor) (prev curr : String) (sent : Delivery)
    : Type 0 where
  id : String
  group : MonitorGroup
  listed : Memᴰ id m.group_ids
  found : st.get_monitor_group id ≡ ok group
  enabled : group.alert_policy.enabled ≡ true
  fires : should_fire group.alert_policy prev curr ≡ true
  names : sent.1.group_id ≡ group.id
  channel : Memᴰ sent.0 (resolve_channels st group.alert_policy.notify_group_ids)

guarded-All :
    (P : Delivery → Type 0) (a b c : Bool) (x y : Last) (sent : List Delivery)
    → (a ≡ false → b ≡ false → All P sent)
    → All P
        (if◌then◌else◌ {A = Last × List Delivery} a
          (x, [])
          (if b then (x, []) else if c then (y, sent) else (y, []))).1
guarded-All P true b c x y sent h = tt
guarded-All P false true c x y sent h = tt
guarded-All P false false true x y sent h = h refl refl
guarded-All P false false false x y sent h = tt

module _ (st : AlertStore) (m : Monitor) (prev curr : String) (occurred_at : ℕ) where
  All-deliveries :
      (id : String) (group : MonitorGroup)
      → Memᴰ id m.group_ids
      → st.get_monitor_group id ≡ ok group
      → group.alert_policy.enabled ≡ true
      → should_fire group.alert_policy prev curr ≡ true
      → (cs : List AlertChannel)
      → ((c : AlertChannel)
          → Memᴰ c cs
          → Memᴰ c (resolve_channels st group.alert_policy.notify_group_ids))
      → All (IsDue st m prev curr) (map (λ c. (c, payload m prev curr occurred_at group)) cs)
  unfolding payload
  All-deliveries id group l f e s [] w = tt
  All-deliveries id group l f e s (c ∷ cs) w = (
    record {
      id = id;
      group = group;
      listed = l;
      found = f;
      enabled = e;
      fires = s;
      names = refl;
      channel = w c (Memᴰ.head refl);
    },
    All-deliveries id group l f e s cs λ d h. w d (Memᴰ.tail h),
  )

  alert_group-IsDue :
      (id : String) (group : MonitorGroup) (last : Last)
      → Memᴰ id m.group_ids
      → st.get_monitor_group id ≡ ok group
      → All (IsDue st m prev curr) (alert_group st m prev curr occurred_at id group last).1
  unfolding alert_group
  alert_group-IsDue id group last l f =
      let passed =
        pass_throttle (throttle_key id m.id) curr group.alert_policy.min_interval_seconds
          occurred_at last in
      guarded-All (IsDue st m prev curr)
        (not group.alert_policy.enabled || nat_beq (length group.alert_policy.notify_group_ids) 0)
        (not (should_fire group.alert_policy prev curr)) passed.0 last passed.1 _
        λ a b.
          All-deliveries id group l f (ground arith) (ground arith)
            (resolve_channels st group.alert_policy.notify_group_ids) λ c h. h

  visit_group-IsDue :
      (id : String) (last : Last)
      → Memᴰ id m.group_ids
      → All (IsDue st m prev curr) (visit_group st m prev curr occurred_at id last).1
  unfolding visit_group
  visit_group-IsDue id last l = elim (Result-cases (st.get_monitor_group id)) [
    | inl (e, p) ↦ rw (p, All) tt
    | inr (group, p) ↦ rw (p, All) (alert_group-IsDue id group last l p)
  ]

  visit_groups-IsDue :
      (ids : List String) (last : Last)
      → ((id : String) → Memᴰ id ids → Memᴰ id m.group_ids)
      → All (IsDue st m prev curr) (visit_groups st m prev curr occurred_at ids last).1
  unfolding visit_groups
  visit_groups-IsDue [] last w = tt
  visit_groups-IsDue (id ∷ ids) last w =
      All-append (IsDue st m prev curr) _ _ (visit_group-IsDue id last (w id (Memᴰ.head refl)))
        (visit_groups-IsDue ids _ λ k h. w k (Memᴰ.tail h))

-- Whatever a status change delivers is due: each delivery is that of a group of
-- the monitor which was found, with an enabled policy that announces the change, and goes to a channel
-- of a notify group of this policy.
pub on_monitor_status_change-IsDue :
    (st : AlertStore) (m : Monitor) (prev curr : String) (occurred_at : ℕ) (last : Last)
    → All (IsDue st m prev curr) (on_monitor_status_change st m prev curr occurred_at last).1
unfolding on_monitor_status_change
on_monitor_status_change-IsDue st m prev curr at last =
    elim (Bool-cases (normalize prev == normalize curr)) [
      | inl e ↦ rw (e, All) tt
      | inr e ↦ rw (e, All) (visit_groups-IsDue st m prev curr at m.group_ids last λ id h. h)
    ]
