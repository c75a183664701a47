-- ===== src/Monitoring/Health.antt =====
-- The health of a server is that of its worst monitor.
use neo_line.Prelude.{
  suc, ℕ, ◌+◌, ◌^◌, ◌≤◌, ◌<◌, ◌≡◌, refl, String, List, [], ◌∷◌, ltb, leb, nat_beq, if◌then◌else◌,
  arith, count_if, length, map, ap,
}
use neo_line.Monitoring.Types.{Monitor, ServerHealth}
use neo_line.Monitoring.Status.{
  Status, healthy, warning, critical, down, unknown, text, normalize_status, status_beq, tally,
  tally_all, aggregate_health,
}

-- The order of the statuses, from the best to the worst.
abbrev pub severity : Status → ℕ
severity healthy = 0
severity unknown = 1
severity warning = 2
severity critical = 3
severity down = 4

abbrev pub worse : Status → Status → Status
worse a b = if leb (severity a) (severity b) then b else a

abbrev pub worst : List Status → Status
worst [] = healthy
worst (s ∷ ss) = worse s (worst ss)

abbrev pub statuses : List Monitor → List Status
statuses = map λ m. normalize_status m.status

-- Every constant is read as itself.
pub normalize_status-text : (s : Status) → normalize_status (text s) ≡ s
unfolding normalize_status
normalize_status-text healthy = refl
normalize_status-text warning = refl
normalize_status-text critical = refl
normalize_status-text down = refl
normalize_status-text unknown = refl

abbrev pub no_monitors : String → ℕ → ℕ → ServerHealth
no_monitors id changed checked = record {
  server_id = id;
  status = "Unknown";
  last_status_change_at = changed;
  last_check_at = checked;
  total_monitors = 0;
  healthy_monitors = 0;
  warning_monitors = 0;
  critical_monitors = 0;
  down_monitors = 0;
  unknown_monitors = 0;
}

abbrev count_of : Status → List Monitor → ℕ
count_of s ms = count_if (status_beq s) (statuses ms)

-- The counters after the loop, as long as they do not wrap.
record IsTally (h r : ServerHealth) (ms : List Monitor) : Type 0 where
  total : r.total_monitors ≡ h.total_monitors + length ms
  of_healthy : r.healthy_monitors ≡ h.healthy_monitors + count_of healthy ms
  of_warning : r.warning_monitors ≡ h.warning_monitors + count_of warning ms
  of_critical : r.critical_monitors ≡ h.critical_monitors + count_of critical ms
  of_down : r.down_monitors ≡ h.down_monitors + count_of down ms
  of_unknown : r.unknown_monitors ≡ h.unknown_monitors + count_of unknown ms

-- No counter is above the total.
record Fits (h : ServerHealth) (n : ℕ) : Type 0 where
  total_fits : h.total_monitors + n < 2 ^ 32
  healthy_le : h.healthy_monitors ≤ h.total_monitors
  warning_le : h.warning_monitors ≤ h.total_monitors
  critical_le : h.critical_monitors ≤ h.total_monitors
  down_le : h.down_monitors ≤ h.total_monitors
  unknown_le : h.unknown_monitors ≤ h.total_monitors

tally-Fits : (h : ServerHealth) (m : Monitor) (n : ℕ) → Fits h (suc n) → Fits (tally h m) n
unfolding tally
tally-Fits h m n f = ground arith

tally-IsTally :
    (h r : ServerHealth) (m : Monitor) (ms : List Monitor)
    → Fits h (suc (length ms))
    → IsTally (tally h m) r ms
    → IsTally h r (m ∷ ms)
unfolding tally
tally-IsTally h r m ms f t = ground arith

tally_all-IsTally :
    (h : ServerHealth) (ms : List Monitor) → Fits h (length ms) → IsTally h (tally_all h ms) ms
unfolding tally_all
tally_all-IsTally h [] f = ground arith
tally_all-IsTally h (m ∷ ms) f =
    tally-IsTally h (tally_all (tally h m) ms) m ms f
      (tally_all-IsTally (tally h m) ms (tally-Fits h m (length ms) f))

-- The worst status by the numbers of each.
worst-counts :
    (ss : List Status)
    → worst ss ≡ (
        if ltb 0 (count_if (status_beq down) ss)
        then down
        else if ltb 0 (count_if (status_beq critical) ss)
        then critical
        else if ltb 0 (count_if (status_beq warning) ss)
        then warning
        else if ltb 0 (count_if (status_beq unknown) ss)
        then unknown
        else healthy)
worst-counts [] = refl
worst-counts (healthy ∷ ss) = ground (arith, worst-counts ss)
worst-counts (warning ∷ ss) = ground (arith, worst-counts ss)
worst-counts (critical ∷ ss) = ground (arith, worst-counts ss)
worst-counts (down ∷ ss) = ground (arith, worst-counts ss)
worst-counts (unknown ∷ ss) = ground (arith, worst-counts ss)

counts-total :
    (ss : List Status)
    → length ss
      ≡ count_if (status_beq healthy) ss
        + count_if (status_beq warning) ss
        + count_if (status_beq critical) ss
        + count_if (status_beq down) ss
        + count_if (status_beq unknown) ss
counts-total [] = refl
counts-total (healthy ∷ ss) = ground (arith, counts-total ss)
counts-total (warning ∷ ss) = ground (arith, counts-total ss)
counts-total (critical ∷ ss) = ground (arith, counts-total ss)
counts-total (down ∷ ss) = ground (arith, counts-total ss)
counts-total (unknown ∷ ss) = ground (arith, counts-total ss)

length-statuses : (ms : List Monitor) → length (statuses ms) ≡ length ms
length-statuses [] = refl
length-statuses (m ∷ ms) = ap suc (length-statuses ms)

no_monitors-Fits :
    (id : String) (changed checked n : ℕ) → n < 2 ^ 32 → Fits (no_monitors id changed checked) n
no_monitors-Fits id changed checked n fits = ground arith

-- The counters add up to the total, and the status of a server is the worst of its monitors' statuses
-- (Down, Critical, Warning, Unknown, Healthy in this order), or Unknown where it has no monitor.
pub aggregate_health-worst :
    (id : String) (changed checked : ℕ) (ms : List Monitor)
    → length ms < 2 ^ 32
    → let h = tally_all (no_monitors id changed checked) ms in
      (aggregate_health h ≡ (if nat_beq (length ms) 0 then unknown else worst (statuses ms)))
      × (h.total_monitors
          ≡ h.healthy_monitors + h.warning_monitors + h.critical_monitors + h.down_monitors
            + h.unknown_monitors)
unfolding aggregate_health
aggregate_health-worst id changed checked ms fits =
    let t =
      tally_all-IsTally (no_monitors id changed checked) ms
        (no_monitors-Fits id changed checked (length ms) fits) in
    ground (arith, t, worst-counts (statuses ms), counts-total (statuses ms), length-statuses ms)
