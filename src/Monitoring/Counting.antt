-- ===== src/Monitoring/Counting.antt =====
-- The windows of a monitor's availability count its results by their normalised statuses.
use neo_line.Prelude.{
  map, if◌then◌else◌, ℕ, ◌+◌, ◌≤◌, ◌≡◌, refl, ap, ◌∙◌, subst, sym, Bool, true, false, ◌&&◌, ◌||◌,
  String, ◌==◌, eq_iff, Option, none, some, List, [], ◌∷◌, arith, length, length-append, take,
  select, count_if, Result, ok, err, DriverError,
}
use neo_line.Monitoring.Types.{CheckResult}
use neo_line.Monitoring.Status.{
  healthy, warning, critical, unknown, down, normalize_status, status_beq,
}
use neo_line.Monitoring.Uptime.{
  uptime_beat_limit, uptime_windows, hour, uptime_max_window, is_down_variant, UptimeWindow,
  MonitorUptime, WindowAccumulator, of_monitor, since, accumulated, grouped, first_or_none,
  build_window, facet_window, matching, to_heartbeats, newest_first, get_monitor_uptime,
}

abbrev pub is_down : CheckResult → Bool
is_down r = status_beq (normalize_status r.status) down

-- The spellings of the other statuses are none of those of `Down`.
other_spelling :
    (s v : String) → is_down_variant v ≡ false → (s == v) ≡ true → is_down_variant s ≡ false
other_spelling s v h e = subst (λ w. is_down_variant w ≡ false) (sym ((eq_iff s v).0 e)) h

spelled_other :
    (a b c d s : String)
    → is_down_variant a ≡ false
    → is_down_variant b ≡ false
    → is_down_variant c ≡ false
    → is_down_variant d ≡ false
    → (s == a || s == b || s == c || s == d) ≡ true
    → is_down_variant s ≡ false
spelled_other a b c d s ha hb hc hd h = ground (
  arith,
  other_spelling s a ha,
  other_spelling s b hb,
  other_spelling s c hc,
  other_spelling s d hd,
)

-- The choice of `normalize_status` by its four tests.
choice-down :
    (a b c v : Bool)
    → (a ≡ true → v ≡ false)
    → (b ≡ true → v ≡ false)
    → (c ≡ true → v ≡ false)
    → v
      ≡ status_beq
          (if a
            then healthy
            else if b
            then warning
            else if c
            then critical
            else if v
            then down
            else unknown)
          down
choice-down true b c v ha hb hc = ha refl
choice-down false true c v ha hb hc = hb refl
choice-down false false true v ha hb hc = hc refl
choice-down false false false true ha hb hc = refl
choice-down false false false false ha hb hc = refl

not_healthy :
    (s : String)
    → (s == "Healthy" || s == "healthy" || s == "HEALTHY" || s == "HEALTH_STATUS_HEALTHY") ≡ true
    → is_down_variant s ≡ false
not_healthy s =
    spelled_other "Healthy" "healthy" "HEALTHY" "HEALTH_STATUS_HEALTHY" s
      (unfold is_down_variant in refl) (unfold is_down_variant in refl)
      (unfold is_down_variant in refl) (unfold is_down_variant in refl)

not_warning :
    (s : String)
    → (s == "Warning" || s == "warning" || s == "WARNING" || s == "HEALTH_STATUS_WARNING") ≡ true
    → is_down_variant s ≡ false
not_warning s =
    spelled_other "Warning" "warning" "WARNING" "HEALTH_STATUS_WARNING" s
      (unfold is_down_variant in refl) (unfold is_down_variant in refl)
      (unfold is_down_variant in refl) (unfold is_down_variant in refl)

not_critical :
    (s : String)
    → (s == "Critical" || s == "critical" || s == "CRITICAL" || s == "HEALTH_STATUS_CRITICAL")
      ≡ true
    → is_down_variant s ≡ false
not_critical s =
    spelled_other "Critical" "critical" "CRITICAL" "HEALTH_STATUS_CRITICAL" s
      (unfold is_down_variant in refl) (unfold is_down_variant in refl)
      (unfold is_down_variant in refl) (unfold is_down_variant in refl)

variant-normalize_status : (s : String) → is_down_variant s ≡ status_beq (normalize_status s) down
unfolding is_down_variant normalize_status
variant-normalize_status s = choice-down _ _ _ _ (not_healthy s) (not_warning s) (not_critical s)

accumulated-counts :
    (rs : List CheckResult)
    → ((accumulated rs).total ≡ length rs) × ((accumulated rs).down ≡ count_if is_down rs)
unfolding accumulated
accumulated-counts [] = (refl, refl)
accumulated-counts (r ∷ rs) =
    let (t, d) = accumulated-counts rs in
    let same = variant-normalize_status r.status in (omega arith, ground (arith, same, d))

first-grouped : (rs : List CheckResult) → first_or_none (grouped rs) ≡ accumulated rs
unfolding first_or_none grouped accumulated
first-grouped [] = refl
first-grouped (r ∷ rs) = refl

count_if-le_length : {A : Type 0} (p : A → Bool) (xs : List A) → count_if p xs ≤ length xs
count_if-le_length p [] = omega arith
count_if-le_length p (x ∷ xs) = ground (arith, count_if-le_length p xs)

length-take-le : {A : Type 0} (n : ℕ) (xs : List A) → length (take n xs) ≤ n
length-take-le ℕ.zero xs = omega arith
length-take-le (ℕ.suc n) [] = omega arith
length-take-le (ℕ.suc n) (x ∷ xs) = let rest = length-take-le n xs in omega arith

length-to_heartbeats : (rs : List CheckResult) → length (to_heartbeats rs) ≡ length rs
unfolding to_heartbeats
length-to_heartbeats [] = refl
length-to_heartbeats (r ∷ rs) =
    let rest = length-to_heartbeats rs in omega (arith, length-append (to_heartbeats rs) (_ ∷ []))

facet_window-key :
    (now : ℕ) (matched : List CheckResult) (key : String) (window : ℕ)
    → facet_window now matched (key, window) ≡ (key, (facet_window now matched (key, window)).1)
unfolding facet_window
facet_window-key now matched key window = refl

module _ (server_id monitor_id : String) (now : ℕ) where
  -- The results of the monitor in a window.
  abbrev pub within : ℕ → List CheckResult → List CheckResult
  within window results =
      select (λ r. of_monitor server_id monitor_id r && since now window r) results

  within-matching :
      (window : ℕ) (results : List CheckResult)
      → window ≤ uptime_max_window
      → select (since now window) (select (matching server_id monitor_id now) results)
        ≡ within window results
  unfolding matching since
  within-matching window [] h = refl
  within-matching window (r ∷ rs) h = ground (arith, within-matching window rs)

  within-longer :
      (short long : ℕ) (results : List CheckResult)
      → short ≤ long
      → length (within short results) ≤ length (within long results)
  unfolding since
  within-longer short long [] h = omega arith
  within-longer short long (r ∷ rs) h = ground (arith, within-longer short long rs)

  -- A window counts the results of the monitor in it, and those whose status reads as `Down`.
  abbrev pub Summarises : List CheckResult → ℕ → UptimeWindow → Type 0
  Summarises results window w =
      (w.total ≡ length (within window results))
      × (w.down ≡ count_if is_down (within window results))
      × (w.up + w.down ≡ w.total)

  facet_window-Summarises :
      (results : List CheckResult) (key : String) (window : ℕ)
      → window ≤ uptime_max_window
      → Summarises results window
          (facet_window now (select (matching server_id monitor_id now) results) (key, window)).1
  unfolding facet_window build_window
  facet_window-Summarises results key window h =
      let rs = select (since now window) (select (matching server_id monitor_id now) results) in
      let same : rs ≡ within window results = within-matching window results h in
      let grouping = first-grouped rs in
      let (t, d) = accumulated-counts rs in
      let total : (first_or_none (grouped rs)).total ≡ length rs =
        ap (λ (a : WindowAccumulator). a.total) grouping ∙ t in
      let downs : (first_or_none (grouped rs)).down ≡ count_if is_down rs =
        ap (λ (a : WindowAccumulator). a.down) grouping ∙ d in
      let fewer = count_if-le_length is_down rs in
      (total ∙ ap (λ xs. length xs) same, downs ∙ ap (λ xs. count_if is_down xs) same, omega arith)

  -- The two windows, the hour's no more than the day's, and at most fifty heartbeats.
  abbrev pub IsSummary : List CheckResult → MonitorUptime → Type 0
  IsSummary results u =
      (last_hour : UptimeWindow) × (day : UptimeWindow) × (u.windows
        ≡ ("1h", last_hour) ∷ ("24h", day) ∷ [])
      × Summarises results hour last_hour
      × Summarises results uptime_max_window day
      × (last_hour.total ≤ day.total)
      × (length u.heartbeats ≤ 50)

  facet_windows-IsSummary :
      (results rs : List CheckResult)
      → let matched = select (matching server_id monitor_id now) results in
        IsSummary results record {
          windows = map (facet_window now matched) uptime_windows;
          heartbeats = to_heartbeats (take uptime_beat_limit rs);
        }
  facet_windows-IsSummary results rs =
      let matched = select (matching server_id monitor_id now) results in
      let (t, d, e) = facet_window-Summarises results "1h" hour (omega arith) in
      let (t₂, d₂, e₂) = facet_window-Summarises results "24h" uptime_max_window (omega arith) in
      let longer = within-longer hour uptime_max_window results (omega arith) in
      let beats = length-to_heartbeats (take uptime_beat_limit rs) in
      let few = length-take-le uptime_beat_limit rs in
      (
        (facet_window now matched ("1h", hour)).1,
        (facet_window now matched ("24h", uptime_max_window)).1,
        λ i.
            facet_window-key now matched "1h" hour i
            ∷ facet_window-key now matched "24h" uptime_max_window i
            ∷ [],
        (t, d, e),
        (t₂, d₂, e₂),
        omega arith,
        omega arith,
      )

  -- Where both queries answer, the two windows count every result of the monitor since they began, and as
  -- down those whose status is one of the spellings that are normalised to Down; the rest of the total is
  -- up, the window of an hour has no more than that of a day, and at most fifty heartbeats are returned.
  pub get_monitor_uptime-IsSummary :
      (failure beats_failure : Option DriverError) (results : List CheckResult) (u : MonitorUptime)
      → get_monitor_uptime failure beats_failure server_id monitor_id now results ≡ ok u
      → IsSummary results u
  unfolding get_monitor_uptime
  get_monitor_uptime-IsSummary (some e) beats_failure results u h = cc (h)
  get_monitor_uptime-IsSummary none (some e) results u h = cc (h)
  get_monitor_uptime-IsSummary none none results u h =
      let rs = newest_first (select (matching server_id monitor_id now) results) in
      subst (IsSummary results)
        (ap (λ (r : Result MonitorUptime). elim r [ ok v ↦ v | err e ↦ u ]) h)
        (facet_windows-IsSummary results rs)
