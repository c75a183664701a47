-- ===== src/Config/Tally.antt =====
-- The entries that a report counts, and the steps of an importer that count them.
use neo_line.Config.Import.{
  import_settings_entry, validated_group, decide_group, checked_group, act_on_group, import_items,
  GroupImportSpec, Write, import_settings, apply_write, after_write,
}
use neo_line.Prelude.{
  ◌*◌, ℕ, suc, ◌+◌, ◌^◌, ◌<◌, ◌≡◌, Bool, true, false, String, Option, none, some, List, [], ◌∷◌,
  Result, ok, err, arith, nat_beq, if◌then◌else◌, length,
}
use neo_line.Config.Types.{SettingsEntry}
use neo_line.Config.Backend.{Backend}
use neo_line.Config.Report.{
  merge, upsert, other_mode, check, SeenSet, used_by, Mode, write_message, Options, Counts, Summary,
  ResourceType, settings_resource, notify_group_resource, monitor_group_resource, server_resource,
  monitor_resource, Message, Act, act_create, act_update, act_skip, act_skip_conflict, act_conflict,
  adjust, count_failed, count_skipped, count_done, Importer, failed, skipped, done,
}

abbrev pub place : ResourceType → ℕ
place settings_resource = 0
place notify_group_resource = 1
place monitor_group_resource = 2
place server_resource = 3
place monitor_resource = 4

abbrev pub counts_of : ResourceType → Summary → Counts
counts_of settings_resource s = s.settings
counts_of notify_group_resource s = s.notify_groups
counts_of monitor_group_resource s = s.monitor_groups
counts_of server_resource s = s.servers
counts_of monitor_resource s = s.monitors

unfoldable pub total : Counts → ℕ
total c = c.created + c.updated + c.skipped + c.failed

-- The entries of a kind that a summary counts.
unfoldable pub handled : ResourceType → Summary → ℕ
unfolding total
handled q s = total (counts_of q s)

abbrev pub weight : ResourceType → ResourceType → ℕ
weight q r = if nat_beq (place q) (place r) then 1 else 0

total-count_failed : (c : Counts) → total c + 1 < 2 ^ 32 → total (count_failed c) ≡ total c + 1
unfolding total
total-count_failed c h = omega arith

total-count_skipped : (c : Counts) → total c + 1 < 2 ^ 32 → total (count_skipped c) ≡ total c + 1
unfolding total
total-count_skipped c h = omega arith

total-count_done :
    (act : Act) (c : Counts) → total c + 1 < 2 ^ 32 → total (count_done act c) ≡ total c + 1
unfolding total count_done
total-count_done act_create c h = omega arith
total-count_done act_update c h = omega arith
total-count_done act_skip c h = omega arith
total-count_done act_skip_conflict c h = omega arith
total-count_done act_conflict c h = omega arith

handled-adjust :
    (q r : ResourceType) (f : Counts → Counts) (s : Summary)
    → ((c : Counts) → total c + 1 < 2 ^ 32 → total (f c) ≡ total c + 1)
    → handled q s + weight q r < 2 ^ 32
    → handled q (adjust r f s) ≡ handled q s + weight q r
unfolding handled adjust
handled-adjust q r f s h fits = ground (arith, h (counts_of r s))

abbrev pub counted : {S : Type 0} → ResourceType → Importer S → ℕ
counted q im = handled q im.report.summary

abbrev pub settings_entries : ResourceType → Option SettingsEntry → ℕ
settings_entries q none = 0
settings_entries q (some entry) = weight q settings_resource

module _ {S : Type 0} (q : ResourceType) where
  -- A step counts `n` entries, where the counters have room for them.
  pub record Adds (n : ℕ) (f : Importer S → Importer S) : Type 0 where
    pub at : (im : Importer S) → counted q im + n < 2 ^ 32 → counted q (f im) ≡ counted q im + n

  pub failed-Adds :
      (r : ResourceType) (id name : String) (w : Message) → Adds (weight q r) (failed r id name w)
  unfolding failed
  failed-Adds r id name w = record {
    at = λ im h. handled-adjust q r count_failed im.report.summary total-count_failed h;
  }

  pub skipped-Adds :
      (r : ResourceType) (id name : String) (w : Option Message)
      → Adds (weight q r) (skipped r id name w)
  unfolding skipped
  skipped-Adds r id name none = record {
    at = λ im h. handled-adjust q r count_skipped im.report.summary total-count_skipped h;
  }
  skipped-Adds r id name (some w) = record {
    at = λ im h. handled-adjust q r count_skipped im.report.summary total-count_skipped h;
  }

  done-Adds : (r : ResourceType) (act : Act) → Adds (weight q r) (done r act)
  unfolding done
  done-Adds r act = record {
    at = λ im h. handled-adjust q r (count_done act) im.report.summary (total-count_done act) h;
  }

  pub same-Adds : Adds 0 (λ im. im)
  same-Adds = record { at = λ im h. omega arith }

  pub then-Adds :
      (m n : ℕ) (f g : Importer S → Importer S)
      → Adds m f
      → Adds n g
      → Adds (m + n) (λ im. g (f im))
  then-Adds m n f g h k = record {
    at = λ im fits.
        let before = h.at im (omega arith) in let after = k.at (f im) (omega arith) in omega arith;
  }

  after_write-Adds :
      (r : ResourceType) (id name : String) (act : Act) (w : Result (Unit {0}))
      → Adds (weight q r) (λ im. (after_write r id name act w im).0)
  unfolding after_write
  after_write-Adds r id name act (ok u) = done-Adds r act
  after_write-Adds r id name act (err e) = failed-Adds r id name (write_message e)

  pub apply_write-Adds :
      (dry_run : Bool) (r : ResourceType) (id name : String) (act : Act) (w : Write S)
      → Adds (weight q r) (λ im. (apply_write dry_run r id name act w im).0)
  unfolding apply_write
  apply_write-Adds true r id name act w = done-Adds r act
  apply_write-Adds false r id name act w = record {
    at = λ im h.
        let (t, result) = w im.state in
        (after_write-Adds r id name act result).at (record im { state = t }) h;
  }

  pub import_settings-Adds :
      (opts : Options) (b : Backend S) (entry : Option SettingsEntry)
      → Adds (settings_entries q entry) (import_settings opts b entry)
  unfolding import_settings
  import_settings-Adds opts b none = same-Adds
  import_settings-Adds opts b (some entry) = by_mode opts.mode
    where
      by_mode :
          (mode : Mode)
          → Adds (weight q settings_resource) (import_settings_entry mode opts.dry_run b entry)
      by_mode merge = skipped-Adds settings_resource "site" "" none
      by_mode upsert = apply_write-Adds opts.dry_run settings_resource "site" "" act_update _
      by_mode other_mode = apply_write-Adds opts.dry_run settings_resource "site" "" act_update _

  module _ {T : Type 0} (opts : Options) (spec : GroupImportSpec S T) where
    act_on_group-Adds :
        (owner : String) (act : Act) (item : T)
        → Adds (weight q spec.resource) (λ im. (act_on_group opts.dry_run spec owner act item im).0)
    unfolding act_on_group
    act_on_group-Adds owner act_skip item = skipped-Adds spec.resource _ _ none
    act_on_group-Adds owner act_skip_conflict item =
        skipped-Adds spec.resource _ _ (some (used_by owner))
    act_on_group-Adds owner act_conflict item = failed-Adds spec.resource _ _ (used_by owner)
    act_on_group-Adds owner act_create item =
        apply_write-Adds opts.dry_run spec.resource _ _ act_create _
    act_on_group-Adds owner act_update item =
        apply_write-Adds opts.dry_run spec.resource _ _ act_update _

    decide_group-Adds :
        (owner : Option String) (item : T)
        → Adds (weight q spec.resource) (λ im. (decide_group opts spec owner item im).0)
    unfolding decide_group
    decide_group-Adds none item = act_on_group-Adds "" _ item
    decide_group-Adds (some owner) item = act_on_group-Adds owner _ item

    validated_group-Adds :
        (w : Option Message) (item : T)
        → Adds (weight q spec.resource) (λ im. (validated_group opts spec w item im).0)
    unfolding validated_group
    validated_group-Adds (some w) item = failed-Adds spec.resource _ _ w
    validated_group-Adds none item = decide_group-Adds _ item

    checked_group-Adds :
        (w : Option Message) (item : T)
        → Adds (weight q spec.resource) (λ im. (checked_group opts spec w item im).0)
    unfolding checked_group
    checked_group-Adds (some w) item = failed-Adds spec.resource _ _ w
    checked_group-Adds none item = validated_group-Adds _ item

    pub import_items-Adds :
        (items : List T) (seen : SeenSet) (available : List String)
        → Adds
            (length items * weight q spec.resource)
            (λ im. (import_items opts spec items seen available im).0)
    unfolding import_items
    import_items-Adds [] seen available = record { at = λ im h. omega arith }
    import_items-Adds (item ∷ items) seen available = record {
      at = λ im fits.
          let (seen_now, w) = check (spec.id item) (spec.name item) true seen in
          let (after, imported) = checked_group opts spec w item im in
          let each : (n : ℕ)
              → suc n * weight q spec.resource
                ≡ weight q spec.resource + n * weight q spec.resource =
            λ n. omega arith in
          let size = each (length items) in
          let here = (checked_group-Adds w item).at im (omega arith) in
          let further =
            (import_items-Adds items seen_now
                (if imported then spec.id item ∷ available else available)).at
              after (omega arith) in
          omega arith;
    }
