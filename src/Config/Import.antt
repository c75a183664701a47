-- ===== src/Config/Import.antt =====
-- internal/configio/import.go: one item of each kind of resource but servers and monitors, and the groups.
use neo_line.Prelude.{
  Bool, true, false, not, String, ◌==◌, Option, none, some, List, [], ◌∷◌, map, if◌then◌else◌,
  Result, ok, err,
}
use neo_line.Inventory.State.{names}
use neo_line.Config.Types.{SettingsEntry, NotifyGroupEntry, MonitorGroupEntry}
use neo_line.Config.Files.{settings_to_store, notify_group_to_store, monitor_group_to_store}
use neo_line.Config.Backend.{Backend}
use neo_line.Config.Report.{
  Mode, merge, Options, ResourceType, settings_resource, notify_group_resource,
  monitor_group_resource, Message, used_by, Act, act_update, act_skip, act_skip_conflict,
  act_conflict, decide, SeenSet, new_seen_set, check, missing_refs, write_message, Importer, failed,
  skipped, done,
}

-- A write of the store, whose document is dropped.
abbrev pub Write : Type 0 → Type 0
Write S = S → S × Result (Unit {0})

abbrev pub written : {S A : Type 0} → (S → S × Result A) → Write S
written m s = ((m s).0, elim (m s).1 [ ok _ ↦ ok tt | err e ↦ err e ])

pub record NamedItem : Type 0 where
  pub id : String
  pub name : String

-- What a group import is told of its kind of group.
pub record GroupImportSpec (S T : Type 0) : Type 0 where
  pub resource : ResourceType
  pub existing : List NamedItem
  pub id : T → String
  pub name : T → String
  pub validate : T → Option Message
  pub write : Act → T → Write S

-- The owner of a name, the last of those that have it.
unfoldable pub name_owner : String → List NamedItem → Option String
name_owner name [] = none
name_owner name (g ∷ gs) = elim (name_owner name gs) [
  | some owner ↦ some owner
  | none ↦ if g.name == name then some g.id else none
]

abbrev pub item_ids : List NamedItem → List String
item_ids gs = map (λ g. g.id) gs

unfoldable pub update_or_create : {S : Type 0} → Act → Write S → Write S → Write S
update_or_create act_update update create = update
update_or_create _ update create = create

module _ {S : Type 0} where
  -- The end of an item that is written, and whether it was imported.
  unfoldable pub after_write :
      ResourceType → String → String → Act → Result (Unit {0}) → Importer S → Importer S × Bool
  after_write r id name act (ok u) im = (done r act im, true)
  after_write r id name act (err e) im = (failed r id name (write_message e) im, false)

  -- By whether the run is a dry one.
  unfoldable pub apply_write :
      Bool → ResourceType → String → String → Act → Write S → Importer S → Importer S × Bool
  unfolding after_write
  apply_write true r id name act write im = (done r act im, true)
  apply_write false r id name act write im =
      let (t, result) = write im.state in after_write r id name act result (record im { state = t })

  unfoldable pub import_settings_entry :
      Mode → Bool → (b : Backend S) → SettingsEntry → Importer S → Importer S
  unfolding apply_write
  import_settings_entry merge dry_run b entry im = skipped settings_resource "site" "" none im
  import_settings_entry mode dry_run b entry im =
      (apply_write dry_run settings_resource "site" "" act_update
        (written (b.update_settings (settings_to_store entry))) im).0

  unfoldable pub import_settings :
      Options → (b : Backend S) → Option SettingsEntry → Importer S → Importer S
  unfolding import_settings_entry
  import_settings opts b none im = im
  import_settings opts b (some entry) im = import_settings_entry opts.mode opts.dry_run b entry im

  module _ {T : Type 0} where
    -- The owner is that of the name, for the message of a conflict.
    unfoldable pub act_on_group :
        Bool → GroupImportSpec S T → String → Act → T → Importer S → Importer S × Bool
    unfolding apply_write
    act_on_group dry_run spec owner act_skip item im =
        (skipped spec.resource (spec.id item) (spec.name item) none im, false)
    act_on_group dry_run spec owner act_skip_conflict item im =
        (skipped spec.resource (spec.id item) (spec.name item) (some (used_by owner)) im, false)
    act_on_group dry_run spec owner act_conflict item im =
        (failed spec.resource (spec.id item) (spec.name item) (used_by owner) im, false)
    act_on_group dry_run spec owner act item im =
        apply_write dry_run spec.resource (spec.id item) (spec.name item) act (spec.write act item)
          im

    unfoldable pub decide_group :
        Options → GroupImportSpec S T → Option String → T → Importer S → Importer S × Bool
    unfolding act_on_group
    decide_group opts spec none item im =
        act_on_group opts.dry_run spec ""
          (decide opts.mode (names (spec.id item) (item_ids spec.existing)) false) item im
    decide_group opts spec (some owner) item im =
        act_on_group opts.dry_run spec owner
          (decide opts.mode (names (spec.id item) (item_ids spec.existing))
            (not (owner == spec.id item)))
          item im

    -- By the message of the check, then by that of the validation.
    unfoldable pub validated_group :
        Options → GroupImportSpec S T → Option Message → T → Importer S → Importer S × Bool
    unfolding decide_group
    validated_group opts spec (some message) item im =
        (failed spec.resource (spec.id item) (spec.name item) message im, false)
    validated_group opts spec none item im =
        decide_group opts spec (name_owner (spec.name item) spec.existing) item im

    unfoldable pub checked_group :
        Options → GroupImportSpec S T → Option Message → T → Importer S → Importer S × Bool
    unfolding validated_group
    checked_group opts spec (some message) item im =
        (failed spec.resource (spec.id item) (spec.name item) message im, false)
    checked_group opts spec none item im = validated_group opts spec (spec.validate item) item im

    -- The loop over the items; the result has the ids that are available after it.
    unfoldable pub import_items :
        Options
        → GroupImportSpec S T
        → List T
        → SeenSet
        → List String
        → Importer S
        → Importer S × List String
    unfolding checked_group check
    import_items opts spec [] seen available im = (im, available)
    import_items opts spec (item ∷ items) seen available im =
        let (seen_now, message) = check (spec.id item) (spec.name item) true seen in
        let (after, imported) = checked_group opts spec message item im in
        import_items opts spec items seen_now
          (if imported then spec.id item ∷ available else available) after

    unfoldable pub import_groups :
        Options → GroupImportSpec S T → List T → Importer S → Importer S × List String
    unfolding import_items
    import_groups opts spec items im =
        import_items opts spec items new_seen_set (item_ids spec.existing) im

  module _ (b : Backend S) where
    unfoldable pub write_notify_group : Act → NotifyGroupEntry → Write S
    unfolding update_or_create
    write_notify_group act g =
        update_or_create act (written (b.update_notify_group g.id (notify_group_to_store g)))
          (written (b.create_notify_group (notify_group_to_store g)))

    unfoldable pub write_monitor_group : Act → MonitorGroupEntry → Write S
    unfolding update_or_create
    write_monitor_group act g =
        update_or_create act (written (b.update_monitor_group g.id (monitor_group_to_store g)))
          (written (b.create_monitor_group (monitor_group_to_store g)))

    abbrev pub notify_group_spec : List NamedItem → GroupImportSpec S NotifyGroupEntry
    notify_group_spec existing = record {
      resource = notify_group_resource;
      existing = existing;
      id = λ g. g.id;
      name = λ g. g.name;
      validate = λ g. none;
      write = write_notify_group;
    }

    abbrev pub monitor_group_spec :
        List String → List NamedItem → GroupImportSpec S MonitorGroupEntry
    monitor_group_spec notify existing = record {
      resource = monitor_group_resource;
      existing = existing;
      id = λ g. g.id;
      name = λ g. g.name;
      validate = λ g. missing_refs "notify group" g.alert_policy.notify_group_ids notify;
      write = write_monitor_group;
    }
