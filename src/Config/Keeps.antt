-- ===== src/Config/Keeps.antt =====
-- What an import keeps of the store, by the writes that it may make: none in a dry run, and no update in
-- the mode `merge`.
use neo_line.Prelude.{
  ◌≡◌, refl, Bool, true, false, String, Option, none, some, List, [], ◌∷◌, Result, ok, err,
  if◌then◌else◌,
}
use neo_line.Monitoring.Types.{Server, Monitor, NotifyGroup, MonitorGroup}
use neo_line.Config.Settings.{Settings}
use neo_line.Config.Types.{SettingsEntry}
use neo_line.Config.Backend.{Backend, Ending, returned, raised, invalid_input, unfinished}
use neo_line.Config.Report.{
  Mode, merge, upsert, other_mode, Options, ResourceType, Message, Act, act_create, act_update,
  act_skip, act_skip_conflict, act_conflict, decide, SeenSet, check, write_message, Importer,
  Importing, resume, return, reading, acting, update, ◌>>=◌, failed, skipped, done,
}
use neo_line.Config.Import.{
  update_or_create, Write, GroupImportSpec, after_write, apply_write, import_settings_entry,
  import_settings, act_on_group, decide_group, validated_group, checked_group, import_items,
}

abbrev pub is_merge : Mode → Bool
is_merge merge = true
is_merge _ = false

-- An update is written in another mode than `merge` alone.
abbrev pub Updates : Mode → Act → Type 0
Updates mode act_update = is_merge mode ≡ false
Updates mode _ = Unit

pub decide-Updates :
    (mode : Mode) (exists conflict : Bool) → Updates mode (decide mode exists conflict)
unfolding decide
decide-Updates merge true conflict = tt
decide-Updates merge false true = tt
decide-Updates merge false false = tt
decide-Updates upsert true true = tt
decide-Updates upsert false true = tt
decide-Updates upsert true false = refl
decide-Updates upsert false false = tt
decide-Updates other_mode true true = tt
decide-Updates other_mode false true = tt
decide-Updates other_mode true false = refl
decide-Updates other_mode false false = tt

-- The writes that an import may make, each of which keeps `P`.
pub record Allows {S : Type 0} (P : S → Type 0) (opts : Options) (b : Backend S) : Type 0 where
  pub updates_settings :
      opts.dry_run ≡ false
      → is_merge opts.mode ≡ false
      → (d : Settings) (s : S) → P s
      → P (b.update_settings d s).0
  pub creates_notify_group :
      opts.dry_run ≡ false → (g : NotifyGroup) (s : S) → P s → P (b.create_notify_group g s).0
  pub updates_notify_group :
      opts.dry_run ≡ false
      → is_merge opts.mode ≡ false
      → (id : String) (g : NotifyGroup) (s : S) → P s
      → P (b.update_notify_group id g s).0
  pub creates_monitor_group :
      opts.dry_run ≡ false → (g : MonitorGroup) (s : S) → P s → P (b.create_monitor_group g s).0
  pub updates_monitor_group :
      opts.dry_run ≡ false
      → is_merge opts.mode ≡ false
      → (id : String) (g : MonitorGroup) (s : S) → P s
      → P (b.update_monitor_group id g s).0
  pub creates_server : opts.dry_run ≡ false → (d : Server) (s : S) → P s → P (b.create_server d s).0
  pub updates_server :
      opts.dry_run ≡ false
      → is_merge opts.mode ≡ false
      → (id : String) (d : Server) (s : S) → P s
      → P (b.update_server id d s).0
  pub creates_monitor :
      opts.dry_run ≡ false
      → (server_id : String) (m : Monitor) (s : S) → P s
      → P (b.create_monitor server_id m s).0
  pub updates_monitor :
      opts.dry_run ≡ false
      → is_merge opts.mode ≡ false
      → (server_id id : String) (m : Monitor) (s : S) → P s
      → P (b.update_monitor server_id id m s).0

module _ {S : Type 0} (P : S → Type 0) where
  -- A step of an importer keeps `P` of the store.
  pub record Keeps (f : Importer S → Importer S) : Type 0 where
    pub at : (im : Importer S) → P im.state → P (f im).state

  -- The same of a method, however it ends.
  pub record Maintains {A : Type 0} (m : Importing S A) : Type 0 where
    pub at : (im : Importer S) → P im.state → P (m im).0.state

  pub failed-Keeps :
      (r : ResourceType) (id name : String) (w : Message) → Keeps (failed r id name w)
  unfolding failed
  failed-Keeps r id name w = record { at = λ im h. h }

  pub skipped-Keeps :
      (r : ResourceType) (id name : String) (w : Option Message) → Keeps (skipped r id name w)
  unfolding skipped
  skipped-Keeps r id name none = record { at = λ im h. h }
  skipped-Keeps r id name (some w) = record { at = λ im h. h }

  done-Keeps : (r : ResourceType) (act : Act) → Keeps (done r act)
  unfolding done
  done-Keeps r act = record { at = λ im h. h }

  pub then-Keeps : (f g : Importer S → Importer S) → Keeps f → Keeps g → Keeps (λ im. g (f im))
  then-Keeps f g h k = record { at = λ im p. k.at (f im) (h.at im p) }

  pub then-Maintains :
      {A B : Type 0} (k : Importing S A) (f : A → Importing S B)
      → Maintains k
      → ((a : A) → Maintains (f a))
      → Maintains (k >>= f)
  unfolding ◌>>=◌
  then-Maintains {A} {B} k f h j = record { at = λ im p. resumed (k im).0 (k im).1 (h.at im p) }
    where
      resumed : (t : Importer S) (r : Ending A) → P t.state → P (resume f t r).0.state
      resumed t (returned a) p = (j a).at t p
      resumed t (raised e) p = p
      resumed t invalid_input p = p
      resumed t unfinished p = p

  pub update-Maintains : (f : Importer S → Importer S) → Keeps f → Maintains (update f)
  unfolding update
  update-Maintains f h = record { at = h.at }

  pub acting-Maintains :
      {A : Type 0} (m : Importer S → Importer S × A) → Keeps (λ im. (m im).0) → Maintains (acting m)
  unfolding acting
  acting-Maintains m h = record { at = h.at }

  pub return-Maintains : {A : Type 0} (a : A) → Maintains (return a)
  unfolding return
  return-Maintains a = record { at = λ im p. p }

  pub reading-Maintains : {A : Type 0} (r : S → Ending A) → Maintains (reading r)
  unfolding reading
  reading-Maintains r = record { at = λ im p. p }

  after_write-Keeps :
      (r : ResourceType) (id name : String) (act : Act) (w : Result (Unit {0}))
      → Keeps (λ im. (after_write r id name act w im).0)
  unfolding after_write
  after_write-Keeps r id name act (ok u) = done-Keeps r act
  after_write-Keeps r id name act (err e) = failed-Keeps r id name (write_message e)

  pub apply_write-Keeps :
      (dry_run : Bool) (r : ResourceType) (id name : String) (act : Act) (w : Write S)
      → (dry_run ≡ false → (s : S) → P s → P (w s).0)
      → Keeps (λ im. (apply_write dry_run r id name act w im).0)
  unfolding apply_write
  apply_write-Keeps true r id name act w h = done-Keeps r act
  apply_write-Keeps false r id name act w h = record {
    at = λ im p.
        let (t, result) = w im.state in
        (after_write-Keeps r id name act result).at (record im { state = t }) (h refl im.state p);
  }

  pub update_or_create-Keeps :
      (mode : Mode) (act : Act) (u c : Write S) (s : S)
      → (is_merge mode ≡ false → P (u s).0)
      → P (c s).0
      → Updates mode act
      → P (update_or_create act u c s).0
  unfolding update_or_create
  update_or_create-Keeps mode act_update u c s hu hc a = hu a
  update_or_create-Keeps mode act_create u c s hu hc a = hc
  update_or_create-Keeps mode act_skip u c s hu hc a = hc
  update_or_create-Keeps mode act_skip_conflict u c s hu hc a = hc
  update_or_create-Keeps mode act_conflict u c s hu hc a = hc

  module _ (opts : Options) (b : Backend S) (w : Allows P opts b) where
    pub import_settings-Keeps :
        (entry : Option SettingsEntry) → Keeps (import_settings opts b entry)
    unfolding import_settings
    import_settings-Keeps none = record { at = λ im p. p }
    import_settings-Keeps (some entry) = by_mode opts.mode (w.updates_settings)
      where
        by_mode :
            (mode : Mode)
            → (opts.dry_run ≡ false
                → is_merge mode ≡ false
                → (d : Settings) (s : S) → P s
                → P (b.update_settings d s).0)
            → Keeps (import_settings_entry mode opts.dry_run b entry)
        by_mode merge h = skipped-Keeps _ "site" "" none
        by_mode upsert h =
            apply_write-Keeps opts.dry_run _ "site" "" act_update _ (λ dry s p. h dry refl _ s p)
        by_mode other_mode h =
            apply_write-Keeps opts.dry_run _ "site" "" act_update _ (λ dry s p. h dry refl _ s p)

    module _ {T : Type 0} (spec : GroupImportSpec S T)
        (keeps : opts.dry_run ≡ false
          → (act : Act) (item : T) (s : S) → Updates opts.mode act
          → P s
          → P (spec.write act item s).0) where
      act_on_group-Keeps :
          (owner : String) (act : Act) (item : T)
          → Updates opts.mode act
          → Keeps (λ im. (act_on_group opts.dry_run spec owner act item im).0)
      unfolding act_on_group
      act_on_group-Keeps owner act_skip item u = skipped-Keeps spec.resource _ _ none
      act_on_group-Keeps owner act_skip_conflict item u = skipped-Keeps spec.resource _ _ (some _)
      act_on_group-Keeps owner act_conflict item u = failed-Keeps spec.resource _ _ _
      act_on_group-Keeps owner act_create item u =
          apply_write-Keeps opts.dry_run spec.resource _ _ act_create _
            (λ dry s p. keeps dry act_create item s u p)
      act_on_group-Keeps owner act_update item u =
          apply_write-Keeps opts.dry_run spec.resource _ _ act_update _
            (λ dry s p. keeps dry act_update item s u p)

      decide_group-Keeps :
          (owner : Option String) (item : T)
          → Keeps (λ im. (decide_group opts spec owner item im).0)
      unfolding decide_group
      decide_group-Keeps none item = act_on_group-Keeps "" _ item (decide-Updates opts.mode _ false)
      decide_group-Keeps (some owner) item =
          act_on_group-Keeps owner _ item (decide-Updates opts.mode _ _)

      validated_group-Keeps :
          (m : Option Message) (item : T) → Keeps (λ im. (validated_group opts spec m item im).0)
      unfolding validated_group
      validated_group-Keeps (some m) item = failed-Keeps spec.resource _ _ m
      validated_group-Keeps none item = decide_group-Keeps _ item

      checked_group-Keeps :
          (m : Option Message) (item : T) → Keeps (λ im. (checked_group opts spec m item im).0)
      unfolding checked_group
      checked_group-Keeps (some m) item = failed-Keeps spec.resource _ _ m
      checked_group-Keeps none item = validated_group-Keeps _ item

      pub import_items-Keeps :
          (items : List T) (seen : SeenSet) (available : List String)
          → Keeps (λ im. (import_items opts spec items seen available im).0)
      unfolding import_items
      import_items-Keeps [] seen available = record { at = λ im p. p }
      import_items-Keeps (item ∷ items) seen available = record {
        at = λ im p.
            let (seen_now, m) = check (spec.id item) (spec.name item) true seen in
            let (after, imported) = checked_group opts spec m item im in
            (import_items-Keeps items seen_now
                (if imported then spec.id item ∷ available else available)).at
              after ((checked_group-Keeps m item).at im p);
      }
