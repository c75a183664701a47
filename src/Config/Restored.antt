-- ===== src/Config/Restored.antt =====
-- What is read back from the bytes of an export: internal/configio/export.go and file.go together.
use neo_line.Prelude.{
  ℕ, ◌≤◌, ◌≡◌, refl, ap, ◌∙◌, arith, true, String, some, List, [], ◌∷◌, map, Result, ok, err, ltb,
  false, subst,
}
use mathlib.Core.Option
use neo_line.Inventory.State.{InventoryDatabase}
use neo_line.Inventory.Servers.{updated_server, updated_monitor}
use neo_line.Monitoring.Types.{Server, Monitor, NotifyGroup, MonitorGroup}
use neo_line.Monitoring.Status.{
  apply_common_defaults, apply_tls_defaults, apply_url_defaults, apply_monitor_defaults,
}
use neo_line.Config.Settings.{Settings}
use neo_line.Config.Types.{MonitorEntry, ServerEntry, File}
use neo_line.Config.Backend.{Backend, Ending, returned, raised, invalid_input, unfinished, list_all}
use neo_line.Config.Files.{
  Json, decode, decode_head, decode_strict, max_import_bytes, file_version, settings_from_store,
  settings_to_store, notify_group_from_store, notify_group_to_store, policy_from_store,
  policy_to_store, monitor_group_from_store, monitor_group_to_store, monitor_from_store,
  monitor_to_store, server_from_store, server_to_store,
}
use neo_line.Config.Export.{
  on_return, export_server, export_servers, read_settings, export_file, export_document,
}
use neo_line.Config.RoundTrip.{updated_server-exported, channels-same, value_or-none}

-- The two lists have related elements at the same places.
abbrev pub Pairs : {A B : Type 0} → (A → B → Type 0) → List A → List B → Type 0
Pairs R [] [] = Unit
Pairs R [] (y ∷ ys) = ⊥
Pairs R (x ∷ xs) [] = ⊥
Pairs R (x ∷ xs) (y ∷ ys) = R x y × Pairs R xs ys

map-Pairs :
    {A B : Type 0} (R : A → B → Type 0) (f : A → B)
    → ((x : A) → R x (f x))
    → (xs : List A) → Pairs R xs (map f xs)
map-Pairs R f h [] = tt
map-Pairs R f h (x ∷ xs) = (h x, map-Pairs R f h xs)

module _ {S : Type 0} (db : InventoryDatabase) (later : ℕ) (b : Backend S) (fuel : ℕ) (s : S) where
  -- The update of the stored monitor by its entry changes the time of the update, and fills in what the
  -- defaults fill in.
  abbrev pub RestoresMonitor : String → Monitor → MonitorEntry → Type 0
  RestoresMonitor server_id m entry =
      updated_monitor db server_id m.id (monitor_to_store server_id entry) m later
      ≡ record (apply_monitor_defaults m) { server_id = server_id; updated_at = later }

  -- The update of the stored server by its entry changes the time of the update alone, and every monitor of
  -- the server has its entry.
  abbrev pub RestoresServer : Server → ServerEntry → Type 0
  RestoresServer srv entry =
      (updated_server db srv.id (server_to_store entry) srv later
        ≡ record srv { updated_at = later })
      × (monitors : List Monitor) × (list_all (λ limit token. b.list_monitors srv.id limit token s)
            fuel
          ≡ returned monitors)
      × Pairs (RestoresMonitor srv.id) monitors entry.monitors

  -- The document has every stored setting, group, server and monitor.
  pub record Restores (f : File) : Type 0 where
    pub settings : Settings
    pub settings_read : b.get_settings s ≡ ok settings
    pub settings_back :
        Option.map settings_to_store f.settings ≡ some (record settings { updated_at = 0 })
    pub notify_groups : List NotifyGroup
    pub notify_groups_read :
        list_all (λ limit token. b.list_notify_groups limit token s) fuel ≡ returned notify_groups
    pub notify_groups_back :
        Pairs
          (λ n e. notify_group_to_store e ≡ record n { created_at = 0; updated_at = 0 })
          notify_groups
          f.notify_groups
    pub monitor_groups : List MonitorGroup
    pub monitor_groups_read :
        list_all (λ limit token. b.list_monitor_groups limit token s) fuel ≡ returned monitor_groups
    pub monitor_groups_back :
        Pairs
          (λ g e. monitor_group_to_store e ≡ record g { created_at = 0; updated_at = 0 })
          monitor_groups
          f.monitor_groups
    pub servers : List Server
    pub servers_read :
        list_all (λ limit token. b.list_servers limit token s) fuel ≡ returned servers
    pub servers_back : Pairs RestoresServer servers f.servers

tls_defaults-placed :
    (m : Monitor) (id : String) (now : ℕ)
    → apply_tls_defaults (record m { server_id = id; updated_at = now })
      ≡ record (apply_tls_defaults m) { server_id = id; updated_at = now }
unfolding apply_tls_defaults
tls_defaults-placed m id now = ground arith

defaults-placed :
    (m : Monitor) (id : String) (now : ℕ)
    → apply_monitor_defaults (record m { server_id = id; updated_at = now })
      ≡ record (apply_monitor_defaults m) { server_id = id; updated_at = now }
unfolding apply_monitor_defaults
defaults-placed m id now = tls_defaults-placed (apply_url_defaults (apply_common_defaults m)) id now

on_return-returned :
    {A B : Type 0} (e : Ending A) (k : A → Ending B) (y : B)
    → on_return e k ≡ returned y
    → (x : A) × (e ≡ returned x) × (k x ≡ returned y)
unfolding on_return
on_return-returned (returned x) k y h = (x, refl, h)
on_return-returned (raised e) k y h = cc
on_return-returned invalid_input k y h = cc
on_return-returned unfinished k y h = cc

returned-same : {A : Type 0} (x y : A) → returned x ≡ returned y → x ≡ y
returned-same x y h = ground arith

read_settings-returned :
    {S : Type 0} (b : Backend S) (r : Result Settings) (x : Settings)
    → read_settings b r ≡ returned x
    → r ≡ ok x
unfolding read_settings
read_settings-returned b (ok y) x h = ap (λ z. ok z) (returned-same y x h)
read_settings-returned b (err e) x h = cc

notify_group-back :
    (n : NotifyGroup)
    → notify_group_to_store (notify_group_from_store n)
      ≡ record n { created_at = 0; updated_at = 0 }
unfolding notify_group_to_store notify_group_from_store
notify_group-back n i = record n {
  channels = channels-same n.channels i;
  created_at = 0;
  updated_at = 0;
}

monitor_group-back :
    (g : MonitorGroup)
    → monitor_group_to_store (monitor_group_from_store g)
      ≡ record g { created_at = 0; updated_at = 0 }
unfolding monitor_group_to_store monitor_group_from_store policy_to_store policy_from_store
monitor_group-back g = refl

settings-back :
    (x : Settings) → settings_to_store (settings_from_store x) ≡ record x { updated_at = 0 }
unfolding settings_to_store settings_from_store
settings-back x = refl

server_monitors :
    (srv : Server) (ms : List Monitor)
    → (server_from_store srv ms).monitors ≡ map monitor_from_store ms
unfolding server_from_store
server_monitors srv ms = refl

module _ {S : Type 0} (db : InventoryDatabase) (later : ℕ) (b : Backend S) (fuel : ℕ) (s : S) where
  monitor-back :
      (server_id : String) (m : Monitor)
      → RestoresMonitor db later b fuel s server_id m (monitor_from_store m)
  unfolding updated_monitor monitor_to_store monitor_from_store
  monitor-back server_id m =
      (λ i.
        apply_monitor_defaults (record m {
          status = value_or-none m.status i;
          server_id = server_id;
          updated_at = later;
        }))
      ∙ defaults-placed m server_id later

  server-back :
      (srv : Server) (entry : ServerEntry)
      → export_server b fuel s srv ≡ returned entry
      → RestoresServer db later b fuel s srv entry
  unfolding export_server
  server-back srv entry h =
      let (ms, e, k) = on_return-returned _ _ entry h in
      let same = returned-same _ entry k in
      rw (← same) (
        updated_server-exported db srv ms later,
        ms,
        e,
        rw (server_monitors srv ms) (
            map-Pairs (RestoresMonitor db later b fuel s srv.id) monitor_from_store
              (monitor-back srv.id) ms),
      )

  servers-back :
      (servers : List Server) (entries : List ServerEntry)
      → export_servers b fuel s servers ≡ returned entries
      → Pairs (RestoresServer db later b fuel s) servers entries
  unfolding export_servers
  servers-back [] entries h = rw (← returned-same [] entries h) tt
  servers-back (srv ∷ servers) entries h =
      let (entry, e, k) = on_return-returned _ _ entries h in
      let (rest, e', k') = on_return-returned _ _ entries k in
      let same = returned-same (entry ∷ rest) entries k' in
      subst (Pairs (RestoresServer db later b fuel s) (srv ∷ servers)) same
        (server-back srv entry e, servers-back servers rest e')

  file-back :
      (now : ℕ) (f : File)
      → export_file b fuel now s ≡ returned f
      → (f.version ≡ file_version) × Restores db later b fuel s f
  unfolding export_file
  file-back now f h =
      let (settings, e₁, k₁) = on_return-returned _ _ f h in
      let (ns, e₂, k₂) = on_return-returned _ _ f k₁ in
      let (gs, e₃, k₃) = on_return-returned _ _ f k₂ in
      let (servers, e₄, k₄) = on_return-returned _ _ f k₃ in
      let (entries, e₅, k₅) = on_return-returned _ _ f k₄ in
      subst (λ g. (g.version ≡ file_version) × Restores db later b fuel s g) (returned-same _ f k₅)
        (
          refl,
          record {
            settings = settings;
            settings_read = read_settings-returned b _ settings e₁;
            settings_back = ap some (settings-back settings);
            notify_groups = ns;
            notify_groups_read = e₂;
            notify_groups_back = map-Pairs _ notify_group_from_store notify_group-back ns;
            monitor_groups = gs;
            monitor_groups_read = e₃;
            monitor_groups_back = map-Pairs _ monitor_group_from_store monitor_group-back gs;
            servers = servers;
            servers_read = e₄;
            servers_back = servers-back servers entries e₅;
          },
        )

-- What encoding/json reads from the bytes of the document.
abbrev pub ReadsBack : (json : Json) → json.Bytes → File → Type 0
ReadsBack json bytes f =
    (json.head_version bytes ≡ some f.version)
    × (json.strict bytes ≡ some f)
    × (json.at_end bytes ≡ true)

decode-read :
    (json : Json) (bytes : json.Bytes) (f : File)
    → json.size bytes ≤ max_import_bytes
    → f.version ≡ file_version
    → ReadsBack json bytes f
    → decode json bytes ≡ some f
unfolding decode decode_head decode_strict
decode-read json bytes f fits version (head, strict, last) =
    let small : ltb max_import_bytes (json.size bytes) ≡ false = ground arith in
    rw (small, head, strict, last, version) refl

-- Where an export returns bytes, no longer than an import reads, from which encoding/json reads back the
-- document that it wrote: the import decodes them to a document that has every stored setting, notify group,
-- monitor group, server and monitor, in the order of the store. Converted back they are what is stored but
-- for the times; the update of a server by its entry changes the time of the update alone, and that of a
-- monitor fills in the defaults besides.
pub export_document-restored :
    {S : Type 0} (db : InventoryDatabase) (b : Backend S) (json : Json) (fuel now later : ℕ) (s : S)
    (bytes : json.Bytes)
    → export_document b json fuel now s ≡ returned bytes
    → json.size bytes ≤ max_import_bytes
    → ((f : File) → json.marshal f ≡ bytes → ReadsBack json bytes f)
    → (f : File) × (decode json bytes ≡ some f) × Restores db later b fuel s f
unfolding export_document
export_document-restored db b json fuel now later s bytes h fits reads =
    let (f, e, k) = on_return-returned _ _ bytes h in
    let (version, back) = file-back db later b fuel s now f e in
    (f, decode-read json bytes f fits version (reads f (returned-same _ bytes k)), back)
