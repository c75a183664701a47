-- ===== src/Config/Export.antt =====
-- internal/configio/export.go.
use neo_line.Prelude.{ℕ, some, List, [], ◌∷◌, map, Result, ok, err}
use neo_line.Monitoring.Types.{Server}
use neo_line.Config.Settings.{Settings}
use neo_line.Config.Types.{ServerEntry, File}
use neo_line.Config.Files.{
  Json, file_version, settings_from_store, notify_group_from_store, monitor_group_from_store,
  server_from_store,
}
use neo_line.Config.Backend.{Backend, Ending, returned, raised, invalid_input, unfinished, list_all}

-- What follows a run that ended with a value.
unfoldable pub on_return : {A B : Type 0} → Ending A → (A → Ending B) → Ending B
on_return (returned a) k = k a
on_return (raised e) k = raised e
on_return invalid_input k = invalid_input
on_return unfinished k = unfinished

module _ {S : Type 0} (b : Backend S) where
  unfoldable pub export_server : ℕ → S → Server → Ending ServerEntry
  unfolding on_return
  export_server fuel s srv =
      on_return (list_all (λ limit token. b.list_monitors srv.id limit token s) fuel)
        λ monitors. returned (server_from_store srv monitors)

  unfoldable pub export_servers : ℕ → S → List Server → Ending (List ServerEntry)
  unfolding export_server
  export_servers fuel s [] = returned []
  export_servers fuel s (srv ∷ servers) =
      on_return (export_server fuel s srv)
        λ entry. on_return (export_servers fuel s servers) λ entries. returned (entry ∷ entries)

  unfoldable pub read_settings : Result Settings → Ending Settings
  read_settings (ok settings) = returned settings
  read_settings (err e) = raised e

  unfoldable pub export_file : ℕ → ℕ → S → Ending File
  unfolding export_servers read_settings
  export_file fuel now s = on_return (read_settings (b.get_settings s)) λ settings.
      on_return (list_all (λ limit token. b.list_notify_groups limit token s) fuel) λ notify.
        on_return (list_all (λ limit token. b.list_monitor_groups limit token s) fuel) λ groups.
          on_return (list_all (λ limit token. b.list_servers limit token s) fuel) λ servers.
            on_return (export_servers fuel s servers) λ entries. returned record {
              version = file_version;
              exported_at = now;
              settings = some (settings_from_store settings);
              notify_groups = map notify_group_from_store notify;
              monitor_groups = map monitor_group_from_store groups;
              servers = entries;
            }

  unfoldable pub export_document : (json : Json) → ℕ → ℕ → S → Ending json.Bytes
  unfolding export_file
  export_document json fuel now s =
      on_return (export_file fuel now s) λ f. returned (json.marshal f)
