-- ===== src/Config/Site.antt =====
-- The store of internal/store as the backend of an import: the methods of the inventory and the settings.
-- Each write reads the clock and draws an id of its own.
use neo_line.Prelude.{ℕ, suc, String, List, Result, Option}
use neo_line.Monitoring.Types.{Server, Monitor, NotifyGroup, MonitorGroup}
use neo_line.Monitoring.Pages.{find_page}
use neo_line.Inventory.State.{Inventory, InventoryDatabase, Action}
use neo_line.Inventory.Servers.{create_server, update_server, create_monitor, update_monitor}
use neo_line.Inventory.Groups.{
  create_monitor_group, update_monitor_group, create_notify_group, update_notify_group,
}
use neo_line.Config.Settings.{Settings, get_settings, update_settings}
use neo_line.Config.Backend.{Backend}

pub record Site : Type 0 where
  pub inventory : Inventory
  pub settings : Option Settings
  pub writes : ℕ

-- What a site meets outside: the collections, the queries of the lists by the documents to skip and to
-- return, the two calls on the document of the settings, the clock and the generated ids by the count of
-- the writes.
pub record Driver : Type 0 where
  pub collections : InventoryDatabase
  pub query_notify_groups : Inventory → ℕ → ℕ → Result (List NotifyGroup)
  pub query_monitor_groups : Inventory → ℕ → ℕ → Result (List MonitorGroup)
  pub query_servers : Inventory → ℕ → ℕ → Result (List Server)
  pub query_monitors : String → Inventory → ℕ → ℕ → Result (List Monitor)
  pub find_settings : Option Settings → Result Settings
  pub upsert_settings : Settings → Option Settings → Option Settings × Result (Unit {0})
  pub clock : ℕ → ℕ
  pub fresh_id : ℕ → String

module _ (d : Driver) where
  open d use {
    collections, query_notify_groups, query_monitor_groups, query_servers, query_monitors,
    find_settings, upsert_settings, clock, fresh_id,
  }

  abbrev pub on_inventory : {A : Type 0} → (ℕ → String → Action A) → Site → Site × Result A
  on_inventory m s =
      let (t, r) = m (clock s.writes) (fresh_id s.writes) s.inventory in
      (record s { inventory = t; writes = suc s.writes }, r)

  abbrev pub on_settings :
      {A : Type 0} → (ℕ → Option Settings → Option Settings × Result A) → Site → Site × Result A
  on_settings m s =
      let (t, r) = m (clock s.writes) s.settings in
      (record s { settings = t; writes = suc s.writes }, r)

  unfoldable pub site_backend : Backend Site
  unfolding get_settings
  site_backend = record {
    get_settings = λ s. get_settings (find_settings s.settings);
    update_settings = λ settings. on_settings (λ now. update_settings upsert_settings now settings);
    list_notify_groups = λ limit token s. find_page (query_notify_groups s.inventory) limit token;
    create_notify_group =
        λ g. on_inventory (λ now fresh. create_notify_group collections now fresh g);
    update_notify_group =
        λ id g. on_inventory (λ now fresh. update_notify_group collections now id g);
    list_monitor_groups = λ limit token s. find_page (query_monitor_groups s.inventory) limit token;
    create_monitor_group =
        λ g. on_inventory (λ now fresh. create_monitor_group collections now fresh g);
    update_monitor_group =
        λ id g. on_inventory (λ now fresh. update_monitor_group collections now id g);
    list_servers = λ limit token s. find_page (query_servers s.inventory) limit token;
    create_server = λ srv. on_inventory (λ now fresh. create_server collections now fresh srv);
    update_server = λ id srv. on_inventory (λ now fresh. update_server collections now id srv);
    list_monitors =
        λ server_id limit token s. find_page (query_monitors server_id s.inventory) limit token;
    create_monitor =
        λ server_id m. on_inventory (λ now fresh. create_monitor collections now fresh server_id m);
    update_monitor =
        λ server_id id m. on_inventory (λ now fresh. update_monitor collections now server_id id m);
  }
