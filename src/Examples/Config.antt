-- ===== src/Examples/Config.antt =====
-- Imports of one document into a site in memory.
use neo_line.Config.Entries.{entries}
use neo_line.Inventory.Servers.{on_server}
use neo_line.Config.Tally.{handled}
use neo_line.Prelude.{
  sym, ap, select, ℕ, ◌<◌, ◌^◌, ◌≡◌, refl, true, false, some, none, [], ◌∷◌, ok, take, drop, arith,
}
use neo_line.Config.Types.{File}
use neo_line.Config.Files.{Json, decode}
use neo_line.Config.Backend.{Ending, Backend, list_all, returned}
use neo_line.Config.Report.{
  settings_resource, notify_group_resource, monitor_group_resource, server_resource,
  monitor_resource, Options, merge, upsert, Report, ResourceType,
}
use neo_line.Config.Servers.{import_document}
use neo_line.Config.Site.{Site, Driver, site_backend}
use neo_line.Config.Keeps.{Allows}
use neo_line.Config.Counted.{Readable, import_document-handled}
use neo_line.Config.Merge.{import_document-dry, import_document-Grown, Grown}
use neo_line.Config.Restored.{Restores, ReadsBack, export_document-restored}
use neo_line.Config.Export.{
  export_document, export_file, export_servers, export_server, read_settings, on_return,
}
use neo_line.Config.Settings.{get_settings}
use neo_line.Examples.Inventory.{all_in_memory, inventory}

abbrev as_written : Json
as_written = record {
  Bytes = File;
  size = λ f. 100;
  head_version = λ f. some f.version;
  strict = λ f. some f;
  at_end = λ f. true;
  marshal = λ f. f;
}

abbrev document : File
document = record {
  version = 1;
  exported_at = 7;
  settings = some record { site_name = "site"; status_page_title = "" };
  notify_groups = record { id = "ng_1"; name = "ops"; description = ""; channels = [] } ∷ [];
  monitor_groups = [];
  servers =
      record {
        id = "srv_1";
        name = "edge";
        host = "h";
        environment = "";
        region = "";
        tags = [];
        sort_order = 0;
        enabled = true;
        ssh = none;
        monitors = [];
      }
      ∷ [];
}

abbrev driver : Driver
driver = record {
  collections = all_in_memory;
  query_notify_groups = λ s skip n. ok (take n (drop skip inventory.notify_groups));
  query_monitor_groups = λ s skip n. ok (take n (drop skip inventory.groups));
  query_servers = λ s skip n. ok (take n (drop skip inventory.servers));
  query_monitors = λ id s skip n. ok (take n (drop skip inventory.monitors));
  find_settings = λ s. ok record { site_name = ""; status_page_title = ""; updated_at = 0 };
  upsert_settings = λ d s. (some d, ok tt);
  clock = λ n. n;
  fresh_id = λ n. "fresh";
}

abbrev site : Site
site = record { inventory = inventory; settings = none; writes = 0 }

abbrev three_pages : Site → ℕ
three_pages _ = 3

-- The site, with lists that give what is stored at the time on one page.
abbrev one_page : Backend Site
one_page = record (site_backend driver) {
  list_notify_groups =
      λ limit token s. ok record { items = s.inventory.notify_groups; next_page_token = [] };
  list_monitor_groups =
      λ limit token s. ok record { items = s.inventory.groups; next_page_token = [] };
  list_servers = λ limit token s. ok record { items = s.inventory.servers; next_page_token = [] };
  list_monitors = λ server_id limit token s.
      ok record { items = select (on_server server_id) s.inventory.monitors; next_page_token = [] };
}

abbrev dry : Options
dry = record { mode = upsert; dry_run = true }

abbrev writing : Options
writing = record { mode = upsert; dry_run = false }

abbrev adding : Options
adding = record { mode = merge; dry_run = false }

import_document-dry_example :
    (import_document dry (site_backend driver) three_pages as_written document site).0 ≡ site
import_document-dry_example =
    import_document-dry dry (site_backend driver) three_pages as_written document site refl

abbrev added : Site
added = (import_document adding (site_backend driver) three_pages as_written document site).0

import_document-Grown_example : (added.settings ≡ none) × Grown inventory added.inventory
import_document-Grown_example =
    import_document-Grown adding driver three_pages as_written document site refl

anything : Allows (λ (s : Site). Unit {0}) writing one_page
anything = record {
  updates_settings = λ _ _ _ _ _. tt;
  creates_notify_group = λ _ _ _ _. tt;
  updates_notify_group = λ _ _ _ _ _ _. tt;
  creates_monitor_group = λ _ _ _ _. tt;
  updates_monitor_group = λ _ _ _ _ _ _. tt;
  creates_server = λ _ _ _ _. tt;
  updates_server = λ _ _ _ _ _ _. tt;
  creates_monitor = λ _ _ _ _ _. tt;
  updates_monitor = λ _ _ _ _ _ _ _. tt;
}

readable : Readable (λ (s : Site). Unit {0}) one_page (λ _. 1)
unfolding list_all
readable = record {
  reads_notify_groups = λ s p. (s.inventory.notify_groups, refl);
  reads_monitor_groups = λ s p. (s.inventory.groups, refl);
  reads_servers = λ s p. (s.inventory.servers, refl);
  reads_monitors = λ id s p. (select (on_server id) s.inventory.monitors, refl);
}

small : (q : ResourceType) → entries q document < 2 ^ 32
unfolding entries
small settings_resource = omega arith
small notify_group_resource = omega arith
small monitor_group_resource = omega arith
small server_resource = omega arith
small monitor_resource = omega arith

document_decoded : decode as_written document ≡ some document
unfolding decode
document_decoded = refl

import_document-handled_example :
    (t : Site) × (report : Report) × (import_document writing one_page
        (λ _. 1)
        as_written
        document
        site
      ≡ (t, returned report))
    × ((q : ResourceType) → handled q report.summary ≡ entries q document)
import_document-handled_example =
    import_document-handled writing one_page document (λ s. Unit {0}) anything (λ _. 1) readable
      as_written document site (λ e. absurd (cc e)) document_decoded tt small

abbrev file_of : Ending File → File
file_of (returned f) = f
file_of _ = document

abbrev exported : File
unfolding export_document export_file export_servers export_server read_settings on_return list_all
    get_settings site_backend
exported = file_of (export_document one_page as_written 1 7 site)

export_run : export_document one_page as_written 1 7 site ≡ returned exported
unfolding export_document export_file export_servers export_server read_settings on_return list_all
    get_settings site_backend
export_run = refl

read_back : (f : File) → f ≡ exported → ReadsBack as_written exported f
read_back f same = (ap (λ (g : File). some g.version) (sym same), ap some (sym same), refl)

export_document-restored_example :
    (f : File) × (decode as_written exported ≡ some f) × Restores all_in_memory 9 one_page 1 site f
export_document-restored_example =
    export_document-restored all_in_memory one_page as_written 1 7 9 site exported export_run
      (omega arith) read_back
