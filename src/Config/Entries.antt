-- ===== src/Config/Entries.antt =====
-- The entries of each kind in a document, and as sums over its parts.
use neo_line.Config.Tally.{weight, settings_entries}
use neo_line.Prelude.{◌*◌, ℕ, ◌+◌, ◌≡◌, Option, none, some, List, [], ◌∷◌, arith, length}
use neo_line.Config.Types.{SettingsEntry, ServerEntry, File}
use neo_line.Config.Report.{
  ResourceType, settings_resource, notify_group_resource, monitor_group_resource, server_resource,
  monitor_resource,
}

unfoldable pub monitors_of : List ServerEntry → ℕ
monitors_of [] = 0
monitors_of (srv ∷ servers) = length srv.monitors + monitors_of servers

unfoldable pub settings_of : Option SettingsEntry → ℕ
settings_of none = 0
settings_of (some entry) = 1

-- The entries of a kind in a document.
unfoldable pub entries : ResourceType → File → ℕ
unfolding monitors_of settings_of
entries settings_resource f = settings_of f.settings
entries notify_group_resource f = length f.notify_groups
entries monitor_group_resource f = length f.monitor_groups
entries server_resource f = length f.servers
entries monitor_resource f = monitors_of f.servers

abbrev pub monitor_entries : ResourceType → ServerEntry → ℕ
monitor_entries q srv = length srv.monitors * weight q monitor_resource

abbrev pub server_entries : ResourceType → List ServerEntry → ℕ
server_entries q [] = 0
server_entries q (srv ∷ servers) =
    weight q server_resource + monitor_entries q srv + server_entries q servers

abbrev pub file_entries : ResourceType → File → ℕ
file_entries q f =
    settings_entries q f.settings
    + (length f.notify_groups * weight q notify_group_resource
        + (length f.monitor_groups * weight q monitor_group_resource + server_entries q f.servers))

server_entries-monitors_of :
    (q : ResourceType) (servers : List ServerEntry)
    → server_entries q servers
      ≡ length servers * weight q server_resource + monitors_of servers * weight q monitor_resource
unfolding monitors_of
server_entries-monitors_of q [] = omega arith
server_entries-monitors_of q (srv ∷ servers) = ground (arith, server_entries-monitors_of q servers)

settings_entries-settings_of :
    (q : ResourceType) (entry : Option SettingsEntry)
    → settings_entries q entry ≡ settings_of entry * weight q settings_resource
unfolding settings_of
settings_entries-settings_of q none = omega arith
settings_entries-settings_of q (some entry) = omega arith

pub file_entries-entries : (q : ResourceType) (f : File) → file_entries q f ≡ entries q f
unfolding entries
file_entries-entries q f =
    ground
      (arith, settings_entries-settings_of q f.settings, server_entries-monitors_of q f.servers)
