-- ===== src/Config/RoundTrip.antt =====
-- What an export writes of a server and of a channel, read back.
use neo_line.Inventory.State.{InventoryDatabase}
use neo_line.Prelude.{ℕ, ◌≡◌, refl, ap, String, Option, none, some, List, [], ◌∷◌, map}
use neo_line.Monitoring.Types.{ServerSsh, Server, Monitor, AlertChannel}
use neo_line.Monitoring.Status.{value_or}
use neo_line.Inventory.Servers.{updated_server}
use neo_line.Config.Files.{
  channel_from_store, channel_to_store, ssh_from_store, ssh_to_store, server_from_store,
  server_to_store,
}

ssh-same : (h : Option ServerSsh) → ssh_to_store (ssh_from_store h) ≡ h
unfolding ssh_to_store ssh_from_store
ssh-same none = refl
ssh-same (some h) = refl

pub channels-same : (cs : List AlertChannel) → map channel_to_store (map channel_from_store cs) ≡ cs
unfolding channel_to_store channel_from_store
channels-same [] = refl
channels-same (c ∷ cs) = ap (λ ds. c ∷ ds) (channels-same cs)

pub value_or-none : (v : String) → value_or "" v ≡ v
unfolding value_or
value_or-none v = refl

module _ (db : InventoryDatabase) where
  pub updated_server-exported :
      (s : Server) (monitors : List Monitor) (now : ℕ)
      → updated_server db s.id (server_to_store (server_from_store s monitors)) s now
        ≡ record s { updated_at = now }
  unfolding updated_server server_to_store server_from_store
  updated_server-exported s monitors now i = record s {
    health_status = value_or-none s.health_status i;
    ssh = ssh-same s.ssh i;
    updated_at = now;
  }
