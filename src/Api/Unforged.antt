-- ===== src/Api/Unforged.antt =====
-- A client's update of a server or of a monitor, through the message and the store.
use neo_line.Prelude.{
  List, Bool, arith, ℕ, zero, suc, ◌≡◌, refl, ap, sym, subst, ◌∙◌, String, ◌==◌, Option, none, some,
  if◌then◌else◌, Result, ok, err, first,
}
use neo_line.Certificates.Inversion.{answer-ok, or_none-ok, perform-ok}
use neo_line.Mongo.{Collection}
use neo_line.Mongo.Documents.{update_first, matched, perform}
use neo_line.Monitoring.Types.{Server, Monitor}
use neo_line.Monitoring.Status.{
  apply_monitor_defaults, apply_tls_defaults, apply_url_defaults, apply_common_defaults, value_or,
}
use neo_line.Inventory.State.{
  Inventory, InventoryDatabase, Action, ◌then◌, continue, matched_or_missing,
}
use neo_line.Inventory.Servers.{
  is_server, is_monitor, get_server, get_monitor, update_server, updated_server, update_monitor,
  updated_monitor,
}
use neo_line.Api.Convert.{ServerMessage, MonitorMessage, server_from_proto, monitor_from_proto}

continue-ok :
    {A B : Type 0} (f : A → Action B) (r : Result A) (s t : Inventory) (b : B)
    → continue f s r ≡ (t, ok b)
    → (a : A) × (r ≡ ok a) × (f a s ≡ (t, ok b))
unfolding continue
continue-ok f (ok a) s t b h = (a, refl, h)
continue-ok {A} {B} f (err e) s t b h = cc (ap (λ (w : Inventory × Result B). w.1) h)

-- Both parts of an action that returned a value.
then-ok :
    {A B : Type 0} (m : Action A) (f : A → Action B) (s t : Inventory) (b : B)
    → (m then f) s ≡ (t, ok b)
    → (a : A) × ((m s).1 ≡ ok a) × (f a (m s).0 ≡ (t, ok b))
unfolding ◌then◌
then-ok m f s t b h = continue-ok f (m s).1 (m s).0 t b h

matched_or_missing-ok :
    {A : Type 0} (n : ℕ) (a b : A) (s t : Inventory)
    → matched_or_missing n a s ≡ (t, ok b)
    → (b ≡ a) × (t ≡ s)
matched_or_missing-ok {A} zero a b s t h = cc (ap (λ (w : Inventory × Result A). w.1) h)
matched_or_missing-ok {A} (suc n) a b s t h =
    let same = ap (λ (w : Inventory × Result A). w.1) h in
    (ground arith, sym (ap (λ (w : Inventory × Result A). w.0) h))

-- What an update of one document that returned a count leaves.
updated_one :
    {A : Type 0} (c : Collection A) (p : A → Bool) (f : A → A) (xs : List A) (n : ℕ)
    → (c.update_one p f xs).1 ≡ ok n
    → (c.update_one p f xs).0 ≡ update_first p f xs
updated_one {A} c p f xs n h =
    let (o, l) = c.update_one_lem p f xs in
    ap (λ (w : List A × Result ℕ). w.0) l
    ∙ (perform-ok o xs _ _ _ n (λ i. (
      (perform o xs (update_first p f xs) (ok (matched p xs))).0,
      (sym (ap (λ (w : List A × Result ℕ). w.1) l) ∙ h) i,
    ))).0

-- What the service keeps of a server.
abbrev pub SameServer : Server → Server → Type 0
SameServer before after =
    (after.health_status ≡ before.health_status)
    × (after.last_status_change_at ≡ before.last_status_change_at)
    × (after.last_check_at ≡ before.last_check_at)
    × (after.created_at ≡ before.created_at)

-- What the probes keep of a monitor.
abbrev pub SameMonitor : Monitor → Monitor → Type 0
SameMonitor before after =
    (after.status ≡ (if before.status == "" then "Unknown" else before.status))
    × (after.last_check_at ≡ before.last_check_at)
    × (after.last_status_change_at ≡ before.last_status_change_at)
    × (after.certificate ≡ before.certificate)
    × (after.created_at ≡ before.created_at)

kept_health :
    (p : Option ServerMessage) (existing : Server)
    → value_or (server_from_proto p).health_status existing.health_status ≡ existing.health_status
unfolding value_or server_from_proto
kept_health none existing = refl
kept_health (some p) existing = refl

apply_tls_defaults-Same :
    (m : Monitor)
    → ((apply_tls_defaults m).status ≡ m.status)
      × ((apply_tls_defaults m).last_check_at ≡ m.last_check_at)
      × ((apply_tls_defaults m).last_status_change_at ≡ m.last_status_change_at)
      × ((apply_tls_defaults m).certificate ≡ m.certificate)
      × ((apply_tls_defaults m).created_at ≡ m.created_at)
unfolding apply_tls_defaults
apply_tls_defaults-Same m = ground arith

apply_monitor_defaults-Same :
    (m : Monitor)
    → ((apply_monitor_defaults m).status ≡ (if m.status == "" then "Unknown" else m.status))
      × ((apply_monitor_defaults m).last_check_at ≡ m.last_check_at)
      × ((apply_monitor_defaults m).last_status_change_at ≡ m.last_status_change_at)
      × ((apply_monitor_defaults m).certificate ≡ m.certificate)
      × ((apply_monitor_defaults m).created_at ≡ m.created_at)
unfolding apply_monitor_defaults apply_url_defaults apply_common_defaults
apply_monitor_defaults-Same m =
    apply_tls_defaults-Same (apply_url_defaults (apply_common_defaults m))

updated_monitor-Same :
    (db : InventoryDatabase) (server_id monitor_id : String) (p : Option MonitorMessage)
    (existing : Monitor) (now : ℕ)
    → SameMonitor existing
        (updated_monitor db server_id monitor_id (monitor_from_proto p) existing now)
unfolding updated_monitor monitor_from_proto value_or
updated_monitor-Same db server_id monitor_id none existing now = apply_monitor_defaults-Same _
updated_monitor-Same db server_id monitor_id (some p) existing now = apply_monitor_defaults-Same _

updated_server-Same :
    (db : InventoryDatabase) (id : String) (p : Option ServerMessage) (existing : Server) (now : ℕ)
    → SameServer existing (updated_server db id (server_from_proto p) existing now)
unfolding updated_server
updated_server-Same db id p existing now = (kept_health p existing, refl, refl, refl)

module _ (db : InventoryDatabase) where
  open db use {servers_coll, monitors_coll}

  got_server :
      (id : String) (s t : Inventory) (x : Server)
      → (get_server db id s).1 ≡ ok x
      → first (is_server id) s.servers ≡ some x
  unfolding get_server
  got_server id s t x h =
      let (o, l) = servers_coll.find_one_lem (is_server id) s.servers in
      or_none-ok _ x (answer-ok o _ x (sym l ∙ h))

  got_monitor :
      (server_id monitor_id : String) (s t : Inventory) (x : Monitor)
      → (get_monitor db server_id monitor_id s).1 ≡ ok x
      → first (is_monitor server_id monitor_id) s.monitors ≡ some x
  unfolding get_monitor
  got_monitor server_id monitor_id s t x h =
      let (o, l) = monitors_coll.find_one_lem (is_monitor server_id monitor_id) s.monitors in
      or_none-ok _ x (answer-ok o _ x (sym l ∙ h))

  -- Whatever message a client sends to update a monitor, a successful update keeps the status, the times of
  -- the last check and of the last change, the observed certificate and the time of creation of the stored
  -- monitor, a status that was never set becoming Unknown; and what it returns is the document that the
  -- database holds in the place of the old one.
  pub update_monitor-unforged :
      (now : ℕ) (server_id monitor_id : String) (p : Option MonitorMessage) (s t : Inventory)
      (saved : Monitor)
      → update_monitor db now server_id monitor_id (monitor_from_proto p) s ≡ (t, ok saved)
      → (existing : Monitor) × (first (is_monitor server_id monitor_id) s.monitors ≡ some existing)
        × SameMonitor existing saved
        × (t.monitors ≡ update_first (is_monitor server_id monitor_id) (λ _. saved) s.monitors)
  unfolding update_monitor
  update_monitor-unforged now server_id monitor_id p s t saved h =
      let (existing, h₁, k₁) = then-ok _ _ s t saved h in
      let (_, h₂, k₂) = then-ok _ _ _ t saved k₁ in
      let (n, h₃, k₃) = then-ok _ _ _ t saved k₂ in
      let (same, kept) = matched_or_missing-ok n _ saved _ t k₃ in
      let doc = updated_monitor db server_id monitor_id (monitor_from_proto p) existing now in
      let stored =
        updated_one monitors_coll (is_monitor server_id monitor_id) (λ _. doc) s.monitors n h₃ in
      (
        existing,
        got_monitor server_id monitor_id s t existing h₁,
        subst (SameMonitor existing) (sym same)
            (updated_monitor-Same db server_id monitor_id p existing now),
        rw same (ap (λ (w : Inventory). w.monitors) kept ∙ stored),
      )

  -- Whatever message a client sends to update a server, a successful update keeps the health, the times of
  -- the last change and of the last check, and the time of creation of the stored server; and what it
  -- returns is the document that the database holds in the place of the old one.
  pub update_server-unforged :
      (now : ℕ) (id : String) (p : Option ServerMessage) (s t : Inventory) (saved : Server)
      → update_server db now id (server_from_proto p) s ≡ (t, ok saved)
      → (existing : Server) × (first (is_server id) s.servers ≡ some existing)
        × SameServer existing saved
        × (t.servers ≡ update_first (is_server id) (λ _. saved) s.servers)
  unfolding update_server
  update_server-unforged now id p s t saved h =
      let (existing, h₁, k₁) = then-ok _ _ s t saved h in
      let (n, h₂, k₂) = then-ok _ _ _ t saved k₁ in
      let (same, kept) = matched_or_missing-ok n _ saved _ t k₂ in
      let doc = updated_server db id (server_from_proto p) existing now in
      let stored = updated_one servers_coll (is_server id) (λ _. doc) s.servers n h₂ in
      (
        existing,
        got_server id s t existing h₁,
        subst (SameServer existing) (sym same) (updated_server-Same db id p existing now),
        rw same (ap (λ (w : Inventory). w.servers) kept ∙ stored),
      )
