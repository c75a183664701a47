-- ===== src/Config/Merge.antt =====
-- What an import leaves of the store: nothing is written in a dry run, and the mode `merge` only adds.
use neo_line.Prelude.{
  any, duplicate_key, driver, if◌then◌else◌, ℕ, ◌≡◌, refl, ap, sym, ◌∙◌, subst, Bool, true, false,
  String, List, [], ◌∷◌, ◌++◌, Result, ok, err,
}
use mathlib.Core.List.{append_assoc, append-nil}
use neo_line.Mongo.{Collection}
use neo_line.Mongo.Documents.{Outcome, rejected, unacknowledged, perform}
use neo_line.Monitoring.Types.{Server, Monitor, MonitorGroup, NotifyGroup}
use neo_line.Inventory.State.{Inventory, InventoryDatabase, Action, ◌then◌, continue}
use neo_line.Inventory.Servers.{create_server, create_monitor}
use neo_line.Inventory.Groups.{create_monitor_group, create_notify_group}
use neo_line.Config.Files.{Json}
use neo_line.Config.Backend.{Backend}
use neo_line.Config.Report.{Options, merge}
use neo_line.Config.Servers.{import_document}
use neo_line.Config.Site.{Site, Driver, site_backend}
use neo_line.Config.Keeps.{is_merge}
use neo_line.Config.Kept.{import_document-Keeps}

-- The documents of a collection with others behind them.
abbrev Extended : {A : Type 0} → List A → List A → Type 0
Extended {A} xs ys = (more : List A) × (ys ≡ xs ++ more)

Extended-refl : {A : Type 0} (xs : List A) → Extended xs xs
Extended-refl xs = ([], simp append-nil)

Extended-insert_one :
    {A : Type 0} (c : Collection A) (d : A) (xs ys : List A)
    → Extended xs ys
    → Extended xs (c.insert_one d ys).0
Extended-insert_one {A} c d xs ys (more, e) =
    let (o, h) = c.insert_one_lem d ys in
    subst (λ w. Extended xs w.0) (sym h) (by_clash o (any (c.clash d) ys))
  where
    behind : Extended xs (ys ++ d ∷ [])
    behind = (more ++ d ∷ [], ap (λ zs. zs ++ d ∷ []) e ∙ append_assoc xs more (d ∷ []))

    by_outcome : (o : Outcome) → Extended xs (perform o ys (ys ++ d ∷ []) (ok (tt {0}))).0
    by_outcome Outcome.done = behind
    by_outcome (rejected x) = (more, e)
    by_outcome (unacknowledged x) = behind

    by_clash :
        (o : Outcome) (clashes : Bool)
        → let w : List A × Result (Unit {0}) =
            if clashes
            then (ys, err (driver duplicate_key))
            else perform o ys (ys ++ d ∷ []) (ok tt) in
          Extended xs w.0
    by_clash o true = (more, e)
    by_clash o false = by_outcome o

-- Nothing but servers, monitors, monitor groups and notify groups is added.
abbrev pub Grown : Inventory → Inventory → Type 0
Grown s t =
    ((t.results ≡ s.results)
      × (t.events ≡ s.events)
      × (t.tokens ≡ s.tokens)
      × (t.certificates ≡ s.certificates))
    × Extended s.servers t.servers
    × Extended s.monitors t.monitors
    × Extended s.groups t.groups
    × Extended s.notify_groups t.notify_groups

Stays : {A : Type 0} → (Inventory → Type 0) → Action A → Type 0
Stays P m = (s : Inventory) → P s → P (m s).0

then-Stays :
    {A B : Type 0} (P : Inventory → Type 0) (m : Action A) (f : A → Action B)
    → Stays P m
    → ((a : A) → Stays P (f a))
    → Stays P (m then f)
unfolding Stays ◌then◌ continue
then-Stays {A} {B} P m f h k s p = continued (m s).0 (m s).1 (h s p)
  where
    continued : (t : Inventory) (r : Result A) → P t → P (continue f t r).0
    continued t (ok a) q = k a t q
    continued t (err e) q = q

stays :
    {A : Type 0} (P : Inventory → Type 0) (m : Action A)
    → ((s : Inventory) → P s → P (m s).0)
    → Stays P m
unfolding Stays
stays P m h = h

module _ (db : InventoryDatabase) (s : Inventory) where
  open db use {servers_coll, monitors_coll, groups_coll, notify_groups_coll}

  create_server-Grown :
      (now : ℕ) (fresh : String) (d : Server) → Stays (Grown s) (create_server db now fresh d)
  unfolding create_server
  create_server-Grown now fresh d =
      then-Stays _ _ _
        (stays _ _ λ t (u, a, b, c, e).
          (u, Extended-insert_one servers_coll _ s.servers t.servers a, b, c, e))
        (λ _. stays _ _ λ t p. p)

  create_monitor-Grown :
      (now : ℕ) (fresh server_id : String) (m : Monitor)
      → Stays (Grown s) (create_monitor db now fresh server_id m)
  unfolding create_monitor
  create_monitor-Grown now fresh server_id m =
      then-Stays _ _ _ (then-Stays _ _ _ (stays _ _ λ t p. p) (λ _. stays _ _ λ t p. p)) (λ _.
        then-Stays _ _ _
          (stays _ _ λ t (u, a, b, c, e).
            (u, a, Extended-insert_one monitors_coll _ s.monitors t.monitors b, c, e))
          (λ _. stays _ _ λ t p. p))

  create_monitor_group-Grown :
      (now : ℕ) (fresh : String) (g : MonitorGroup)
      → Stays (Grown s) (create_monitor_group db now fresh g)
  unfolding create_monitor_group
  create_monitor_group-Grown now fresh g = then-Stays _ _ _ (stays _ _ λ t p. p) (λ _.
      then-Stays _ _ _
        (stays _ _
          λ t (u, a, b, c, e). (u, a, b, Extended-insert_one groups_coll _ s.groups t.groups c, e))
        (λ _. stays _ _ λ t p. p))

  create_notify_group-Grown :
      (now : ℕ) (fresh : String) (g : NotifyGroup)
      → Stays (Grown s) (create_notify_group db now fresh g)
  unfolding create_notify_group
  create_notify_group-Grown now fresh g =
      then-Stays _ _ _
        (stays _ _ λ t (u, a, b, c, e).
          (u, a, b, c, Extended-insert_one notify_groups_coll _ s.notify_groups t.notify_groups e))
        (λ _. stays _ _ λ t p. p)

-- A dry run writes nothing, whatever the document is and however the run ends.
pub import_document-dry :
    {S : Type 0} (opts : Options) (b : Backend S) (fuel : S → ℕ) (json : Json) (bytes : json.Bytes)
    (s : S)
    → opts.dry_run ≡ true
    → (import_document opts b fuel json bytes s).0 ≡ s
import_document-dry opts b fuel json bytes s dry =
    let absurd : opts.dry_run ≡ false → ⊥ = λ h. cc (h, dry) in
    import_document-Keeps (λ t. t ≡ s) opts b
      record {
        updates_settings = λ h. elim (absurd h) [ ];
        creates_notify_group = λ h. elim (absurd h) [ ];
        updates_notify_group = λ h. elim (absurd h) [ ];
        creates_monitor_group = λ h. elim (absurd h) [ ];
        updates_monitor_group = λ h. elim (absurd h) [ ];
        creates_server = λ h. elim (absurd h) [ ];
        updates_server = λ h. elim (absurd h) [ ];
        creates_monitor = λ h. elim (absurd h) [ ];
        updates_monitor = λ h. elim (absurd h) [ ];
      }
      fuel json bytes s refl

-- However an import in the mode `merge` ends, it leaves the settings and every document of the store as
-- they were, and has at most added servers, monitors, monitor groups and notify groups.
pub import_document-Grown :
    (opts : Options) (d : Driver) (fuel : Site → ℕ) (json : Json) (bytes : json.Bytes) (s : Site)
    → opts.mode ≡ merge
    → let t = (import_document opts (site_backend d) fuel json bytes s).0 in
      (t.settings ≡ s.settings) × Grown s.inventory t.inventory
unfolding site_backend Stays
import_document-Grown opts d fuel json bytes s m =
    let absurd : is_merge opts.mode ≡ false → ⊥ = λ h. cc (h, ap is_merge m) in
    import_document-Keeps (λ (t : Site). (t.settings ≡ s.settings) × Grown s.inventory t.inventory)
      opts (site_backend d)
      record {
        updates_settings = λ _ h. elim (absurd h) [ ];
        creates_notify_group = λ _ g t (e, h).
            (e, create_notify_group-Grown d.collections s.inventory _ _ g t.inventory h);
        updates_notify_group = λ _ h. elim (absurd h) [ ];
        creates_monitor_group = λ _ g t (e, h).
            (e, create_monitor_group-Grown d.collections s.inventory _ _ g t.inventory h);
        updates_monitor_group = λ _ h. elim (absurd h) [ ];
        creates_server =
            λ _ g t (e, h). (e, create_server-Grown d.collections s.inventory _ _ g t.inventory h);
        updates_server = λ _ h. elim (absurd h) [ ];
        creates_monitor = λ _ server_id g t (e, h).
            (e, create_monitor-Grown d.collections s.inventory _ _ server_id g t.inventory h);
        updates_monitor = λ _ h. elim (absurd h) [ ];
      }
      fuel json bytes s
      (
        refl,
        (
          (refl, refl, refl, refl),
          Extended-refl _,
          Extended-refl _,
          Extended-refl _,
          Extended-refl _,
        ),
      )
