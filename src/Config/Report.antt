-- ===== src/Config/Report.antt =====
-- The report of internal/configio/import.go, and the decisions that it records. A message is its format
-- with the arguments.
use neo_line.Prelude.{
  ℕ, ◌+◌, ◌%◌, ◌^◌, Bool, true, false, ◌&&◌, String, Option, none, some, List, [], ◌∷◌, ◌++◌,
  if◌then◌else◌, is_blank, Error, no_documents, name_taken, invalid_group_ids,
  invalid_notify_group_ids,
}
use neo_line.Inventory.State.{names}
use neo_line.Config.Backend.{Ending, returned, raised, invalid_input, unfinished}

pub data Mode : Type 0 where
  merge upsert other_mode : Mode

pub record Options : Type 0 where
  pub mode : Mode
  pub dry_run : Bool

pub record Counts : Type 0 where
  pub created : ℕ
  pub updated : ℕ
  pub skipped : ℕ
  pub failed : ℕ

pub record Summary : Type 0 where
  pub settings : Counts
  pub notify_groups : Counts
  pub monitor_groups : Counts
  pub servers : Counts
  pub monitors : Counts

-- The constants `ResourceSettings` to `ResourceMonitor`.
pub data ResourceType : Type 0 where
  settings_resource notify_group_resource monitor_group_resource : ResourceType
  server_resource monitor_resource : ResourceType

pub data Message : Type 0 where
  text : String → Message
  missing_reference : String → String → Message
  used_by : String → Message
  unsupported_kind : String → Message
  store_error : Error → Message

pub record Issue : Type 0 where
  pub resource_type : ResourceType
  pub id : String
  pub name : String
  pub message : Message

pub record Report : Type 0 where
  pub dry_run : Bool
  pub summary : Summary
  pub errors : List Issue

abbrev pub no_counts : Counts
no_counts = record { created = 0; updated = 0; skipped = 0; failed = 0 }

abbrev pub empty_report : Bool → Report
empty_report dry_run = record {
  dry_run = dry_run;
  summary = record {
    settings = no_counts;
    notify_groups = no_counts;
    monitor_groups = no_counts;
    servers = no_counts;
    monitors = no_counts;
  };
  errors = [];
}

abbrev pub is_valid_kind : String → Bool
is_valid_kind kind =
    names kind ("" ∷ "tcp" ∷ "url" ∷ "http" ∷ "https" ∷ "tls_port" ∷ "tls" ∷ "tls_certificate" ∷ [])

pub data Act : Type 0 where
  act_create act_update act_skip act_skip_conflict act_conflict : Act

unfoldable pub decide : Mode → Bool → Bool → Act
decide merge true conflict = act_skip
decide merge false true = act_skip_conflict
decide merge false false = act_create
decide _ exists true = act_conflict
decide _ true false = act_update
decide _ false false = act_create

pub record SeenSet : Type 0 where
  pub ids : List String
  pub names : List String

abbrev pub new_seen_set : SeenSet
new_seen_set = record { ids = []; names = [] }

-- The new set, and the message of a refusal.
unfoldable pub check : String → String → Bool → SeenSet → SeenSet × Option Message
check id name unique_name seen =
    if is_blank id
    then (seen, some (text "id is required"))
    else if is_blank name
    then (seen, some (text "name is required"))
    else if names id seen.ids
    then (seen, some (text "duplicate id in file"))
    else if unique_name && names name seen.names
    then (seen, some (text "duplicate name in file"))
    else (
      record { ids = id ∷ seen.ids; names = if unique_name then name ∷ seen.names else seen.names },
      none,
    )

unfoldable pub missing_refs : String → List String → List String → Option Message
missing_refs kind [] available = none
missing_refs kind (id ∷ ids) available =
    let rest = missing_refs kind ids available in
    if names id available then rest else some (missing_reference kind id)

unfoldable pub write_message : Error → Message
write_message name_taken = store_error name_taken
write_message invalid_group_ids = store_error invalid_group_ids
write_message invalid_notify_group_ids = store_error invalid_notify_group_ids
write_message no_documents = text "parent resource not found"
write_message e = text "write failed"

-- A counter is a uint32.
abbrev pub increment : ℕ → ℕ
increment n = (n + 1) % 2 ^ 32

abbrev pub count_failed : Counts → Counts
count_failed c = record c { failed = increment c.failed }

abbrev pub count_skipped : Counts → Counts
count_skipped c = record c { skipped = increment c.skipped }

unfoldable pub count_done : Act → Counts → Counts
count_done act_update c = record c { updated = increment c.updated }
count_done _ c = record c { created = increment c.created }

-- The counts that the source reaches by a pointer into the summary.
unfoldable pub adjust : ResourceType → (Counts → Counts) → Summary → Summary
adjust settings_resource f s = record s { settings = f s.settings }
adjust notify_group_resource f s = record s { notify_groups = f s.notify_groups }
adjust monitor_group_resource f s = record s { monitor_groups = f s.monitor_groups }
adjust server_resource f s = record s { servers = f s.servers }
adjust monitor_resource f s = record s { monitors = f s.monitors }

-- The importer, with the state of the store.
pub record Importer (S : Type 0) : Type 0 where
  pub state : S
  pub report : Report

-- The methods of the importer that may stop with an error; what was done before is kept.
abbrev pub Importing : Type 0 → Type 0 → Type 0
Importing S A = Importer S → Importer S × Ending A

unfoldable pub resume :
    {S A B : Type 0} → (A → Importing S B) → Importer S → Ending A → Importer S × Ending B
resume f im (returned a) = f a im
resume f im (raised e) = (im, raised e)
resume f im invalid_input = (im, invalid_input)
resume f im unfinished = (im, unfinished)

infixl 5 ◌>>=◌
unfoldable pub ◌>>=◌ : {S A B : Type 0} → Importing S A → (A → Importing S B) → Importing S B
unfolding resume
m >>= f = λ im. resume f (m im).0 (m im).1

module _ {S : Type 0} where
  unfoldable pub return : {A : Type 0} → A → Importing S A
  return a im = (im, returned a)

  unfoldable pub reading : {A : Type 0} → (S → Ending A) → Importing S A
  reading q im = (im, q im.state)

  unfoldable pub acting : {A : Type 0} → (Importer S → Importer S × A) → Importing S A
  acting m im = ((m im).0, returned (m im).1)

  unfoldable pub update : (Importer S → Importer S) → Importing S (Unit {0})
  update f im = (f im, returned tt)

  unfoldable pub failed : ResourceType → String → String → Message → Importer S → Importer S
  unfolding adjust
  failed r id name message im = record im {
    report = record im.report {
      summary = adjust r count_failed im.report.summary;
      errors =
          im.report.errors
          ++ record { resource_type = r; id = id; name = name; message = message } ∷ [];
    };
  }

  unfoldable pub skipped : ResourceType → String → String → Option Message → Importer S → Importer S
  unfolding adjust
  skipped r id name none im = record im {
    report = record im.report { summary = adjust r count_skipped im.report.summary };
  }
  skipped r id name (some message) im = record im {
    report = record im.report {
      summary = adjust r count_skipped im.report.summary;
      errors =
          im.report.errors
          ++ record { resource_type = r; id = id; name = name; message = message } ∷ [];
    };
  }

  unfoldable pub done : ResourceType → Act → Importer S → Importer S
  unfolding adjust count_done
  done r act im = record im {
    report = record im.report { summary = adjust r (count_done act) im.report.summary };
  }
