-- ===== src/Config/Settings.antt =====
-- The settings of the site: internal/store/settings.go. The collection holds at most one document.
use neo_line.Prelude.{ℕ, String, ◌==◌, if◌then◌else◌, Result, ok, err, no_documents}

pub record Settings : Type 0 where
  pub site_name : String
  pub status_page_title : String
  pub updated_at : ℕ

abbrev pub default_site_name : String
default_site_name = "neo-line"

abbrev pub default_status_page_title : String
default_status_page_title = "服务状态"

unfoldable pub settings_with_defaults : Settings → Settings
settings_with_defaults s = record s {
  site_name = if s.site_name == "" then default_site_name else s.site_name;
  status_page_title =
      if s.status_page_title == "" then default_status_page_title else s.status_page_title;
}

-- By what the query for the document answers.
unfoldable pub get_settings : Result Settings → Result Settings
unfolding settings_with_defaults
get_settings (ok s) = ok (settings_with_defaults s)
get_settings (err no_documents) = ok record {
  site_name = default_site_name;
  status_page_title = default_status_page_title;
  updated_at = 0;
}
get_settings (err e) = err e

-- By the upsert of the document.
unfoldable pub update_settings :
    {S : Type 0} → (Settings → S → S × Result (Unit {0})) → ℕ → Settings → S → S × Result Settings
unfolding settings_with_defaults
update_settings upsert now settings s =
    let doc = record (settings_with_defaults settings) { updated_at = now } in
    let (t, r) = upsert doc s in (t, elim r [ ok _ ↦ ok doc | err e ↦ err e ])
