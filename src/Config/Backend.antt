-- ===== src/Config/Backend.antt =====
-- internal/configio/backend.go: what import and export use of the store, and the listing of every page.
use neo_line.Prelude.{ℕ, zero, suc, String, List, [], ◌∷◌, ◌++◌, Result, ok, err, Error}
use neo_line.Monitoring.Types.{Server, Monitor, NotifyGroup, MonitorGroup}
use neo_line.Monitoring.Pages.{Page}
use neo_line.Config.Settings.{Settings}

-- The calls on a state `S` of the store. A list takes a limit and a page token; that of the servers is
-- asked for with no environment and no tags.
pub record Backend (S : Type 0) : Type 0 where
  pub get_settings : S → Result Settings
  pub update_settings : Settings → S → S × Result Settings
  pub list_notify_groups : ℕ → List ℕ → S → Result (Page NotifyGroup)
  pub create_notify_group : NotifyGroup → S → S × Result NotifyGroup
  pub update_notify_group : String → NotifyGroup → S → S × Result NotifyGroup
  pub list_monitor_groups : ℕ → List ℕ → S → Result (Page MonitorGroup)
  pub create_monitor_group : MonitorGroup → S → S × Result MonitorGroup
  pub update_monitor_group : String → MonitorGroup → S → S × Result MonitorGroup
  pub list_servers : ℕ → List ℕ → S → Result (Page Server)
  pub create_server : Server → S → S × Result Server
  pub update_server : String → Server → S → S × Result Server
  pub list_monitors : String → ℕ → List ℕ → S → Result (Page Monitor)
  pub create_monitor : String → Monitor → S → S × Result Monitor
  pub update_monitor : String → String → Monitor → S → S × Result Monitor

-- How a run ends: with a value, with an error of the store, with the error of invalid input, or not
-- within its fuel.
pub data Ending (A : Type 0) : Type 0 where
  returned : A → Ending A
  raised : Error → Ending A
  invalid_input : Ending A
  unfinished : Ending A

module _ {A : Type 0} where
  unfoldable pub next_listing :
      (List ℕ → List A → Ending (List A)) → List A → List ℕ → Ending (List A)
  next_listing rest out [] = returned out
  next_listing rest out (c ∷ token) = rest (c ∷ token) out

  unfoldable pub listing :
      (List ℕ → List A → Ending (List A)) → List A → Result (Page A) → Ending (List A)
  unfolding next_listing
  listing rest out (err e) = raised e
  listing rest out (ok page) = next_listing rest (out ++ page.items) page.next_page_token

  -- The loop from one page on, with what it has; the fuel is the number of pages.
  unfoldable pub list_from : (ℕ → List ℕ → Result (Page A)) → ℕ → List ℕ → List A → Ending (List A)
  unfolding listing
  list_from fetch zero token out = unfinished
  list_from fetch (suc fuel) token out =
      listing (λ t o. list_from fetch fuel t o) out (fetch 200 token)

  unfoldable pub list_all : (ℕ → List ℕ → Result (Page A)) → ℕ → Ending (List A)
  unfolding list_from
  list_all fetch fuel = list_from fetch fuel [] []
