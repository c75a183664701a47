-- ===== src/Monitoring/Saved.antt =====
-- What the health of a server is, read from the documents.
use neo_line.Prelude.{
  subst, ℕ, ◌<◌, ◌^◌, ◌≡◌, refl, String, List, select, length, nat_beq, if◌then◌else◌, Result, ok,
  err, ap, sym, ◌∙◌, arith,
}
use neo_line.Monitoring.Types.{Server, Monitor, ServerHealth}
use neo_line.Monitoring.Status.{unknown, text}
use neo_line.Monitoring.Health.{statuses, worst, aggregate_health-worst}
use neo_line.Monitoring.Store.{
  MonitoringDatabase, MonitoringStore, is_server, counts_for, record_health, aggregated,
  get_server_health,
}
use neo_line.Certificates.Inversion.{answer-ok}

-- The status that the enabled monitors of a server call for.
abbrev pub due_status : String → List Monitor → String
due_status server_id ms =
    let counted = select (counts_for server_id) ms in
    text (if nat_beq (length counted) 0 then unknown else worst (statuses counted))

module _ (db : MonitoringDatabase) (now : ℕ) (fresh server_id : String) where
  open db use {servers, monitors}

  record_health-status :
      (server : Server) (health h : ServerHealth) (s t : MonitoringStore)
      → record_health db now fresh server_id server health s ≡ (t, ok h)
      → (h.status ≡ health.status) × (t.monitor_documents ≡ s.monitor_documents)
  unfolding record_health
  record_health-status server health h s t e = ground arith

  aggregated-status :
      (server : Server) (ms : List Monitor)
      → length ms < 2 ^ 32
      → (aggregated db server server_id ms).status
        ≡ text (if nat_beq (length ms) 0 then unknown else worst (statuses ms))
  unfolding aggregated
  aggregated-status server ms fits =
      ap text
        (aggregate_health-worst server_id server.last_status_change_at server.last_check_at ms
          fits).0

  -- The health that is returned is that of the worst enabled monitor of the server, or Unknown where it
  -- has none, as long as their number fits in 32 bits; the monitors are left as they are.
  pub get_server_health_lem :
      (s t : MonitoringStore) (h : ServerHealth)
      → length (select (counts_for server_id) s.monitor_documents) < 2 ^ 32
      → get_server_health db now fresh server_id s ≡ (t, ok h)
      → (h.status ≡ due_status server_id s.monitor_documents)
        × (t.monitor_documents ≡ s.monitor_documents)
  unfolding get_server_health
  get_server_health_lem s t h fits e =
      at_server (servers.find_one (is_server server_id) s.server_documents) e
    where
      at_monitors :
          (server : Server) (r : Result (List Monitor))
          → monitors.find (counts_for server_id) s.monitor_documents ≡ r
          → (elim r as (λ _. MonitoringStore × Result ServerHealth) [
            | err e ↦ (s, err e)
            | ok ms ↦
                record_health db now fresh server_id server (aggregated db server server_id ms) s
          ])
            ≡ (t, ok h)
          → (h.status ≡ due_status server_id s.monitor_documents)
            × (t.monitor_documents ≡ s.monitor_documents)
      at_monitors server (err e) f k =
          cc (ap (λ (r : MonitoringStore × Result ServerHealth). r.1) k)
      at_monitors server (ok ms) f k =
          let (o, l) = monitors.find_lem (counts_for server_id) s.monitor_documents in
          let found =
            answer-ok o (ok (select (counts_for server_id) s.monitor_documents)) ms (sym l ∙ f) in
          let (status, kept) =
            record_health-status server (aggregated db server server_id ms) h s t k in
          let same : select (counts_for server_id) s.monitor_documents ≡ ms =
            ground (arith, found) in
          let few = subst (λ xs. length xs < 2 ^ 32) same fits in
          (
            status
                ∙ aggregated-status server ms few
                ∙ ap
                    (λ (xs : List Monitor).
                      text (if nat_beq (length xs) 0 then unknown else worst (statuses xs)))
                    (sym same),
            kept,
          )

      at_server :
          (r : Result Server)
          → (elim r as (λ _. MonitoringStore × Result ServerHealth) [
            | err e ↦ (s, err e)
            | ok server ↦
                elim (monitors.find (counts_for server_id) s.monitor_documents)
                  as (λ _. MonitoringStore × Result ServerHealth) [
                    | err e ↦ (s, err e)
                    | ok ms ↦
                        record_health db now fresh server_id server
                          (aggregated db server server_id ms)
                          s
                  ]
          ])
            ≡ (t, ok h)
          → (h.status ≡ due_status server_id s.monitor_documents)
            × (t.monitor_documents ≡ s.monitor_documents)
      at_server (err e) k = cc (ap (λ (r : MonitoringStore × Result ServerHealth). r.1) k)
      at_server (ok server) k =
          at_monitors server (monitors.find (counts_for server_id) s.monitor_documents) refl k
