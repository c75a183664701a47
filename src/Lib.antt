-- ===== src/Lib.antt =====
-- neo-line watches servers and keeps their TLS certificates: a scheduler probes monitors, an alert
-- dispatcher announces the changes of their statuses, and a manager issues, renews and revokes
-- certificates over ACME. Everything is kept in MongoDB, and several replicas of the service may run at
-- once. This library models the core of the service and proves what makes it correct.
--
-- The parts, with the files of the repository that they model:
--   Mongo         the MongoDB driver, a parameter: the record `Collection` has its calls as functions on
--                 the list of documents, and as laws what the server documents of each. A call may fail,
--                 before or after it took effect; `memory` is an instance that never fails.
--   Certificates  internal/store/certificate_operations.go, certificate_operation_lease.go and
--                 managed_certificates.go. Types has the documents, Store the two collections and the
--                 methods on them, Operations, Lease and Versions one definition for each method of
--                 `MongoStore` under its own name in snake case. Commands lists the calls by which the
--                 replicas write operations and certificates, with the deletion of a certificate
--                 (Deletion); a history is any sequence of them. Claims and Txt are about the lease and
--                 the TXT records of an attempt.
--   Manager       internal/certmanager: managed_certificate.go, renew.go and revoke.go (Submit, how an
--                 operation is submitted), issue.go and revoke.go (Execute, one attempt at it) and
--                 operation_lease.go (Runner, the poll and a run; Retry, what follows a failure); domains.go
--                 (Domains), and the rest of managed_certificate.go (Desired, creation and update). What an
--                 attempt meets outside is the record `Outside`: the issuers, the DNS provider, the X.509
--                 checks, the clock, and the ACME client as a tree of its calls of the DNS provider.
--   CertState     internal/certstate/validity.go and the renewal part of internal/certmanager/version.go.
--   Monitoring    internal/store/store.go, runtime.go and uptime.go: the documents of the monitoring,
--                 the statuses, their aggregation, the record of a result, the defaults of a monitor;
--                 Pages has the pages of every list of the store, Uptime the availability of a monitor.
--   Inventory     internal/store/store.go, groups.go and notify_groups.go: creation, update and deletion of
--                 servers, monitors, monitor groups and notify groups, with what refers to them.
--   Api           internal/connectapi/conv.go: the messages of servers, monitors and the two kinds of groups,
--                 and what a client's update leaves of the stored document.
--   Config        internal/configio, the import and the export of the configuration as one document, and
--                 internal/store/settings.go. Backend is its interface of the store, Site the store's own
--                 methods as one; Files has the conversions, Report, Import and Servers the importer,
--                 Export the exporter.
--                 The JSON decoder is a parameter.
--   Notices       internal/store/certificate_notifications.go (Records) and internal/certnotify (Dispatch):
--                 which notices of a certificate are sent, and the markers that say which were.
--   Alert         internal/alert/dispatcher.go: the policy, the throttle, the deliveries of a change.
--   Probe         internal/probe: the three kinds of probe and the loop of attempts. The network is the
--                 record `Network`, one for each attempt.
--   Scheduler     internal/scheduler/scheduler.go: which monitors a tick dispatches, and what is in flight.
--   Prelude       results and errors, Boolean tests, lists and text.
--   Examples      each theorem at a concrete input.
--
-- The manager calls the store's methods on the two collections; each method is one step or a few steps
-- of the server, and replicas meet only in the database, so an interleaving is a sequence of calls. The
-- scheduler runs the probes and hands a change of status to the alerts.
--
-- Times are counts of nanoseconds, and the database gives back a time as it was stored. As its dates
-- have milliseconds, a statement about a stored time is one about times of whole milliseconds. The
-- renewal window is an int64, with the wrap-around of its product of days. Every reading of a clock is
-- an argument, and Go's zero time is 0. The uint32 fields keep their wrap-around where the code adds
-- to them, and the int32 casts of the certificate thresholds are written out on 32 bits. The delay
-- before a retry is computed by a loop as in the source, on its counter. The digits of a page token
-- are written on fuel 20, which is enough for 64 bits, and a client that follows the tokens reaches
-- the last page within one page more than there are documents, which is also fuel enough for the loop
-- over the pages of an import or an export. A generated id is an argument; the importer's come from a
-- clock and a supply of ids, by the count of the writes.
--
-- The document of an export is read back by the import on what encoding/json does with its own output,
-- which is a hypothesis.
--
-- Not modelled: the ACME exchange, DNS providers and X.509 parsing, which are parameters; the
-- goroutines of the runner, whose heartbeat is a sequence of calls of `renew_lease`; logging and
-- metrics; the handlers of the remote interfaces, the archive and the delivery of a notification; the
-- filters of the lists; the collections of users, sessions and access tokens beyond the deletion of a
-- server. A history takes each method as one step, and a notice of a certificate with its two
-- conditional updates as one, so that a replica that stops between two writes of one method, or two
-- methods whose single writes interleave, are not in it. The float arithmetic of the days to a
-- certificate's end is that of the exact quotient.
pub mod Prelude
pub mod Mongo
pub mod Certificates
pub mod CertState
pub mod Manager
pub mod Monitoring
pub mod Inventory
pub mod Api
pub mod Config
pub mod Notices
pub mod Alert
pub mod Probe
pub mod Scheduler
pub mod Examples
