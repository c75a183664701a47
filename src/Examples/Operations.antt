-- ===== src/Examples/Operations.antt =====
-- The life of an operation, run on the database in memory.
use neo_line.Prelude.{false, any, ◌≡◌, ◌≢◌, refl, true, List, [], ◌∷◌, All, ok, arith}
use neo_line.Certificates.Types.{issue}
use neo_line.Certificates.Store.{Store, execute}
use neo_line.Mongo.{memory}
use neo_line.Mongo.Documents.{update_first}
use neo_line.Certificates.Operations.{
  prepared, create_operation, get_operation, has_id, claimable, lease_held, in_flight_for,
  find_running_operation, has_running_operation,
}
use neo_line.Certificates.Lease.{
  try_claim, claims, claimed, conflicting, clear_pending_txt, record_pending_txt, txt_cleared,
}
use neo_line.Certificates.Commands.{
  deletes_certificate, Command, creates, claim, run, new_operation,
}
use neo_line.Certificates.Claims.{IsClaim, IsUnique, try_claim-IsClaim}
use neo_line.Certificates.Txt.{creates_under, try_claim_held, cleared-unrecordable}
use neo_line.Certificates.History.{IsExclusive, run-IsFormed, run-IsExclusive}
use neo_line.Certificates.Advances.{IsFormed}
use neo_line.Manager.Submit.{create_pending, join, optional, found_or_none}
use neo_line.Manager.Joined.{Joins, create_pending-Joins}
use neo_line.Examples.Data.{
  in_memory, snapshot, issuance, waiting, empty, one_waiting, first_replica, second_replica,
  early_replica, challenge,
}

abbrev history : List Command
history =
    creates issue "crt_1" snapshot "" 0 "cop_1" 100
    ∷ claim first_replica
    ∷ claim second_replica
    ∷ deletes_certificate "crt_2"
    ∷ []

empty-IsExclusive : IsExclusive empty.operations
empty-IsExclusive cert_id = omega arith

run-IsExclusive_example : IsExclusive (run in_memory history empty).operations
run-IsExclusive_example = run-IsExclusive in_memory history empty empty-IsExclusive

run-IsFormed_example : All IsFormed (run in_memory history empty).operations
run-IsFormed_example = run-IsFormed in_memory history empty tt

abbrev after_first : Store
after_first = record { operations = claimed first_replica waiting ∷ []; certificates = [] }

abbrev after_second : Store
after_second = record {
  operations = claimed second_replica (claimed first_replica waiting) ∷ [];
  certificates = [];
}

first_claim :
    try_claim in_memory first_replica one_waiting
    ≡ (after_first, ok (claimed first_replica waiting))
unfolding try_claim execute memory get_operation has_id claims claimed claimable conflicting
    lease_held prepared new_operation update_first
first_claim = refl

try_claim-IsClaim_example :
    IsClaim first_replica one_waiting after_first (claimed first_replica waiting)
try_claim-IsClaim_example =
    try_claim-IsClaim in_memory first_replica one_waiting after_first
      (claimed first_replica waiting) first_claim

first-held : All (λ x. has_id "cop_1" x ≡ true → lease_held 250 x ≡ true) after_first.operations
unfolding lease_held claimed
first-held = (λ _. refl, tt)

try_claim_held_example :
    try_claim in_memory early_replica after_first
    ≢ (after_first, ok (claimed first_replica waiting))
try_claim_held_example =
    try_claim_held in_memory early_replica after_first after_first (claimed first_replica waiting)
      first-held

abbrev after_cleanup : Store
after_cleanup = record {
  operations = txt_cleared 220 (claimed first_replica waiting) ∷ [];
  certificates = [];
}

claimed-IsUnique : IsUnique "cop_1" after_first
unfolding has_id prepared new_operation claimed
claimed-IsUnique = omega arith

claimed_there : any (has_id "cop_1") after_first.operations ≡ true
unfolding has_id prepared new_operation claimed
claimed_there = refl

cleanup : clear_pending_txt in_memory "cop_1" 220 after_first ≡ (after_cleanup, ok tt)
unfolding clear_pending_txt execute memory has_id txt_cleared claimed prepared new_operation
    update_first
cleanup = refl

-- The other replica takes the operation over once the lease has run out.
taken_over : any (creates_under "cop_1") (claim second_replica ∷ []) ≡ false
taken_over = refl

cleared-unrecordable_example :
    record_pending_txt in_memory "cop_1" "replica_b" challenge 430
      (run in_memory (claim second_replica ∷ []) after_cleanup)
    ≢ (after_cleanup, ok tt)
cleared-unrecordable_example =
    cleared-unrecordable in_memory "cop_1" "replica_b" challenge 220 430 after_first after_cleanup
      after_cleanup (claim second_replica ∷ []) claimed-IsUnique claimed_there cleanup taken_over

pending_created :
    create_pending in_memory 100 "cop_1" issue "crt_1" (ok issuance) empty
    ≡ (one_waiting, ok waiting)
unfolding create_pending optional found_or_none find_running_operation has_running_operation join
    create_operation execute memory prepared new_operation in_flight_for
pending_created = refl

create_pending-Joins_example :
    Joins 100 "cop_1" issue "crt_1" (ok issuance) empty one_waiting waiting
create_pending-Joins_example =
    create_pending-Joins in_memory 100 "cop_1" issue "crt_1" (ok issuance) empty one_waiting waiting
      pending_created
