-- ===== src/Inventory/Gone.antt =====
-- A deletion that succeeds leaves nothing that refers to what it deleted.
use neo_line.Prelude.{
  ℕ, ◌≡◌, refl, Bool, true, false, String, Option, none, some, List, [], ◌∷◌, Result, ok, err,
  DriverError, All, Bool-cases, inl, inr, arith, count_if, subst, sym,
}
use neo_line.Mongo.{Collection, perform_many}
use neo_line.Mongo.Documents.{update_all, delete_all}
use neo_line.Inventory.State.{Inventory, InventoryDatabase, Action, ◌then◌, continue, pull, names}
use neo_line.Inventory.Servers.{
  on_server, result_of_server, event_of, token_of, assigned, unassigned, delete_server,
  delete_certificate_access_tokens_by_server, remove_server_from_managed_certificates,
}
use neo_line.Inventory.Groups.{
  in_group, out_of_group, alerts, without_alerts, notifies, without_notices, delete_monitor_group,
  delete_notify_group,
}

abbrev pub Gone : {A : Type 0} → (A → Bool) → List A → Type 0
Gone p xs = All (λ x. p x ≡ false) xs

-- What holds where the result is a value.
abbrev Holds : {A : Type 0} → Type 0 → Result A → Type 0
Holds Q (ok a) = Q
Holds Q (err e) = Unit

Holds-and : {A : Type 0} (P Q : Type 0) (r : Result A) → Q → Holds P r → Holds (P × Q) r
Holds-and P Q (ok a) q h = (h, q)
Holds-and P Q (err e) q h = tt

Triple : {A : Type 0} → (Inventory → Type 0) → Action A → (Inventory → Type 0) → Type 0
Triple P m Q = (s : Inventory) → P s → Holds (Q (m s).0) (m s).1

abbrev Always : Inventory → Type 0
Always s = Unit

then-Triple :
    {A B : Type 0} (P R Q : Inventory → Type 0) (m : Action A) (f : A → Action B)
    → Triple P m R
    → ((a : A) → Triple R (f a) Q)
    → Triple P (m then f) Q
unfolding Triple ◌then◌ continue
then-Triple {A} {B} P R Q m f h k s p = continued (m s).0 (m s).1 (h s p)
  where
    continued :
        (t : Inventory) (r : Result A)
        → Holds (R t) r
        → Holds (Q (continue f t r).0) (continue f t r).1
    continued t (ok a) q = k a t q
    continued t (err e) q = tt

triple :
    {A : Type 0} (P Q : Inventory → Type 0) (m : Action A)
    → ((s : Inventory) → P s → Holds (Q (m s).0) (m s).1)
    → Triple P m Q
unfolding Triple
triple P Q m h = h

any-Triple : {A : Type 0} (P : Inventory → Type 0) (m : Action A) → Triple P m Always
unfolding Triple
any-Triple P m s p = always (m s).1
  where
    always : {A : Type 0} (r : Result A) → Holds Unit r
    always (ok a) = tt
    always (err e) = tt

delete_all-Gone : {A : Type 0} (p : A → Bool) (xs : List A) → Gone p (delete_all p xs)
unfolding delete_all
delete_all-Gone p [] = tt
delete_all-Gone p (x ∷ xs) = elim (Bool-cases (p x)) [
  | inl e ↦ rw e (delete_all-Gone p xs)
  | inr e ↦ rw e (e, delete_all-Gone p xs)
]

update_all-Gone :
    {A : Type 0} (q p : A → Bool) (f : A → A) (xs : List A)
    → ((x : A) → p x ≡ true → q (f x) ≡ false)
    → ((x : A) → p x ≡ false → q x ≡ false)
    → Gone q (update_all p f xs)
unfolding update_all
update_all-Gone q p f [] h k = tt
update_all-Gone q p f (x ∷ xs) h k = elim (Bool-cases (p x)) [
  | inl e ↦ rw e (h x e, update_all-Gone q p f xs h k)
  | inr e ↦ rw e (k x e, update_all-Gone q p f xs h k)
]

names-pull : (id : String) (ids : List String) → names id (pull id ids) ≡ false
names-pull id [] = refl
names-pull id (x ∷ xs) = ground (arith, names-pull id xs)

module _ {A : Type 0} (c : Collection A) where
  delete_many-Gone :
      (p : A → Bool) (xs : List A) → Holds (Gone p (c.delete_many p xs).0) (c.delete_many p xs).1
  delete_many-Gone p xs =
      let (o, q, e) = c.delete_many_lem p xs in
      subst (λ w. Holds (Gone p w.0) w.1) (sym e) (by_outcome o q)
    where
      by_outcome :
          (o : Option DriverError) (q : A → Bool)
          → let w = perform_many o q (λ r. delete_all r xs) (λ r. count_if r xs) p in
            Holds (Gone p w.0) w.1
      by_outcome none q = delete_all-Gone p xs
      by_outcome (some e) q = tt

  update_many-Gone :
      (q p : A → Bool) (f : A → A) (xs : List A)
      → ((x : A) → p x ≡ true → q (f x) ≡ false)
      → ((x : A) → p x ≡ false → q x ≡ false)
      → Holds (Gone q (c.update_many p f xs).0) (c.update_many p f xs).1
  update_many-Gone q p f xs h k =
      let (o, r, e) = c.update_many_lem p f xs in
      subst (λ w. Holds (Gone q w.0) w.1) (sym e) (by_outcome o r)
    where
      by_outcome :
          (o : Option DriverError) (r : A → Bool)
          → let w = perform_many o r (λ t. update_all t f xs) (λ t. count_if t xs) p in
            Holds (Gone q w.0) w.1
      by_outcome none r = update_all-Gone q p f xs h k
      by_outcome (some e) r = tt

abbrev MonitorsGone : String → Inventory → Type 0
MonitorsGone id t = Gone (on_server id) t.monitors

abbrev ResultsGone : String → Inventory → Type 0
ResultsGone id t = Gone (result_of_server id) t.results × MonitorsGone id t

abbrev EventsGone : String → Inventory → Type 0
EventsGone id t = Gone (event_of id) t.events × ResultsGone id t

abbrev TokensGone : String → Inventory → Type 0
TokensGone id t = Gone (token_of id) t.tokens × EventsGone id t

-- Nothing is left that refers to a server.
abbrev pub ServerGone : String → Inventory → Type 0
ServerGone id t = Gone (assigned id) t.certificates × TokensGone id t

-- Nothing is left that refers to a notify group.
abbrev pub NotifyGroupGone : String → Inventory → Type 0
NotifyGroupGone id t = Gone (notifies id) t.certificates × Gone (alerts id) t.groups

module _ (db : InventoryDatabase) where
  open db use {
    monitors_coll, results_coll, events_coll, tokens_coll, groups_coll, certificates_coll,
  }

  delete_server-Triple : (id : String) → Triple Always (delete_server db id) (ServerGone id)
  unfolding delete_server delete_certificate_access_tokens_by_server
      remove_server_from_managed_certificates unassigned assigned
  delete_server-Triple id =
      then-Triple Always (TokensGone id) (ServerGone id) _ _
        (then-Triple Always (EventsGone id) (TokensGone id) _ _
          (then-Triple Always (ResultsGone id) (EventsGone id) _ _
            (then-Triple Always (MonitorsGone id) (ResultsGone id) _ _
              (then-Triple Always Always (MonitorsGone id) _ _ (any-Triple Always _)
                (λ _. triple _ _ _ λ s _. delete_many-Gone monitors_coll (on_server id) s.monitors))
              (λ _. triple _ _ _ λ s m.
                Holds-and _ _ _ m (delete_many-Gone results_coll (result_of_server id) s.results)))
            (λ _.
              triple _ _ _
                λ s r. Holds-and _ _ _ r (delete_many-Gone events_coll (event_of id) s.events)))
          (λ _.
            triple _ _ _
              λ s e. Holds-and _ _ _ e (delete_many-Gone tokens_coll (token_of id) s.tokens)))
        (λ _. triple _ _ _ λ s t. Holds-and _ _ _ t (
          update_many-Gone certificates_coll (assigned id) (λ _. true) (unassigned id)
            s.certificates (λ c _. names-pull id c.server_ids) (λ c h. cc h)))

  delete_monitor_group-Triple :
      (id : String)
      → Triple Always (delete_monitor_group db id) (λ t. Gone (in_group id) t.monitors)
  unfolding delete_monitor_group in_group out_of_group
  delete_monitor_group-Triple id =
      then-Triple Always Always (λ t. Gone (in_group id) t.monitors) _ _ (any-Triple Always _)
        (λ _. triple _ _ _ λ s _.
          update_many-Gone monitors_coll (in_group id) (in_group id) (out_of_group id) s.monitors
            (λ m _. names-pull id m.group_ids) (λ m h. h))

  delete_notify_group-Triple :
      (id : String) → Triple Always (delete_notify_group db id) (NotifyGroupGone id)
  unfolding delete_notify_group alerts without_alerts notifies without_notices
  delete_notify_group-Triple id =
      then-Triple Always (λ t. Gone (alerts id) t.groups) (NotifyGroupGone id) _ _
        (then-Triple Always Always (λ t. Gone (alerts id) t.groups) _ _ (any-Triple Always _)
          (λ _. triple _ _ _ λ s _.
            update_many-Gone groups_coll (alerts id) (alerts id) (without_alerts id) s.groups
              (λ g _. names-pull id g.alert_policy.notify_group_ids) (λ g h. h)))
        (λ _. triple _ _ _ λ s a. Holds-and _ _ _ a (
          update_many-Gone certificates_coll (notifies id) (notifies id) (without_notices id)
            s.certificates (λ c _. names-pull id c.notify_group_ids) (λ c h. h)))

  -- Where the deletion of a server returns no error, no monitor, result, event or access token of the
  -- server is left, and no certificate is assigned to it.
  pub delete_server-ServerGone :
      (id : String) (s t : Inventory) (n : ℕ) → delete_server db id s ≡ (t, ok n) → ServerGone id t
  unfolding Triple
  delete_server-ServerGone id s t n h =
      subst (λ (w : Inventory × Result ℕ). Holds (ServerGone id w.0) w.1) h
        (delete_server-Triple id s tt)

  -- Where the deletion of a monitor group returns no error, no monitor is in the group; where that of a
  -- notify group does, no monitor group alerts it and no certificate notifies it.
  pub delete_group-unreferenced :
      (group_id notify_id : String) (s t s' u : Inventory) (m n : ℕ)
      → delete_monitor_group db group_id s ≡ (t, ok m)
      → delete_notify_group db notify_id s' ≡ (u, ok n)
      → Gone (in_group group_id) t.monitors × NotifyGroupGone notify_id u
  unfolding Triple
  delete_group-unreferenced group_id notify_id s t s' u m n h k = (
    subst (λ (w : Inventory × Result ℕ). Holds (Gone (in_group group_id) w.0.monitors) w.1) h
        (delete_monitor_group-Triple group_id s tt),
    subst (λ (w : Inventory × Result ℕ). Holds (NotifyGroupGone notify_id w.0) w.1) k
        (delete_notify_group-Triple notify_id s' tt),
  )
