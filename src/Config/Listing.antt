-- ===== src/Config/Listing.antt =====
-- The loop over the pages ends with every document, by one page more than there are documents.
use mathlib.Core.List.{append_assoc}
use neo_line.Prelude.{
  ℕ, zero, suc, ◌^◌, ◌<◌, ◌≡◌, refl, ap, ◌∙◌, Option, none, some, get_or, List, [], ◌∷◌, ◌++◌,
  length, take, drop, Result, ok, err,
}
use neo_line.Monitoring.Pages.{Page, find_page}
use neo_line.Monitoring.Paging.{collect, follow, join_pages, collect-all}
use neo_line.Config.Backend.{returned, listing, next_listing, list_from, list_all}

module _ {A : Type 0} (query : ℕ → ℕ → Result (List A)) where
  abbrev Collects : ℕ → Type 0
  Collects fuel =
      (token : List ℕ) (out docs : List A)
      → collect query fuel 200 token ≡ some docs
      → list_from (find_page query) fuel token out ≡ returned (out ++ docs)

  more_listed :
      (fuel : ℕ) (items out docs : List A) (c : ℕ) (token : List ℕ) (rest : Option (List A))
      → Collects fuel
      → collect query fuel 200 (c ∷ token) ≡ rest
      → join_pages items (c ∷ token) rest ≡ some docs
      → list_from (find_page query) fuel (c ∷ token) (out ++ items) ≡ returned (out ++ docs)
  unfolding join_pages
  more_listed fuel items out docs c token none ih e h = cc (h)
  more_listed fuel items out docs c token (some more) ih e h =
      ih (c ∷ token) (out ++ items) more e
      ∙ ap returned (append_assoc out items more)
      ∙ ap (λ o. returned (out ++ get_or o docs)) h

  page_listed :
      (fuel : ℕ) (items out docs : List A) (token : List ℕ)
      → Collects fuel
      → join_pages items token (collect query fuel 200 token) ≡ some docs
      → next_listing (λ t o. list_from (find_page query) fuel t o) (out ++ items) token
        ≡ returned (out ++ docs)
  unfolding next_listing join_pages
  page_listed fuel items out docs [] ih h = ap (λ o. returned (out ++ get_or o docs)) h
  page_listed fuel items out docs (c ∷ token) ih h =
      more_listed fuel items out docs c token _ ih refl h

  answer_listed :
      (fuel : ℕ) (out docs : List A) (r : Result (Page A))
      → Collects fuel
      → follow (λ t. collect query fuel 200 t) r ≡ some docs
      → listing (λ t o. list_from (find_page query) fuel t o) out r ≡ returned (out ++ docs)
  unfolding listing follow
  answer_listed fuel out docs (err e) ih h = cc (h)
  answer_listed fuel out docs (ok page) ih h =
      page_listed fuel page.items out docs page.next_page_token ih h

  list_from-collect : (fuel : ℕ) → Collects fuel
  unfolding list_from collect
  list_from-collect zero token out docs h = cc (h)
  list_from-collect (suc fuel) token out docs h =
      answer_listed fuel out docs (find_page query 200 token) (list_from-collect fuel) h

  -- The listing of a query that answers from a list of fewer than 2^63 documents, which does not change,
  -- returns them all, with fuel for one page more than there are documents.
  list_all-documents :
      (docs : List A)
      → ((skip n : ℕ) → query skip n ≡ ok (take n (drop skip docs)))
      → length docs < 2 ^ 63
      → list_all (find_page query) (suc (length docs)) ≡ returned docs
  unfolding list_all
  list_all-documents docs serves small =
      list_from-collect (suc (length docs)) [] [] docs (collect-all query 200 docs serves small)
