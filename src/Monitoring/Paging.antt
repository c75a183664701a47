-- ===== src/Monitoring/Paging.antt =====
-- The pages that follow each other by their tokens.
use neo_line.Prelude.{
  ℕ, zero, suc, ◌+◌, ◌-◌, ◌^◌, ◌≤◌, ◌<◌, ◌≡◌, refl, ap, ◌∙◌, true, false, Option, none, some, List,
  [], ◌∷◌, ◌++◌, ltb, length, take, drop, Result, ok, err, arith, sym, subst, Bool-cases, inl, inr,
}
use neo_line.Monitoring.Pages.{
  paged, read_page, normalize_limit, parse_page_token, format_int, Page, page_of, find_page,
}
use neo_line.Monitoring.Tokens.{parse_page_token-format_int, format_int-front}

normalize_limit-positive : (limit : ℕ) → 0 < normalize_limit limit
unfolding normalize_limit
normalize_limit-positive limit = ground arith

first_page : parse_page_token [] ≡ ok 0
unfolding parse_page_token
first_page = refl

module _ {A : Type 0} where
  take-append-drop : (n : ℕ) (xs : List A) → take n xs ++ drop n xs ≡ xs
  take-append-drop zero xs = refl
  take-append-drop (suc n) [] = refl
  take-append-drop (suc n) (x ∷ xs) = ap (λ ys. x ∷ ys) (take-append-drop n xs)

  drop-empty : (n : ℕ) → drop {A = A} n [] ≡ []
  drop-empty zero = refl
  drop-empty (suc n) = refl

  drop-drop : (m n : ℕ) (xs : List A) → drop n (drop m xs) ≡ drop (m + n) xs
  drop-drop zero n xs = let same : n ≡ 0 + n = omega arith in ap (λ k. drop k xs) same
  drop-drop (suc m) n [] = drop-empty n ∙ sym (drop-empty (suc m + n))
  drop-drop (suc m) n (x ∷ xs) =
      let same : suc (m + n) ≡ suc m + n = omega arith in
      drop-drop m n xs ∙ ap (λ k. drop k (x ∷ xs)) same

  take-take_next : (n : ℕ) (xs : List A) → take n (take (suc n) xs) ≡ take n xs
  take-take_next zero xs = refl
  take-take_next (suc n) [] = refl
  take-take_next (suc n) (x ∷ xs) = ap (λ ys. x ∷ ys) (take-take_next n xs)

  length-take_next : (n : ℕ) (xs : List A) → n < length (take (suc n) xs) → n < length xs
  length-take_next zero [] h = omega arith
  length-take_next zero (x ∷ xs) h = omega arith
  length-take_next (suc n) [] h = omega arith
  length-take_next (suc n) (x ∷ xs) h =
      let further = length-take_next n xs (omega arith) in omega arith

  take_next-all : (n : ℕ) (xs : List A) → length (take (suc n) xs) ≤ n → take (suc n) xs ≡ xs
  take_next-all n [] h = refl
  take_next-all zero (x ∷ xs) h = let absurd : ⊥ = omega arith in elim absurd [ ]
  take_next-all (suc n) (x ∷ xs) h = ap (λ ys. x ∷ ys) (take_next-all n xs (omega arith))

  length-drop : (n : ℕ) (xs : List A) → length (drop n xs) ≡ length xs - n
  length-drop zero xs = omega arith
  length-drop (suc n) [] = omega arith
  length-drop (suc n) (x ∷ xs) = let further = length-drop n xs in omega arith

  -- A page, and what the pages behind its token have, if it has one.
  unfoldable pub join_pages : List A → List ℕ → Option (List A) → Option (List A)
  join_pages items [] rest = some items
  join_pages items (c ∷ s) none = none
  join_pages items (c ∷ s) (some more) = some (items ++ more)

  unfoldable pub follow : (List ℕ → Option (List A)) → Result (Page A) → Option (List A)
  unfolding join_pages
  follow rest (err e) = none
  follow rest (ok page) = join_pages page.items page.next_page_token (rest page.next_page_token)

  -- What a client that follows the tokens collects, if it reaches the last page within `fuel` pages.
  unfoldable pub collect : (ℕ → ℕ → Result (List A)) → ℕ → ℕ → List ℕ → Option (List A)
  unfolding follow
  collect query zero limit token = none
  collect query (suc fuel) limit token =
      follow (λ t. collect query fuel limit t) (find_page query limit token)

  collect-page :
      (query : ℕ → ℕ → Result (List A)) (fuel limit : ℕ) (token : List ℕ) (page : Page A)
      → find_page query limit token ≡ ok page
      → collect query (suc fuel) limit token
        ≡ join_pages page.items page.next_page_token (collect query fuel limit page.next_page_token)
  unfolding collect follow
  collect-page query fuel limit token page e = ap (follow (λ t. collect query fuel limit t)) e

  join_pages-more :
      (items more : List A) (t : List ℕ) (c : ℕ) (s : List ℕ)
      → t ≡ c ∷ s
      → join_pages items t (some more) ≡ some (items ++ more)
  unfolding join_pages
  join_pages-more items more t c s e =
      subst (λ t. join_pages items t (some more) ≡ some (items ++ more)) (sym e) refl

  join_pages-last :
      (items : List A) (rest : Option (List A)) → join_pages items [] rest ≡ some items
  unfolding join_pages
  join_pages-last items rest = refl

  page_of-last :
      (limit skip : ℕ) (found : List A)
      → ltb limit (length found) ≡ false
      → page_of limit skip found ≡ record { items = found; next_page_token = [] }
  unfolding page_of
  page_of-last limit skip found e = rw e refl

  page_of-more :
      (limit skip : ℕ) (found : List A)
      → ltb limit (length found) ≡ true
      → page_of limit skip found
        ≡ record { items = take limit found; next_page_token = format_int (skip + limit) }
  unfolding page_of
  page_of-more limit skip found e = rw e refl

  find_page-page_of :
      (query : ℕ → ℕ → Result (List A)) (limit skip : ℕ) (docs : List A) (token : List ℕ)
      → ((m n : ℕ) → query m n ≡ ok (take n (drop m docs)))
      → parse_page_token token ≡ ok skip
      → let l = normalize_limit limit in
        find_page query limit token ≡ ok (page_of l skip (take (suc l) (drop skip docs)))
  unfolding find_page read_page paged
  find_page-page_of query limit skip docs token serves here =
      let l = normalize_limit limit in
      let same : l + 1 ≡ suc l = omega arith in
      ap (read_page query l) here
      ∙ ap (paged l skip) (serves skip (l + 1))
      ∙ ap (λ n. ok (page_of l skip (take n (drop skip docs)))) same

  -- The documents from one page on.
  collect-drop :
      (query : ℕ → ℕ → Result (List A)) (fuel limit skip : ℕ) (docs : List A) (token : List ℕ)
      → ((m n : ℕ) → query m n ≡ ok (take n (drop m docs)))
      → length docs < 2 ^ 63
      → parse_page_token token ≡ ok skip
      → length docs < skip + fuel
      → skip ≤ length docs
      → collect query fuel limit token ≡ some (drop skip docs)
  collect-drop query zero limit skip docs token serves small here enough inside =
      let absurd : ⊥ = omega arith in elim absurd [ ]
  collect-drop query (suc fuel) limit skip docs token serves small here enough inside =
      let l = normalize_limit limit in
      let found = take (suc l) (drop skip docs) in
      let read = find_page-page_of query limit skip docs token serves here in
      elim (Bool-cases (ltb l (length found))) [
        | inl e ↦
            let more : l < length found = ground arith in
            let behind = length-take_next l (drop skip docs) more in
            let positive = normalize_limit-positive limit in
            let size = length-drop skip docs in
            let rest =
              collect-drop query fuel limit (skip + l) docs (format_int (skip + l)) serves small
                (parse_page_token-format_int (skip + l) (omega arith)) (omega arith)
                (omega arith) in
            let (c, s, t, _) = format_int-front (skip + l) (omega arith) in
            let split : take l found ++ drop (skip + l) docs ≡ drop skip docs =
              ap (λ ys. ys ++ drop (skip + l) docs) (take-take_next l (drop skip docs))
              ∙ ap (λ ys. take l (drop skip docs) ++ ys) (sym (drop-drop skip l docs))
              ∙ take-append-drop l (drop skip docs) in
            collect-page query fuel limit token _ (read ∙ ap ok (page_of-more l skip found e))
            ∙ ap (join_pages (take l found) (format_int (skip + l))) rest
            ∙ join_pages-more (take l found) (drop (skip + l) docs) (format_int (skip + l)) c s t
            ∙ ap some split
        | inr e ↦
            let last : length found ≤ l = ground arith in
            collect-page query fuel limit token _ (read ∙ ap ok (page_of-last l skip found e))
            ∙ join_pages-last found _
            ∙ ap some (take_next-all l (drop skip docs) last)
      ]

  -- A client that follows the page tokens from the first page on, whatever limit it asks for, comes to the
  -- last page and has then had every document once and in order, where the query answers from a list of
  -- fewer than 2^63 documents that does not change.
  pub collect-all :
      (query : ℕ → ℕ → Result (List A)) (limit : ℕ) (docs : List A)
      → ((skip n : ℕ) → query skip n ≡ ok (take n (drop skip docs)))
      → length docs < 2 ^ 63
      → collect query (suc (length docs)) limit [] ≡ some docs
  collect-all query limit docs serves small =
      collect-drop query (suc (length docs)) limit 0 docs [] serves small first_page (omega arith)
        (omega arith)
