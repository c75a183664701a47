-- ===== src/Examples/Lists.antt =====
-- Pages and notices at concrete inputs.
use neo_line.Prelude.{ℕ, ◌≡◌, refl, some, List, [], ◌∷◌, Result, ok, take, drop, arith}
use neo_line.Monitoring.Paging.{collect, collect-all}

abbrev numbers : List ℕ
numbers = 10 ∷ 11 ∷ 12 ∷ 13 ∷ 14 ∷ []

abbrev query : ℕ → ℕ → Result (List ℕ)
query skip n = ok (take n (drop skip numbers))

collect-all_example : collect query 6 2 [] ≡ some numbers
collect-all_example = collect-all query 2 numbers (λ skip n. refl) (omega arith)
