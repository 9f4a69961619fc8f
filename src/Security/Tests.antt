-- ===== src/Security/Tests.antt =====
-- app/security.py, `Limiter`, at five requests for two keys.
use opsark_admin.Common.{ℕ, List, [], ◌∷◌, ◌≤◌, arith}
use opsark_admin.Security.Queue.{recent}
use opsark_admin.Security.Window.{times, serve_all, serve_all_bounded}

abbrev arrivals : List (ℕ × ℕ)
arrivals = (1, 1000) ∷ (1, 2000) ∷ (2, 2000) ∷ (1, 3000) ∷ (1, 70000) ∷ []

serve_all_bounded_example :
    recent 60000 80000 (
      times 1
        (serve_all
          (λ k. 2)
          (λ k. 60000)
          arrivals
          (record { entries = []; accepted = [] })).accepted)
    ≤ 2
serve_all_bounded_example =
    serve_all_bounded (λ k. 2) (λ k. 60000) (λ k. omega arith) arrivals 80000 (omega arith) 1
