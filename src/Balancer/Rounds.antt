-- ===== src/Balancer/Rounds.antt =====
-- Whom the load balancer sends requests to.
use penn_cloud.Prelude.{ℕ, zero, suc, ◌+◌, ◌%◌, ◌<◌, ◌≡◌, Bool, none, some, arith, if◌then◌else◌}
use penn_cloud.Balancer.{frontends, find_alive, select_frontend}

module _ (is_alive : ℕ → Bool) where
  -- From a place in the list, the first server of the round that is alive is found, and the next
  -- round begins behind it; without one that is alive nothing is found and the place stays.
  pub select_frontend_lem :
      (n : ℕ)
      → n < frontends
      → let second = (n + 1) % frontends in
        let third = (n + 2) % frontends in
        select_frontend is_alive n ≡ (
          if is_alive n
          then (second, some n)
          else if is_alive second
          then (third, some second)
          else if is_alive third
          then (n, some third)
          else (n, none))
  unfolding select_frontend find_alive
  select_frontend_lem zero h = ground arith
  select_frontend_lem (suc zero) h = ground arith
  select_frontend_lem (suc (suc zero)) h = ground arith
  select_frontend_lem (suc (suc (suc n))) h = absurd (omega (arith, h))
