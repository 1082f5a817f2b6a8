-- ===== src/Examples/Sellers.antt =====
-- The four selling strategies fulfil their contract at the fixed-point numbers.
use strata_exec.Prelude.Int.{ℤ}
use strata_exec.Float.Fixed.{fixed_float, fixed_rounding}
use strata_exec.Strategies.Contract.{IsSeller}
use strata_exec.Strategies.Twap.Seller.{twap_strategy, twap_strategy-IsSeller}
use strata_exec.Strategies.Heuristic.Seller.{heuristic_strategy, heuristic_strategy-IsSeller}
use strata_exec.Strategies.Adaptive.Seller.{adaptive_strategy, adaptive_strategy-IsSeller}
use strata_exec.Prelude.{some, false, [], ◌∷◌}
use strata_exec.Float.{lit}
use strata_exec.Market.{MarketState}
use strata_exec.Strategies.Optimal.{OptimalStrategy}

twap_strategy-IsSeller_example : IsSeller {F = ℤ} twap_strategy (λ s. s.remaining_notional)
twap_strategy-IsSeller_example = twap_strategy-IsSeller

heuristic_strategy-IsSeller_example :
    IsSeller {F = ℤ} heuristic_strategy (λ s. s.remaining_notional)
heuristic_strategy-IsSeller_example = heuristic_strategy-IsSeller

adaptive_strategy-IsSeller_example : IsSeller {F = ℤ} adaptive_strategy (λ s. s.remaining_notional)
adaptive_strategy-IsSeller_example = adaptive_strategy-IsSeller

-- A tick past the end of a schedule of two trades, with 5 of 10 unsold.
abbrev late : OptimalStrategy ℤ
late = record {
  total_notional = lit 10 0;
  remaining_notional = lit 5 0;
  eta = lit 1 0;
  lambda = lit 1 0;
  sigma_ref = lit 5 1;
  schedule = some (lit 6 0 ∷ lit 4 0 ∷ []);
  current_step = 2;
  completed = false;
}

abbrev calm : MarketState ℤ
calm = record {
  price = lit 100 0;
  volatility = lit 5 1;
  liquidity = record { reserve_in = lit 100 0; reserve_out = lit 200 0 };
  step = 2;
}
