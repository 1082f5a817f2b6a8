-- ===== src/Examples/Book.antt =====
-- Order book fills and the volatility window at concrete inputs.
use strata_exec.Prelude.{◌≡◌, refl, true, [], ◌∷◌, none, arith}
use strata_exec.Prelude.Int.{ℤ, pos}
use strata_exec.Float.{lit}
use strata_exec.Float.Fixed.{fixed_float, fixed_rounding, fixed-IsExact, fixed_lit}
use strata_exec.Float.Exact.{Balance}
use strata_exec.Market.OrderBook.{PriceLevel, OrderBook, fill_side, fill_market_sell}
use strata_exec.Market.OrderBook.Walk.{depth}
use strata_exec.Market.OrderBook.Fill.{
  IsBook, FillSpec, ladder, fill_market_sell-FillSpec, fill_market_sell-IsBook, fill_side-conserves,
}
use strata_exec.Market.Volatility.{VolatilityEstimator, new_estimator, update}
use strata_exec.Market.Volatility.Window.{IsRolling, new_estimator-IsRolling, update-IsRolling}
use strata_exec.Examples.Data.{given}

abbrev level : ℤ → ℤ → PriceLevel ℤ
level price quantity = record { price = price; quantity = quantity }

-- Two levels on either side, around 100.
abbrev small_book : OrderBook ℤ
small_book = record {
  asks = level (lit 101 0) (lit 1 0) ∷ level (lit 102 0) (lit 2 0) ∷ [];
  bids = level (lit 99 0) (lit 1 0) ∷ level (lit 98 0) (lit 2 0) ∷ [];
  timestamp = 4;
}

small_book-IsBook : IsBook small_book
unfolding fixed_lit
small_book-IsBook = record {
  bids_sorted = ((omega arith, tt), (tt, tt));
  asks_sorted = ((omega arith, tt), (tt, tt));
  uncrossed = ((omega arith, (omega arith, tt)), ((omega arith, (omega arith, tt)), tt));
}

-- A sale that takes the first level whole and a part of the second.
fill_market_sell-FillSpec_example :
    let out = fill_market_sell small_book (lit 2 0) in
    (out.0.asks ≡ small_book.asks)
    × (out.0.timestamp ≡ small_book.timestamp)
    × FillSpec (lit 2 0) small_book.bids out.0.bids out.1
fill_market_sell-FillSpec_example = fill_market_sell-FillSpec small_book (lit 2 0) (given 2 0)

fill_market_sell-IsBook_example : IsBook (fill_market_sell small_book (lit 2 0)).0
fill_market_sell-IsBook_example =
    fill_market_sell-IsBook small_book (lit 2 0) (given 2 0) small_book-IsBook

fill_side-conserves_example :
    let out = fill_side small_book (lit 2 0) true none none in
    Balance out.1.filled_qty out.1.residual_qty (lit 2 0) (pos 0)
    × Balance (depth (ladder true out.0)) out.1.filled_qty (depth (ladder true small_book)) (pos 0)
fill_side-conserves_example = fill_side-conserves fixed-IsExact small_book (lit 2 0) true none none

-- A window of one return, already full.
abbrev full_window : VolatilityEstimator ℤ
full_window = update (new_estimator 1) (lit 1 2)

full_window-IsRolling : IsRolling full_window
full_window-IsRolling =
    (update-IsRolling fixed-IsExact (new_estimator 1) (lit 1 2)
      (unfold new_estimator in omega arith) (new_estimator-IsRolling 1)).0

full_window_size : full_window.window ≡ 1
unfolding update new_estimator
full_window_size = refl

update-IsRolling_example :
    IsRolling (update full_window (lit 3 2))
    × ((update full_window (lit 3 2)).window ≡ full_window.window)
update-IsRolling_example =
    update-IsRolling fixed-IsExact full_window (lit 3 2) (omega (arith, full_window_size))
      full_window-IsRolling
