-- ===== src/Market/Adversarial.antt =====
-- src/market/adversarial.rs: an agent that withdraws depth after a large fill, one that sells ahead
-- of ours, and the book that is filled between them. A method that changes the book it is given
-- returns the book after it.
pub mod Ledger
use strata_exec.Prelude.{
  ℕ, zero, suc, ◌-◌, Bool, true, false, ◌||◌, List, [], ◌∷◌, ◌++◌, length, ltb, if◌then◌else◌,
}
use strata_exec.Float.{
  Float, ◌⊕◌, ◌⊖◌, ◌⊗◌, ◌⊘◌, ◌<?◌, ◌≤?◌, ◌=?◌, lit, nought, one, fmax, clamp, fsum,
}
use strata_exec.Market.Vpin.{drop_first}
use strata_exec.Market.OrderBook.{
  PriceLevel, OrderBook, FillResult, total_bid_depth, fill_market_sell,
}

pub record LiquidityWithdrawer (F : Type 0) : Type 0 where
  pub sensitivity : F
  pub withdrawal_pct : F
  pub recovery_steps : ℕ
  pub withdrawn_depth_per_level : List F
  pub recovery_counter : ℕ

pub record FrontRunner (F : Type 0) : Type 0 where
  pub detection_window : ℕ
  pub size_threshold : F
  pub aggression : F
  pub recent_sell_volume : List F
  pub avg_market_volume : F

pub record AdversarialBook (F : Type 0) : Type 0 where
  pub base_book : OrderBook F
  pub withdrawer : LiquidityWithdrawer F
  pub front_runner : FrontRunner F
  pub last_front_runner_qty : F
  pub last_depth_withdrawn : F
  pub last_pre_fill_depth : F

-- The variables of the loop of `post_fill` when it ends.
pub record Withdrawn (F : Type 0) : Type 0 where
  pub levels : List (PriceLevel F)
  pub deficits : List F
  pub total_withdrawn : F

-- What `post_fill` leaves: the agent, the book, and the depth it reports.
pub record Reaction (F : Type 0) : Type 0 where
  pub withdrawer : LiquidityWithdrawer F
  pub book : OrderBook F
  pub total_withdrawn : F

abbrev pub repeat {ℓ} : {A : Type ℓ} → ℕ → A → List A
repeat zero a = []
repeat (suc n) a = a ∷ repeat n a

-- `Vec::resize`, where it makes the vector longer.
abbrev pub resize {ℓ} : {A : Type ℓ} → List A → ℕ → A → List A
resize xs n a = if ltb (length xs) n then xs ++ repeat (n - length xs) a else xs

-- The vector after `while len > n { pop_front }`.
unfoldable pub trim_front {ℓ} : {A : Type ℓ} → ℕ → List A → List A
trim_front n [] = []
trim_front n (x ∷ xs) =
    let rest = trim_front n xs in if ltb n (length (x ∷ xs)) then rest else x ∷ xs

module _ {F : Type 0} ⦃f : Float F⦄ where
  unfoldable pub new_withdrawer : LiquidityWithdrawer F
  new_withdrawer = record {
    sensitivity = lit 30 2;
    withdrawal_pct = lit 20 2;
    recovery_steps = 10;
    withdrawn_depth_per_level = [];
    recovery_counter = 0;
  }

  -- The loop over the levels. A level without an entry, where the index would panic, ends it here;
  -- the resize before the loop leaves none.
  unfoldable pub withdraw : F → F → List (PriceLevel F) → List F → Withdrawn F
  withdraw pct acc [] ds = record { levels = []; deficits = ds; total_withdrawn = acc }
  withdraw pct acc (l ∷ ls) [] = record { levels = l ∷ ls; deficits = []; total_withdrawn = acc }
  withdraw pct acc (l ∷ ls) (d ∷ ds) =
      let pull = pct ⊗ l.quantity in
      let rest = withdraw pct (acc ⊕ pull) ls ds in
      record {
        levels = record l { quantity = l.quantity ⊖ pull } ∷ rest.levels;
        deficits = (d ⊕ pull) ∷ rest.deficits;
        total_withdrawn = rest.total_withdrawn;
      }

  unfoldable pub pull_depth : LiquidityWithdrawer F → OrderBook F → Reaction F
  unfolding withdraw
  pull_depth w book =
      let out =
        withdraw w.withdrawal_pct nought book.bids
          (resize w.withdrawn_depth_per_level (length book.bids) nought) in
      record {
        withdrawer = record w {
          withdrawn_depth_per_level = out.deficits;
          recovery_counter = w.recovery_steps;
        };
        book = record book { bids = out.levels };
        total_withdrawn = out.total_withdrawn;
      }

  unfoldable pub post_fill : LiquidityWithdrawer F → OrderBook F → F → F → Reaction F
  post_fill w book fill_qty pre_fill_depth =
      if pre_fill_depth ≤? nought || fill_qty ≤? w.sensitivity ⊗ pre_fill_depth
      then (record { withdrawer = w; book = book; total_withdrawn = nought })
      else pull_depth w book

  -- One level and its deficit, of which a share is restored.
  unfoldable pub give_back : F → PriceLevel F → F → PriceLevel F × F
  give_back denom l d =
      let share = d ⊘ denom in
      if nought <? d then (record l { quantity = l.quantity ⊕ share }, d ⊖ share) else (l, d)

  -- The loop over the indices below both lengths.
  unfoldable pub restore : F → List (PriceLevel F) → List F → List (PriceLevel F) × List F
  unfolding give_back
  restore denom [] ds = ([], ds)
  restore denom (l ∷ ls) [] = (l ∷ ls, [])
  restore denom (l ∷ ls) (d ∷ ds) =
      let here = give_back denom l d in
      let rest = restore denom ls ds in (here.0 ∷ rest.0, here.1 ∷ rest.1)

  unfoldable pub recover :
      LiquidityWithdrawer F → OrderBook F → ℕ → LiquidityWithdrawer F × OrderBook F
  unfolding restore
  recover w book zero = (w, book)
  recover w book (suc n) =
      let out = restore (f.of_usize (suc n)) book.bids w.withdrawn_depth_per_level in
      (
        record w { withdrawn_depth_per_level = out.1; recovery_counter = n },
        record book { bids = out.0 },
      )

  unfoldable pub recover_step :
      LiquidityWithdrawer F → OrderBook F → LiquidityWithdrawer F × OrderBook F
  unfolding recover
  recover_step w book = recover w book w.recovery_counter

  unfoldable pub deficit : LiquidityWithdrawer F → F
  unfolding fsum
  deficit w = fsum w.withdrawn_depth_per_level

  unfoldable pub new_front_runner : FrontRunner F
  new_front_runner = record {
    detection_window = 5;
    size_threshold = lit 30 2;
    aggression = lit 40 2;
    recent_sell_volume = [];
    avg_market_volume = nought;
  }

  unfoldable pub sell_ahead : OrderBook F → F → OrderBook F × F
  unfolding fill_market_sell
  sell_ahead book copy_qty =
      (if lit 1 9 <? copy_qty then (fill_market_sell book copy_qty).0 else book, copy_qty)

  unfoldable pub is_quiet : FrontRunner F → F → Bool
  unfolding fsum
  is_quiet r intended_qty =
      ltb (length r.recent_sell_volume) r.detection_window
      || fsum r.recent_sell_volume
        ≤? r.size_threshold ⊗ r.avg_market_volume ⊗ f.of_usize r.detection_window
      || intended_qty ≤? lit 1 9

  unfoldable pub pre_fill : FrontRunner F → OrderBook F → F → OrderBook F × F
  unfolding is_quiet sell_ahead fmax
  pre_fill r book intended_qty =
      if is_quiet r intended_qty
      then (book, nought)
      else sell_ahead book (fmax (r.aggression ⊗ intended_qty) nought)

  unfoldable pub update_volume : FrontRunner F → F → FrontRunner F
  unfolding trim_front
  update_volume r qty =
      let alpha = lit 10 2 in
      if qty ≤? nought then r else record r {
        recent_sell_volume = trim_front r.detection_window (r.recent_sell_volume ++ qty ∷ []);
        avg_market_volume =
            if r.avg_market_volume =? nought
            then qty
            else (one ⊖ alpha) ⊗ r.avg_market_volume ⊕ alpha ⊗ qty;
      }

  unfoldable pub new_adversarial_book : OrderBook F → AdversarialBook F
  unfolding new_withdrawer new_front_runner
  new_adversarial_book base_book = record {
    base_book = base_book;
    withdrawer = new_withdrawer;
    front_runner = new_front_runner;
    last_front_runner_qty = nought;
    last_depth_withdrawn = nought;
    last_pre_fill_depth = nought;
  }

  unfoldable pub fill : AdversarialBook F → F → AdversarialBook F × FillResult F
  unfolding total_bid_depth pre_fill fill_market_sell post_fill recover_step update_volume
  fill b qty =
      let front_run = pre_fill b.front_runner b.base_book qty in
      let sold = fill_market_sell front_run.0 qty in
      let reaction =
        post_fill b.withdrawer sold.0 sold.1.filled_qty (total_bid_depth front_run.0) in
      let recovered = recover_step reaction.withdrawer reaction.book in
      (
        record {
          base_book = recovered.1;
          withdrawer = recovered.0;
          front_runner = update_volume b.front_runner sold.1.filled_qty;
          last_front_runner_qty = front_run.1;
          last_depth_withdrawn = reaction.total_withdrawn;
          last_pre_fill_depth = total_bid_depth b.base_book;
        },
        sold.1,
      )

  unfoldable pub deduct : PriceLevel F → F → PriceLevel F
  unfolding fmax
  deduct l d = if nought <? d then record l { quantity = fmax (l.quantity ⊖ d) nought } else l

  unfoldable pub deduct_all : List (PriceLevel F) → List F → List (PriceLevel F)
  unfolding deduct
  deduct_all [] ds = []
  deduct_all (l ∷ ls) [] = l ∷ ls
  deduct_all (l ∷ ls) (d ∷ ds) = deduct l d ∷ deduct_all ls ds

  unfoldable pub update_book : AdversarialBook F → OrderBook F → AdversarialBook F
  unfolding deduct_all
  update_book b new_book = record b {
    base_book = record new_book {
      bids = deduct_all new_book.bids b.withdrawer.withdrawn_depth_per_level;
    };
  }

  unfoldable pub last_depth_withdrawn_pct : AdversarialBook F → F
  unfolding clamp
  last_depth_withdrawn_pct b =
      if b.last_pre_fill_depth ≤? nought
      then nought
      else clamp (b.last_depth_withdrawn ⊘ b.last_pre_fill_depth) nought one
