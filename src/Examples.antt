-- ===== src/Examples.antt =====
-- Each theorem of the list in Lib.antt at concrete inputs, in decimal fixed point.
mod Data
mod Queue
mod Risk
mod Book
mod Vpin
mod Sellers
mod Limits
mod Strategies
mod Execution
mod Loop
mod Replay
mod Env
mod Accounts
