-- ===== src/Central.antt =====
-- `CentralModeThread` of BLE_Scanner/src/CentralModeThread.c: scanning for the peripheral,
-- connecting to it, and bonding. `State` has the state, `Calls` the functions that the thread
-- calls, `Loop` the thread; the others prove what it does.
pub mod State
pub mod Calls
pub mod Loop
pub mod Reach
pub mod Scan
pub mod Link
pub mod Wait
pub mod Connect
pub mod Answers
pub mod Asks
