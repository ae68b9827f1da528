-- ===== src/Tests.antt =====
-- Runs of the model at concrete inputs, and each theorem at an input that meets its hypotheses.
mod Bank
mod Code
mod Epoch
mod EpochCalls
mod Guard
mod LockBank
mod Lock
mod OptimisticList
mod Pessimistic
mod Postgres
mod Racing
mod SortedList
mod Threads
mod Total
