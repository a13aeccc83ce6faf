-- ===== src/Ledger/Tests.antt =====
-- The theorems at work on one run: its submission, its waits, its control and its end.
mod Samples
mod OfWaits
mod OfEnsured
mod OfControl
mod OfAttempts
mod OfSubmissions
mod OfRuns
mod OfEvents
mod OfListings
mod OfRequests
mod OfLeases
mod OfInteractions
