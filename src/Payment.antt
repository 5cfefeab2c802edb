-- ===== src/Payment.antt =====
-- Payments for ad packages: services/payment.service.go, services/momo.service.go,
-- services/package.service.go, repository/payment.repository.go, repository/package.repository.go
-- and their models.
pub mod Package
pub mod Transaction
pub mod Repository
pub mod Numbers
pub mod Query
pub mod Config
pub mod Settling
pub mod Vnpay
pub mod Momo
pub mod Service
pub mod Machine
pub mod Outcomes
pub mod Callbacks
pub mod Answers
pub mod Creation
pub mod Settled
pub mod Expiry
pub mod Finality
pub mod Current
pub mod History
pub mod Plans
pub mod Shop
pub mod Genuine
pub mod Amounts
pub mod Losses
pub mod Rounds
pub mod Downgrades
mod Tests
