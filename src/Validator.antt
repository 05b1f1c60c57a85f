-- ===== src/Validator.antt =====
-- mempool/validator.go: the checks that the token chain registers with the transaction validator,
-- and what each accepts.
pub mod Check
pub mod Outputs
pub mod References
pub mod Registration
pub mod Precision
pub mod Payload
pub mod Balance
