-- ===== src/Ctl.antt =====
-- cmd/federloomctl: the commands of the operator. The flags of a command are parsed by Go's `flag`
-- and are arguments; what a command prints is not modelled.
pub mod Federation
pub mod Identity
pub mod Trust
pub mod Whitelist
