-- ===== src/Tests.antt =====
-- Runs at concrete inputs: that the hypotheses of the theorems can hold, and tests.
pub mod Guests
pub mod Machine
pub mod Interrupts
pub mod Headers
pub mod Values
pub mod Service
pub mod Strings
pub mod Texts
pub mod Assembler
pub mod Loaded
pub mod Loads
pub mod Labels
pub mod Lines
pub mod Numbers
pub mod Pages
pub mod Programs
pub mod Reports
pub mod Runner
pub mod Names
