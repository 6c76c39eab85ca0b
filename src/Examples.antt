-- ===== src/Examples.antt =====
-- Runs of the definitions on concrete inputs, and each theorem applied where its hypotheses hold.
pub mod Fixture
mod Small
mod Receiving
mod Sending
mod Hellos
mod Serving
mod Connecting
