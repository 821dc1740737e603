-- ===== src/Examples.antt =====
-- Tests of the definitions on concrete inputs, and the theorems at concrete inputs.
mod Routing
mod Guarding
mod Serving
mod Bodies
mod Tokens
mod Actions
mod Starting
mod Publishing
mod Jars
mod Streaming
mod Pages
mod Calls
mod Channels
