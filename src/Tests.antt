-- ===== src/Tests.antt =====
-- Runs of the definitions on inputs of the repository's tests, and the witnesses.
mod Workspaces
mod Commands
mod Messages
mod Prompts
mod Hashing
mod Limits
mod Inputs
mod Editing
mod Tools
mod Requests
mod Calls
mod Profiles
mod Workers
mod Settings
mod Servers
