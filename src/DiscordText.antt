-- ===== src/DiscordText.antt =====
-- The text of a Discord message: apps/discord-adapter/src/lilavel_discord_edge/semantic.py, and
-- `split_discord_content` of transport.py beside it.
pub mod Boundaries
pub mod Split
pub mod Select
pub mod Cuts
pub mod SplitLaws
pub mod Total
pub mod SelectLaws
pub mod Best
pub mod Markdown
pub mod Repair
pub mod Tests
