-- ===== src/Generate.antt =====
-- cmd/sendit/generate.go: targets out of crawls, files and browser data.
pub mod Url
pub mod Robots
pub mod Page
pub mod Targets
pub mod Crawl
pub mod Emit
pub mod Command
pub mod Ready
pub mod Browser
pub mod Sources
