-- ===== src/React.antt =====
-- The logic of the React components of packages/react.
pub mod Fill
pub mod Hooks
pub mod Localization
pub mod Appearance
pub mod Dismissal
pub mod Ownership
pub mod Navigation
pub mod Pill
pub mod Popover
pub mod Preferences
pub mod Rows
pub mod Session
pub mod Tabs
pub mod Time
