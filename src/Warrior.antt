-- ===== src/Warrior.antt =====
-- internal/commentwarrior: which discussions are answered, and what a decision does.
mod Tests
pub mod Classifier
pub mod Decision
pub mod Filter
pub mod Task
pub mod Posted
