-- ===== src/Access.antt =====
-- Who may call what: src/common/auth, src/common/guards and
-- src/modules/auth/strategies/jwt.strategy.ts.
pub mod Roles
pub mod Guards
pub mod LastSeen
