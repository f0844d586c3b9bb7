-- ===== src/Provision.antt =====
-- Provisioning in frontend/src/App.tsx: what the backend is asked, the task bar with its polling and its
-- cache in localStorage, and a project made from a template.
pub mod Backend
pub mod Task
mod Named
pub mod Cache
pub mod Create
mod Tests
