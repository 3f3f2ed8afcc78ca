-- ===== src/Capacity.antt =====
-- resource_capacity.py: the container's memory reading, and the admission of browser sessions.
pub mod Cgroup
pub mod Controller
