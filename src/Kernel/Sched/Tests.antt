-- ===== src/Kernel/Sched/Tests.antt =====
-- The theorems about the scheduler at the small kernel.
