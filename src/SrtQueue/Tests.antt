-- ===== src/SrtQueue/Tests.antt =====
-- The queue of tasks on concrete queues.
