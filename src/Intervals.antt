-- ===== src/Intervals.antt =====
-- The sets of machines. The class IntervalSet comes from the intervalset library, which the
-- repository does not hold, so it is a parameter: its operations as `Intervals`, and what the
-- schedulers rely on, from that library's documentation, as `IntervalLaws`. `Masks` is a concrete
-- value of both.
pub mod Interface
pub mod Masks
pub mod Exclusive
