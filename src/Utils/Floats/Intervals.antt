-- ===== src/Utils/Floats/Intervals.antt =====
-- The unpacking of a timestamp as a time interval.
use cwpack.Unpack.Source.{Source}
