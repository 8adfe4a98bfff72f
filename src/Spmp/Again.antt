-- ===== src/Spmp/Again.antt =====
-- What the cache of `do_phy_address_check` answers behind an access that was granted.
use rvvp.Spmp.Region.{Region}
