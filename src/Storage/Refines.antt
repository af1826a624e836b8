-- ===== src/Storage/Refines.antt =====
-- The body store of packages/core/decrypt0rx_core/storage.py as a map from paths to bodies: any sequence of
-- calls, and what is read after it.
use decrypt0r_x.Text.{Text}
