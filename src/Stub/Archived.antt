-- ===== src/Stub/Archived.antt =====
-- Reading an item in the archived view.
use chimely.Client.State.{Client}
