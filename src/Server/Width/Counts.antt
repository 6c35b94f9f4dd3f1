-- ===== src/Server/Width/Counts.antt =====
-- The counts of the arrays of src/uds_periodic.c and src/uds_dynamic_did.c, over the life of a
-- controller.
use zephyr_uds.Base.{◌≤◌}
use zephyr_uds.DynamicDid
use zephyr_uds.Periodic
use zephyr_uds.Server.State.{Server}
use zephyr_uds.Server.Services
use zephyr_uds.Server.Machine

-- active_periodic_dids has five elements, and the entries of the dynamic map hold one in use.
abbrev pub IsCounted : {W : Type 0} → Server W → Type 0
IsCounted s = (s.periodic.active_did_count ≤ 5) × (s.dyn_map.entry_count ≤ 1)
