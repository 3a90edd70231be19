-- ===== src/Tests/Slots.antt =====
-- The slots of source/net_worker.hpp, at a worker with two of them.
use f1985gfw.Base.{◌≡◌, true, none, [], ◌∷◌, fault, null_pointer, arith}
use f1985gfw.Worker.State.{Net, World, Hooks}
use f1985gfw.Worker.Slot.{init}
use f1985gfw.Worker.Pool.{IsTable, free_slots, init-IsTable}
use f1985gfw.Worker.Exhaustion.{fail_accepts, fail_accepts-null}
use f1985gfw.Tests.Memory.{plain}

abbrev pub two_slots : Net
two_slots = init plain 16 5 2

-- The two slots, all free.
two_slots-IsTable : IsTable two_slots.pointers × (free_slots two_slots.pointers ≡ 2)
two_slots-IsTable = init-IsTable plain 16 5 2

abbrev no_hooks : Hooks (Unit {0})
no_hooks = record { msg_handlers = []; connect_handler = none; disconnect_handler = none }

abbrev two_world : World (Unit {0})
two_world = record { net = two_slots; app = tt }

fail_accepts-null_example :
    fail_accepts no_hooks true (1 ∷ 2 ∷ 0 ∷ []) two_world ≡ fault null_pointer
fail_accepts-null_example =
    fail_accepts-null no_hooks true (1 ∷ 2 ∷ 0 ∷ []) two_world two_slots-IsTable.0
      (omega (arith, two_slots-IsTable.1))
