-- ===== src/Tests/Streams.antt =====
-- Stream ids (proto/machine.py) at concrete inputs.
use xrdclient.Prelude.{◌≡◌, refl, arith, true, false, [], ◌∷◌, replicate}
use xrdclient.Errors.{Bytes, ok}
use xrdclient.Machine.Types.{Machine}
use xrdclient.Machine.Streams.{in_use, acquire_sid, lease_sids}
use xrdclient.Machine.Outbound.{submit, start}
use xrdclient.Machine.Inbound.{receive_data}
use xrdclient.Machine.Ids
use xrdclient.Machine.Ids.Acquire.{IsFresh, Keeps, acquire_sid-IsFresh}
use xrdclient.Machine.Ids.Lease.{Leases, lease_sids-Leases}
use xrdclient.Machine.Ids.Outbound.{Submits}
use xrdclient.Machine.Ids.Inbound.{receive_data-Keeps}
use xrdclient.Machine.Ids.Runs.{Call, step, step-IsApart, Reach, Reach-Submits}
use xrdclient.Tests.{new_link, up, write_request}

up-IsApart : Ids.IsApart up
up-IsApart x = ground arith

-- the replies to the handshake, to kXR_protocol and to kXR_login
abbrev replies : Bytes
replies =
    0
    ∷ 0
    ∷ 0
    ∷ 0
    ∷ 0
    ∷ 0
    ∷ 0
    ∷ 8
    ∷ 0
    ∷ 0
    ∷ 5
    ∷ 0
    ∷ 0
    ∷ 0
    ∷ 0
    ∷ 1
    ∷ 0
    ∷ 1
    ∷ 0
    ∷ 0
    ∷ 0
    ∷ 0
    ∷ 0
    ∷ 8
    ∷ 0
    ∷ 0
    ∷ 5
    ∷ 0
    ∷ 0
    ∷ 0
    ∷ 0
    ∷ 1
    ∷ 0
    ∷ 2
    ∷ 0
    ∷ 0
    ∷ 0
    ∷ 0
    ∷ 0
    ∷ 16
    ∷ replicate 16 7

-- a session that came up, and leased two ids
abbrev in_service : Machine
in_service = step (Call.leases 2) (step (Call.receives replies 0) (step Call.starts new_link))

in_service-Reach : Reach new_link in_service
in_service-Reach =
    Reach.after (Call.leases 2) tt
      (Reach.after (Call.receives replies 0) tt (Reach.after Call.starts tt Reach.here))

Reach-Submits_example :
    Submits write_request [] in_service (submit write_request [] true in_service)
Reach-Submits_example = Reach-Submits write_request [] true in_service-Reach

-- It hands out the id behind the two that are leased.
submits : (submit write_request [] true in_service).0 ≡ ok 6
unfolding submit step lease_sids receive_data start
submits = refl

step-IsApart_example : Ids.IsApart (step (Call.abandons 4) up)
step-IsApart_example = step-IsApart (Call.abandons 4) up tt up-IsApart

acquired : (acquire_sid up).0 ≡ ok 6
unfolding acquire_sid
acquired = refl

acquire_sid-IsFresh_example : IsFresh 6 (acquire_sid up).1 × (in_use 6 up ≡ false)
acquire_sid-IsFresh_example = acquire_sid-IsFresh up 6 up-IsApart acquired

lease_sids-Leases_example : Leases 3 (lease_sids 3 up)
lease_sids-Leases_example = lease_sids-Leases 3 up up-IsApart

receive_data-Keeps_example : Keeps up (receive_data (0 ∷ 4 ∷ 0 ∷ 0 ∷ 0 ∷ 0 ∷ 0 ∷ 0 ∷ []) 0 up).1
receive_data-Keeps_example = receive_data-Keeps (0 ∷ 4 ∷ 0 ∷ 0 ∷ 0 ∷ 0 ∷ 0 ∷ 0 ∷ []) 0 up
