-- ===== src/Engine/Conn/Tests.antt =====
-- The laws of pairs at concrete endpoints.
use tcp_visr.Base.{◌≡◌, ◌⊎◌, true}
use tcp_visr.Core.Flow.{leq_endpoint}
use tcp_visr.Engine.Conn.{endpoint_pair}
use tcp_visr.Engine.Conn.Order.{endpoint_pair_canonical}
use tcp_visr.Engine.Fixtures.{client, server}

endpoint_pair_canonical_example :
    (endpoint_pair client server ≡ endpoint_pair server client)
    × (leq_endpoint (endpoint_pair client server).low (endpoint_pair client server).high ≡ true)
    × (((endpoint_pair client server).low ≡ client) × ((endpoint_pair client server).high ≡ server)
        ⊎ ((endpoint_pair client server).low ≡ server)
          × ((endpoint_pair client server).high ≡ client))
endpoint_pair_canonical_example = endpoint_pair_canonical client server
