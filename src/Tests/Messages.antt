-- ===== src/Tests/Messages.antt =====
-- Messages between a little-endian and a big-endian machine.
use pa.Prelude.{ℕ, ◌≡◌, List, [], ◌++◌, take, replicate, arith}
use pa.Host.Orders.{little_host, big_host}
use pa.Messages.Request
use pa.Messages.RoundTrip.{sent}
use pa.Messages.Transport.{request_transport}
use pa.Tests.Data.{a_request}

abbrev buffer : List ℕ
buffer = replicate 32 9

request_transport_example :
    (Request.unmarshal big_host
      (take Request.size (Request.marshal little_host a_request buffer).1 ++ [])).0
    ≡ sent a_request
request_transport_example =
    request_transport little_host big_host a_request buffer [] (omega arith) (omega arith)
