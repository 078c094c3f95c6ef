-- ===== src/Stub/Server.antt =====
-- class ServerStub of ServerStub.h and ServerStub.cpp. The stub is its link.
use pa.Prelude.{Bool, if◌then◌else◌, ℤ, from_word}
use pa.Machine.{Machine, buffer}
use pa.Buffer.{write, read}
use pa.Messages.Fields.{int_size}
use pa.Messages.Order
use pa.Messages.Order.{LaptopOrder}
use pa.Messages.Info
use pa.Messages.Info.{LaptopInfo}
use pa.Messages.Record
use pa.Messages.Record.{CustomerRecord}
use pa.Messages.Request
use pa.Messages.Request.{ReplicationRequest}
use pa.Socket.{Link, Outcome, done, ◌>>=◌, close, send, recv}

-- ServerStub::~ServerStub
abbrev pub destroy : Link → Link
destroy l = record l { socket = close l.socket }

-- ServerStub::isValid
abbrev pub is_valid : Link → Bool
is_valid l = l.socket.valid

-- ServerStub::ReceiveStatusInfo. The code is copied as the sender's memory held it; without one the
-- result is what `status_code` held.
unfoldable pub receive_status_info : Machine → Link → Outcome (ℤ × Link)
receive_status_info m l = do
  (ok, bytes, l1) ← recv l int_size
  let status = from_word (m.host.load (read (write (buffer m 32) 0 bytes) 0 int_size))
  done (if ok then status else m.junk, l1)

-- ServerStub::ReceiveOrderRequest
unfoldable pub receive_order_request : Machine → Link → Outcome (LaptopOrder × Link)
receive_order_request m l = do
  (ok, bytes, l1) ← recv l Order.size
  let order = Order.unmarshal m.host (write (buffer m 32) 0 bytes)
  done (if ok then order else Order.new, l1)

-- ServerStub::ReceiveReplicationRequest; `unset` is what the fields of `request` held.
unfoldable pub receive_replication_request :
    Machine → ReplicationRequest → Link → Outcome (ReplicationRequest × Link)
receive_replication_request m unset l = do
  (ok, bytes, l1) ← recv l Request.size
  let request = (Request.unmarshal m.host (write (buffer m 32) 0 bytes)).0
  done (if ok then request else unset, l1)

-- ServerStub::SendLaptop
unfoldable pub send_laptop : Machine → LaptopInfo → Link → Outcome (Bool × Link)
send_laptop m info l = send l (Info.marshal m.host info (buffer m 32)) Info.size

-- ServerStub::ReturnRecord
unfoldable pub return_record : Machine → CustomerRecord → Link → Outcome (Bool × Link)
return_record m r l = send l (Record.marshal m.host r (buffer m 32)) Record.size

-- ServerStub::SendReplicationResult
unfoldable pub send_replication_result : Machine → LaptopOrder → Link → Outcome (Bool × Link)
send_replication_result m order l = send l (Order.marshal m.host order (buffer m 32)) Order.size
