-- ===== src/Messages/Request.antt =====
-- struct MapOp and class ReplicationRequest of Messages.h and Messages.cpp. The getters are the
-- fields.
use pa.Prelude.{ℕ, ◌+◌, List, Bool, ℤ, pos, eq_int, from_word}
use pa.Host.{Host}
use pa.Messages.Fields.{int_size, put_field, get_field, net_field}

pub record MapOp : Type 0 where
  pub opcode : ℤ
  pub arg1 : ℤ
  pub arg2 : ℤ

pub record ReplicationRequest : Type 0 where
  pub vid : ℤ
  pub factory_id : ℤ
  pub committed_index : ℤ
  pub last_index : ℤ
  pub operation : MapOp

-- The constructor sets every field but `vid`, which holds what the memory held, here `junk`.
abbrev pub make : (junk : ℤ) → ℤ → ℤ → ℤ → MapOp → ReplicationRequest
make junk factory_id committed_index last_index operation = record {
  vid = junk;
  factory_id = factory_id;
  committed_index = committed_index;
  last_index = last_index;
  operation = operation;
}

-- ReplicationRequest::Size
abbrev pub size : ℕ
size = int_size + int_size + int_size + int_size + (int_size + int_size + int_size)

-- ReplicationRequest::Marshal: the buffer, and the object with its `vid` set. The lines behind the
-- copies print what the buffer holds.
unfoldable pub marshal : Host → ReplicationRequest → List ℕ → ReplicationRequest × List ℕ
marshal host r0 buffer0 =
    let r = record r0 { vid = pos 1 } in
    let buffer1 = put_field host buffer0 0 r.vid in
    let buffer2 = put_field host buffer1 4 r.factory_id in
    let buffer3 = put_field host buffer2 8 r.committed_index in
    let buffer4 = put_field host buffer3 12 r.last_index in
    let buffer5 = put_field host buffer4 16 r.operation.opcode in
    let buffer6 = put_field host buffer5 20 r.operation.arg1 in
    (r, put_field host buffer6 24 r.operation.arg2)

-- ReplicationRequest::Unmarshal, with its result 2. It takes `vid` through `htonl`.
unfoldable pub unmarshal : Host → List ℕ → ReplicationRequest × ℤ
unmarshal host buffer = (
  record {
    vid = from_word (host.htonl (net_field host buffer 0));
    factory_id = get_field host buffer 4;
    committed_index = get_field host buffer 8;
    last_index = get_field host buffer 12;
    operation = record {
      opcode = get_field host buffer 16;
      arg1 = get_field host buffer 20;
      arg2 = get_field host buffer 24;
    };
  },
  pos 2,
)

-- ReplicationRequest::IsValid
unfoldable pub is_valid : ReplicationRequest → Bool
is_valid r = eq_int r.vid (pos 1)
