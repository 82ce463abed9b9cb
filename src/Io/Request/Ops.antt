-- ===== src/Io/Request/Ops.antt =====
-- `IoRequest` and its member structs (src/io/io_request.h).
use qstorage.Prelude.{ℕ, Bool, Option, none, some, List}
use qstorage.Prelude.Words.{add64}

pub data IoRequestType : Type 0 where
  read readv write writev fdatasync recv recvmsg send sendmsg accept connect poll_add poll_remove :
      IoRequestType
  cancel : IoRequestType

-- `struct iovec` of <sys/uio.h>
pub record Iovec : Type 0 where
  pub base : ℕ
  pub len : ℕ

-- `read_op`, and `write_op`, which is the same struct
pub record ReadOp : Type 0 where
  pub op : IoRequestType
  pub nowait_works : Bool
  pub fd : ℕ
  pub pos : ℕ
  pub addr : ℕ
  pub size : ℕ

-- `readv_op` and `writev_op`
pub record ReadvOp : Type 0 where
  pub op : IoRequestType
  pub nowait_works : Bool
  pub fd : ℕ
  pub pos : ℕ
  pub iovecs : List Iovec

-- `recv_op` and `send_op`
pub record RecvOp : Type 0 where
  pub op : IoRequestType
  pub fd : ℕ
  pub addr : ℕ
  pub size : ℕ
  pub flags : ℕ

-- `recvmsg_op` and `sendmsg_op`; the message header is only pointed to
pub record RecvmsgOp : Type 0 where
  pub op : IoRequestType
  pub fd : ℕ
  pub msghdr : ℕ
  pub flags : ℕ

pub record FdatasyncOp : Type 0 where
  pub op : IoRequestType
  pub fd : ℕ

pub record AcceptOp : Type 0 where
  pub op : IoRequestType
  pub fd : ℕ
  pub sockaddr : ℕ
  pub socklen_ptr : ℕ
  pub flags : ℕ

pub record ConnectOp : Type 0 where
  pub op : IoRequestType
  pub fd : ℕ
  pub sockaddr : ℕ
  pub socklen : ℕ

pub record PollAddOp : Type 0 where
  pub op : IoRequestType
  pub fd : ℕ
  pub events : ℕ

-- `poll_remove_op` and `cancel_op` name the request that they withdraw by its user data.
pub record PollRemoveOp : Type 0 where
  pub op : IoRequestType
  pub fd : ℕ
  pub addr : ℕ

pub record CancelOp : Type 0 where
  pub op : IoRequestType
  pub fd : ℕ
  pub addr : ℕ

-- The union: the constructor says which member was written last.
-- The operations of the other direction have the same members.
abbrev pub SendOp : Type 0
SendOp = RecvOp

abbrev pub SendmsgOp : Type 0
SendmsgOp = RecvmsgOp

abbrev pub WriteOp : Type 0
WriteOp = ReadOp

abbrev pub WritevOp : Type 0
WritevOp = ReadvOp

pub data IoRequest : Type 0 where
  read_member : ReadOp → IoRequest
  readv_member : ReadvOp → IoRequest
  recv_member : RecvOp → IoRequest
  recvmsg_member : RecvmsgOp → IoRequest
  fdatasync_member : FdatasyncOp → IoRequest
  accept_member : AcceptOp → IoRequest
  connect_member : ConnectOp → IoRequest
  poll_add_member : PollAddOp → IoRequest
  poll_remove_member : PollRemoveOp → IoRequest
  cancel_member : CancelOp → IoRequest

-- `OpType` reads `cancel_.op`; the tag is the first field of every member.
unfoldable pub op_type : IoRequest → IoRequestType
op_type (read_member o) = o.op
op_type (readv_member o) = o.op
op_type (recv_member o) = o.op
op_type (recvmsg_member o) = o.op
op_type (fdatasync_member o) = o.op
op_type (accept_member o) = o.op
op_type (connect_member o) = o.op
op_type (poll_add_member o) = o.op
op_type (poll_remove_member o) = o.op
op_type (cancel_member o) = o.op

-- A read of `read_` or `readv_` while another member is active is undefined behaviour, `none`.
abbrev pub read_of : IoRequest → Option ReadOp
read_of (read_member o) = some o
read_of _ = none

abbrev pub readv_of : IoRequest → Option ReadvOp
readv_of (readv_member o) = some o
readv_of _ = none

-- `IoPart`
pub record IoPart : Type 0 where
  pub req : IoRequest
  pub size : ℕ
  pub iovecs : List Iovec

-- `SubReqBuffer(pos, len)`
unfoldable pub sub_req_buffer : ReadOp → ℕ → ℕ → IoRequest
sub_req_buffer o pos len = read_member (record {
  op = o.op;
  nowait_works = o.nowait_works;
  fd = o.fd;
  pos = add64 o.pos pos;
  addr = add64 o.addr pos;
  size = len;
})

-- `SubReqIovec(pos, iov)`
unfoldable pub sub_req_iovec : ReadvOp → ℕ → List Iovec → IoRequest
sub_req_iovec o pos iov = readv_member (record {
  op = o.op;
  nowait_works = o.nowait_works;
  fd = o.fd;
  pos = add64 o.pos pos;
  iovecs = iov;
})
