-- ===== src/Message.antt =====
-- common/message.h and the classification of message types in frame/communicator.cc.
-- A message is generic in what its blobs hold. `header_[0..4]` are the fields; `header_[5..7]` are
-- never set or read by name. Ranks, table ids and message ids are not negative.
pub mod Routing
pub mod Wire
mod Tests
use ddls.Prelude.{ℕ, List, [], ◌++◌, ◌∷◌}
use ddls.Prelude.Int.{ℤ, pos, negsuc, neg}

pub record Message {ℓ} (B : Type ℓ) : Type ℓ where
  pub src : ℕ
  pub dst : ℕ
  pub type : ℤ
  pub table_id : ℕ
  pub msg_id : ℕ
  pub blobs : List B

-- enum MsgType
abbrev pub request_get : ℤ
request_get = pos 1

abbrev pub request_add : ℤ
request_add = pos 2

abbrev pub load_model : ℤ
load_model = pos 29

abbrev pub store_model : ℤ
store_model = pos 30

abbrev pub server_finish_train : ℤ
server_finish_train = pos 31

abbrev pub control_barrier : ℤ
control_barrier = pos 33

abbrev pub control_register : ℤ
control_register = pos 34

abbrev pub reply_get : ℤ
reply_get = neg request_get

abbrev pub reply_add : ℤ
reply_add = neg request_add

abbrev pub control_reply_barrier : ℤ
control_reply_barrier = neg control_barrier

abbrev pub control_reply_register : ℤ
control_reply_register = neg control_register

module _ {ℓ} {B : Type ℓ} where
  unfoldable pub create_reply_message : Message B → Message B
  create_reply_message m = record {
    src = m.dst;
    dst = m.src;
    type = neg m.type;
    table_id = m.table_id;
    msg_id = m.msg_id;
    blobs = [];
  }

  unfoldable pub push : Message B → B → Message B
  push m b = record m { blobs = m.blobs ++ b ∷ [] }
