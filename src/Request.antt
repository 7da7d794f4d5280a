-- ===== src/Request.antt =====
-- The fields that the sources use of the etcdserverpb requests and responses. A []byte that the code
-- compares with nil is an Option; an int64 that the code only asks to be positive is a natural
-- number, 0 for what is not positive; of a response header only the revision is kept.
use cloudetcd.Base.{ℕ, Bytes, Bool, List, Option}
use cloudetcd.Event.{KeyValue}

pub record PutRequest : Type 0 where
  pub key : Bytes
  pub value : Bytes
  pub lease : ℕ
  pub prev_kv : Bool

pub record DeleteRangeRequest : Type 0 where
  pub key : Bytes
  pub range_end : Option Bytes

pub record RangeRequest : Type 0 where
  pub key : Option Bytes
  pub range_end : Option Bytes
  pub revision : ℕ
  pub limit : ℕ
  pub count_only : Bool
  pub keys_only : Bool

-- What a compare looks at; `other` is any other enumerator.
pub data CompareTarget : Type 0 where
  mod_target : CompareTarget
  version_target : CompareTarget
  lease_target : CompareTarget
  other_target : CompareTarget

pub data CompareResult : Type 0 where
  equal : CompareResult
  other_result : CompareResult

pub data TargetUnion : Type 0 where
  mod_revision : ℕ → TargetUnion
  version : ℕ → TargetUnion
  lease : ℕ → TargetUnion
  other_union : TargetUnion

pub record Compare : Type 0 where
  pub key : Bytes
  pub target : CompareTarget
  pub result : CompareResult
  pub target_union : TargetUnion

pub data RequestOp : Type 0 where
  request_put : PutRequest → RequestOp
  request_delete_range : DeleteRangeRequest → RequestOp
  request_range : RangeRequest → RequestOp
  other_request : RequestOp

pub record TxnRequest : Type 0 where
  pub compare : List Compare
  pub success : List RequestOp
  pub failure : List RequestOp

pub record PutResponse : Type 0 where
  pub header : Option ℕ
  pub prev_kv : Option KeyValue

pub record DeleteRangeResponse : Type 0 where
  pub header : Option ℕ
  pub deleted : ℕ

pub record RangeResponse : Type 0 where
  pub header : Option ℕ
  pub kvs : List KeyValue
  pub count : ℕ
  pub more : Bool

pub data ResponseOp : Type 0 where
  response_put : PutResponse → ResponseOp
  response_delete_range : DeleteRangeResponse → ResponseOp
  response_range : RangeResponse → ResponseOp

pub record TxnResponse : Type 0 where
  pub header : ℕ
  pub succeeded : Bool
  pub responses : List ResponseOp
