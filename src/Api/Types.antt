-- ===== src/Api/Types.antt =====
-- internal/api/types.go, with JSON decoding left out: a record per body.
use koala_v.Prelude.{ℤ, Text, Table, Bool, Option}
use koala_v.Engine.Message.{Response}

-- The fields of the body of a browse or of an update, and of EngineRequest, which has the same.
pub record ApiRequest : Type 0 where
  pub act : Text
  pub uid : Text
  pub ip : Text
  pub did : Text
  pub ext : Table Text
  pub update : Bool

pub record ApiResponse : Type 0 where
  pub allowed : Bool
  pub code : ℤ
  pub message : Text
  pub rule_name : Text
  pub auth_type : ℤ

pub record BatchItem : Type 0 where
  pub id : Text
  pub act : Text
  pub uid : Text
  pub ip : Text
  pub did : Text
  pub ext : Table Text

pub record BatchResult : Type 0 where
  pub id : Text
  pub allowed : Bool
  pub code : ℤ
  pub message : Text
  pub rule_name : Text
  pub auth_type : ℤ

-- The interface Engine that the handlers call, over the state that the engine changes.
pub record EngineApi (S Err : Type 0) : Type 0 where
  pub browse : ApiRequest → S → Option Response × Option Err × S
  pub update : ApiRequest → S → Option Err × S
