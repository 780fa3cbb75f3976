-- ===== src/Engine/Types.antt =====
-- pkg/engine/engine.go. A byte is a number. The interface `Engine` is a record of operations on the
-- state of an engine; a panic is `none`.
use ioflux.Prelude.{Bool, ℤ, String, false, true, List, ℕ, Option}
use ioflux.Trace.Types.{Mode}

-- nil, the sentinels, and any other error.
pub data EngineError : Type 0 where
  no_error unsupported not_found short_read short_write outside_root other_error : EngineError

abbrev pub is_nil_error : EngineError → Bool
is_nil_error no_error = true
is_nil_error _ = false

-- errors.Is(err, engine.ErrShortRead)
abbrev pub is_short_read : EngineError → Bool
is_short_read short_read = true
is_short_read _ = false

-- The bit mask, one field for each bit.
pub record OpenFlags : Type 0 where
  pub direct : Bool
  pub seq : Bool
  pub rand : Bool
  pub sync : Bool
  pub append : Bool
  pub create : Bool
  pub trunc : Bool

abbrev pub open_flag_none : OpenFlags
open_flag_none = record {
  direct = false;
  seq = false;
  rand = false;
  sync = false;
  append = false;
  create = false;
  trunc = false;
}

pub record Capabilities : Type 0 where
  pub seekable : Bool
  pub partial_write : Bool
  pub durable : Bool
  pub object_api : Bool
  pub multipart : Bool
  pub os_page_cache : Bool

pub record ObjectInfo : Type 0 where
  pub name : String
  pub size : ℤ

-- The results of Read and Get: the count, the error and the buffer afterwards.
pub record Transfer : Type 0 where
  pub count : ℤ
  pub err : EngineError
  pub buffer : List ℕ

pub record Engine (S : Type 0) : Type 0 where
  pub caps : Capabilities
  pub open_target : String → Mode → OpenFlags → S → Option (S × ℤ × EngineError)
  pub read : ℤ → ℤ → ℤ → List ℕ → S → Option (S × Transfer)
  pub write : ℤ → ℤ → List ℕ → S → Option (S × ℤ × EngineError)
  pub fsync : ℤ → S → Option (S × EngineError)
  pub close : ℤ → S → Option (S × EngineError)
  pub stat : String → S → Option (S × ObjectInfo × EngineError)
  pub put : String → List ℕ → ℤ → S → Option (S × EngineError)
  pub get : String → ℤ → ℤ → List ℕ → S → Option (S × Transfer)
  pub head : String → S → Option (S × ObjectInfo × EngineError)
  pub delete : String → S → Option (S × EngineError)
