-- ===== src/Tests/Mapping.antt =====
-- Rules that move local shards to a bucket.
use ioflux.Prelude.{pos, List, String, Option, true, ◌∷◌, [], none, some}
use ioflux.TargetMap.{TargetMap, EngineContext, Rule, first_match, sorted_rules, Url}
use ioflux.Trace.Types.{target_file, target_object, TargetInfo}
use ioflux.TargetMap.Images.{Images}
use ioflux.TargetMap.Longest.{Chosen, longest_prefix}

abbrev pub no_url : String → Option Url
no_url s = none

abbrev parse_bucket : String → Option Url
parse_bucket s = some (record { host = "data"; path = "/train/" })

abbrev rules : List Rule
rules =
    record { from = "/"; to = "/mnt/" } ∷ record { from = "/data/"; to = "s3://data/train/" } ∷ []

abbrev to_s3 : EngineContext
to_s3 = record { engine_kind = "s3"; bucket = "data" }

abbrev local_file : TargetInfo
local_file = record { id = pos 0; name = "/data/a"; kind = target_file; size = pos 5 }

abbrev plain_file : TargetInfo
plain_file = record { id = pos 1; name = "b"; kind = target_file; size = pos 7 }

abbrev in_bucket : TargetInfo
in_bucket = record local_file { name = "train/a"; kind = target_object }

abbrev to_bucket_map : TargetMap
to_bucket_map = record { rules = rules; allow_passthrough = true }

longest_prefix_example : Chosen rules "/data/a" (first_match (sorted_rules rules) "/data/a")
longest_prefix_example = longest_prefix rules "/data/a"
