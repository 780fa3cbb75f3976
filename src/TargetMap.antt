-- ===== src/TargetMap.antt =====
-- pkg/targetmap/targetmap.go: the rules that rename a trace's targets. YAML is left out; url.Parse is
-- a parameter, and what it gives is the host and the path of a URL.
use ioflux.Prelude.{
  ℕ, List, String, Bool, cut_prefix, before_first, sort_stable, leb, ◌∷◌, ◌++◌, if◌then◌else◌,
  Option, true, ◌&&◌, none, trim_prefix, [], len, ◌==◌, some, ◌+◌, text_append, ◌||◌, is_nil, false,
  not, codes, string_eq, equal_lists, nat_eq,
}
pub mod Longest
pub mod Images
use ioflux.Trace.Types.{target_object, TargetInfo}

pub record Rule : Type 0 where
  pub from : String
  pub to : String

pub record TargetMap : Type 0 where
  pub rules : List Rule
  pub allow_passthrough : Bool

pub record EngineContext : Type 0 where
  pub engine_kind : String
  pub bucket : String

pub record Url : Type 0 where
  pub host : String
  pub path : String

pub data RewriteError : Type 0 where
  invalid_uri : String → RewriteError
  wrong_bucket : String → String → RewriteError
  no_rule : String → RewriteError

-- The more specific of two rules stays first; equal ones keep their order.
abbrev pub at_least_as_long : Rule → Rule → Bool
at_least_as_long r q = leb (len q.from) (len r.from)

unfoldable pub split_rules : List Rule → List Rule × List Rule
split_rules [] = ([], [])
split_rules (r ∷ rules) =
    let (specific, catch_all) = split_rules rules in
    if r.from == "" then (specific, r ∷ catch_all) else (r ∷ specific, catch_all)

unfoldable pub sorted_rules : List Rule → List Rule
unfolding split_rules sort_stable
sorted_rules rules =
    let (specific, catch_all) = split_rules rules in
    sort_stable at_least_as_long specific ++ catch_all

abbrev pub is_scheme_code : ℕ → Bool
is_scheme_code c =
    leb b'a' c && leb c b'z'
    || leb b'A' c && leb c b'Z'
    || leb b'0' c && leb c b'9'
    || c == b'+'
    || c == b'-'
    || c == b'.'

abbrev pub all_scheme_codes : List ℕ → Bool
all_scheme_codes [] = true
all_scheme_codes (c ∷ cs) = is_scheme_code c && all_scheme_codes cs

-- strings.ToLower, of an ASCII text.
abbrev pub to_lower : List ℕ → List ℕ
to_lower [] = []
to_lower (c ∷ cs) = (if leb b'A' c && leb c b'Z' then c + 32 else c) ∷ to_lower cs

abbrev pub checked_scheme : List ℕ → List ℕ
checked_scheme cs = if all_scheme_codes cs then to_lower cs else []

-- The codes of the scheme.
unfoldable pub uri_scheme : String → List ℕ
unfolding before_first
uri_scheme to = elim (before_first "://" to) [ none ↦ [] | some s ↦ checked_scheme (codes s) ]

-- The rule that applies first, with what follows its prefix in the name.
unfoldable pub first_match : List Rule → String → Option (Rule × String)
unfolding cut_prefix
first_match [] name = none
first_match (r ∷ rules) name = elim (cut_prefix r.from name) [
  | none ↦ first_match rules name
  | some suffix ↦ some (r, suffix)
]

pub data Rewritten : Type 0 where
  rewritten_to : TargetInfo → Rewritten
  not_matched : Rewritten
  rewrite_failed : RewriteError → Rewritten

pub data RewriteResult : Type 0 where
  mapped : List TargetInfo → List TargetInfo → RewriteResult
  rejected : RewriteError → RewriteResult

module _ (parse_url : String → Option Url) (ec : EngineContext) where
  abbrev pub object_named : String → TargetInfo → Rewritten
  object_named name tgt = rewritten_to (record tgt { name = name; kind = target_object })

  abbrev pub to_file : String → String → TargetInfo → Option Url → Rewritten
  to_file to suffix tgt none = rewrite_failed (invalid_uri to)
  to_file to suffix tgt (some u) = rewritten_to (record tgt { name = text_append u.path suffix })

  abbrev pub to_object : String → String → TargetInfo → Option Url → Rewritten
  to_object to suffix tgt none = rewrite_failed (invalid_uri to)
  to_object to suffix tgt (some u) = object_named (text_append (trim_prefix u.path "/") suffix) tgt

  abbrev pub to_bucket : String → String → TargetInfo → Option Url → Rewritten
  to_bucket to suffix tgt none = rewrite_failed (invalid_uri to)
  to_bucket to suffix tgt (some u) =
      if not (ec.bucket == "") && not (u.host == ec.bucket)
      then rewrite_failed (wrong_bucket u.host ec.bucket)
      else to_object to suffix tgt (some u)

  unfoldable pub rewrite_to : String → String → TargetInfo → Rewritten
  unfolding uri_scheme trim_prefix
  rewrite_to to suffix tgt =
      let scheme = uri_scheme to in
      if is_nil scheme
      then rewritten_to (record tgt { name = text_append to suffix })
      else if equal_lists scheme (codes "file")
      then to_file to suffix tgt (parse_url to)
      else if equal_lists scheme (codes "s3")
      then to_bucket to suffix tgt (parse_url to)
      else to_object to suffix tgt (parse_url to)

  unfoldable pub apply_rule : TargetInfo → Option (Rule × String) → Rewritten
  unfolding rewrite_to
  apply_rule tgt none = not_matched
  apply_rule tgt (some (r, suffix)) = rewrite_to r.to suffix tgt

  unfoldable pub apply_first : List Rule → TargetInfo → Rewritten
  unfolding first_match apply_rule
  apply_first rules tgt = apply_rule tgt (first_match rules tgt.name)

  abbrev pub cons_mapped : TargetInfo → List TargetInfo → RewriteResult → RewriteResult
  cons_mapped tgt missed (mapped out unmatched) = mapped (tgt ∷ out) (missed ++ unmatched)
  cons_mapped tgt missed (rejected why) = rejected why

  abbrev pub rewrite_one : Bool → TargetInfo → Rewritten → RewriteResult → RewriteResult
  rewrite_one passthrough tgt (rewritten_to out) rest = cons_mapped out [] rest
  rewrite_one true tgt not_matched rest = cons_mapped tgt (tgt ∷ []) rest
  rewrite_one false tgt not_matched rest = rejected (no_rule tgt.name)
  rewrite_one passthrough tgt (rewrite_failed why) rest = rejected why

  unfoldable pub rewrite_each : Bool → List Rule → List TargetInfo → RewriteResult
  unfolding apply_first
  rewrite_each passthrough rules [] = mapped [] []
  rewrite_each passthrough rules (tgt ∷ targets) =
      rewrite_one passthrough tgt (apply_first rules tgt) (rewrite_each passthrough rules targets)

  unfoldable pub rewrite : TargetMap → List TargetInfo → RewriteResult
  unfolding rewrite_each sorted_rules
  rewrite m targets = rewrite_each m.allow_passthrough (sorted_rules m.rules) targets
