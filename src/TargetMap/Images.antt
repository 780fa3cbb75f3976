-- ===== src/TargetMap/Images.antt =====
-- pkg/targetmap/targetmap.go: what a rewritten table holds.
use ioflux.Prelude.{String, Option, ◌≡◌, ◌⊎◌, some, List, none, true, string_eq, nat_eq, ◌∷◌, []}
use ioflux.TargetMap.{
  rewritten_to, Rewritten, Url, EngineContext, TargetMap, rewrite_to, first_match, sorted_rules,
  Rule, mapped, not_matched, rejected, rewrite_failed, RewriteResult,
}
use ioflux.Trace.Types.{target_object, TargetInfo}

-- A rule leaves the id and the size, and the kind unless it makes the target an object.
abbrev pub Keeps : TargetInfo → TargetInfo → Type 0
Keeps tgt out =
    (out.id ≡ tgt.id) × (out.size ≡ tgt.size) × ((out.kind ≡ tgt.kind) ⊎ (out.kind ≡ target_object))

abbrev pub KeepsIf : TargetInfo → Rewritten → Type 0
KeepsIf tgt (rewritten_to out) = Keeps tgt out
KeepsIf tgt not_matched = ⊥
KeepsIf tgt (rewrite_failed why) = Unit

module _ (parse_url : String → Option Url) (ec : EngineContext) where
  -- The target as it was, where no rule matches and the map lets it pass, or what the matching rule
  -- makes of it.
  abbrev pub Image : TargetMap → TargetInfo → TargetInfo → Type 0
  Image m tgt out =
      (first_match (sorted_rules m.rules) tgt.name ≡ none)
        × (m.allow_passthrough ≡ true)
        × (out ≡ tgt)
      ⊎ ((r : Rule) × (suffix : String) × (first_match (sorted_rules m.rules) tgt.name
            ≡ some (r, suffix))
          × (rewrite_to parse_url ec r.to suffix tgt ≡ rewritten_to out)
          × Keeps tgt out)

  abbrev pub Images : TargetMap → List TargetInfo → List TargetInfo → Type 0
  Images m [] [] = Unit
  Images m (tgt ∷ targets) (out ∷ outs) = Image m tgt out × Images m targets outs
  Images m [] (_ ∷ _) = ⊥
  Images m (_ ∷ _) [] = ⊥

  abbrev ImagesIf : TargetMap → List TargetInfo → RewriteResult → Type 0
  ImagesIf m targets (mapped outs missed) = Images m targets outs
  ImagesIf m targets (rejected why) = Unit

  abbrev ImageIf : TargetMap → TargetInfo → Rewritten → Type 0
  ImageIf m tgt (rewritten_to out) = Image m tgt out
  ImageIf m tgt not_matched = first_match (sorted_rules m.rules) tgt.name ≡ none
  ImageIf m tgt (rewrite_failed why) = Unit
