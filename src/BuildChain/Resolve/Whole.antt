-- ===== src/BuildChain/Resolve/Whole.antt =====
-- What `resolve_build_chain` of services/build_chain.py returns, and that it returns.
use eve_build.Prelude.{
  ℕ, ◌+◌, ◌≡◌, refl, Bool, true, Option, List, [], ◌∷◌, nat_eq, is_some, arith, contains, All, ap,
  ◌∙◌, sym, get_or, IsUnique,
}
use eve_build.Prelude.Dict.{Dict, lookup, AllEntries-lookup}
use eve_build.Prelude.Exc.{ok, >>=-eq-ok, ok-injective, Returns, >>=-Returns}
use eve_build.Prelude.Sort.{IsSortedBy}
use eve_build.External.Float.{FloatArith}
use eve_build.External.Mongo.{Collection}
use eve_build.External.Find.{Finds}
use eve_build.External.Redis.{Redis}
use eve_build.Cache.Documents.{type_docs, add_docs}
use eve_build.Prices.{PriceDoc, price_id, list_market_prices}
use eve_build.BuildChain.Recipe.{SdeDb}
use eve_build.BuildChain.Walk.{Request, Walk, walk}
use eve_build.BuildChain.Conservation.{consumed, made, ordered, walk_conserves}
use eve_build.BuildChain.Raw.{IsProductive, walk-Returns, walk-IsListed}
use eve_build.BuildChain.Shape.{walk-AreSteps}
use eve_build.BuildChain.Order.{topological_order}
use eve_build.BuildChain.Order.Visit.{topological_order-IsBuildOrder}
use eve_build.BuildChain.Order.Fuel.{topological_order-Ends}
use eve_build.BuildChain.Order.Before.{has_step, IsBuildOrder, IsAcyclic, ids}
use eve_build.BuildChain.Aggregate.{RawMaterial, BuildResolution}
use eve_build.BuildChain.Aggregate.Totals.{total_of}
use eve_build.BuildChain.Resolve.{
  TypeDoc, type_doc_id, name_steps, raw_materials_of, resolution_of, all_type_ids,
  resolve_build_chain,
}
use eve_build.BuildChain.Resolve.Parts.{
  raw_materials_of-listed, raw_materials_of-Returns, IsBuildOrder-name_steps, has_step-name_steps,
  name_steps-found, IsAcyclic-name_steps, IsNamed, IsStepOf-name_steps,
}

-- Every key of the totals has a flag.
flagged_items :
    (totals : Dict ℕ ℕ) (flags : Dict ℕ Bool)
    → ((k : ℕ) → is_some (lookup k totals) ≡ true → is_some (lookup k flags) ≡ true)
    → All (λ item. is_some (lookup item.0 flags) ≡ true) totals
flagged_items [] flags h = tt
flagged_items ((k, n) ∷ totals) flags h =
    (h k (ground arith), flagged_items totals flags (λ j found. h j (ground (arith, found))))

module _ (F : FloatArith) (db : SdeDb) {types : Collection ℕ TypeDoc type_doc_id}
    (type_finds : Finds types) (redis : Redis TypeDoc)
    {market_prices : Collection ℕ (PriceDoc (FloatArith.Float F)) price_id}
    (price_finds : Finds market_prices) (s : Collection.Store types)
    (prices : Collection.Store market_prices) (ttl : ℕ) (req : Request (FloatArith.Float F))
    (cache : Option (Redis.Cache redis)) where
  resolution_of-Returns :
      (docs : Dict ℕ TypeDoc) (found : Dict ℕ (PriceDoc (FloatArith.Float F))) (w : Walk F)
      → walk F db req ≡ ok w
      → Returns (resolution_of F docs found req w)
  unfolding resolution_of
  resolution_of-Returns docs found w e =
      let listed = walk-IsListed F db req w e in
      >>=-Returns (raw_materials_of F docs found w.raw_buildable w.raw_totals) _
        (raw_materials_of-Returns F docs found w.raw_buildable w.raw_totals
          (flagged_items w.raw_totals w.raw_buildable (λ k known. listed.flagged k ∙ known)))
        (λ materials. (_, refl))

  abbrev pub docs_for : Walk F → Dict ℕ TypeDoc
  docs_for w = (type_docs types type_finds redis s ttl (all_type_ids F req w) cache).0

  abbrev prices_for : Walk F → Dict ℕ (PriceDoc (FloatArith.Float F))
  prices_for w = add_docs price_id (list_market_prices price_finds (all_type_ids F req w) prices) []

  -- Unless some recipe claims to make nothing, `resolve_build_chain` returns: it neither divides by
  -- zero nor misses the buildable flag of a raw material.
  pub resolve_build_chain-Returns :
      IsProductive F db req
      → Returns (resolve_build_chain F db type_finds redis price_finds s prices ttl req cache)
  unfolding resolve_build_chain
  resolve_build_chain-Returns productive =
      let (w, e) = walk-Returns F db req productive in
      rw e (
        >>=-Returns (resolution_of F (docs_for w) (prices_for w) req w) _
          (resolution_of-Returns (docs_for w) (prices_for w) w e) (λ resolution. (_, refl)))

  steps-ordered :
      (docs : Dict ℕ TypeDoc) (w : Walk F) (rank : ℕ → ℕ)
      → walk F db req ≡ ok w
      → IsAcyclic w.steps_by_type_id rank
      → let l =
          get_or (topological_order req.target_type_id (name_steps docs w.steps_by_type_id)) [] in
        All (IsNamed docs w.steps_by_type_id) l
        × IsUnique (ids l)
        × (has_step w.steps_by_type_id req.target_type_id ≡ true
            → contains req.target_type_id (ids l) ≡ true)
        × IsBuildOrder w.steps_by_type_id [] l
  steps-ordered docs w rank e falls =
      let steps = w.steps_by_type_id in
      let (l, found) = topological_order-Ends req.target_type_id (name_steps docs steps) in
      let order =
        topological_order-IsBuildOrder (name_steps docs steps) rank
          (IsAcyclic-name_steps docs steps rank falls)
          (λ k step' e'.
            let (step, at_k, same) = name_steps-found docs steps k step' e' in
            let (recipe, is_step, runs) =
              AllEntries-lookup _ k step steps (walk-AreSteps F db req w e) at_k in
            rw same is_step.id)
          req.target_type_id found in
      rw found (
        IsStepOf-name_steps docs steps l order.0,
        order.1,
        λ known. order.2 (has_step-name_steps docs steps req.target_type_id ∙ known),
        IsBuildOrder-name_steps docs steps [] l order.3,
      )

  abbrev pub wanted : ℕ → List (RawMaterial (FloatArith.Float F)) → ℕ
  wanted = total_of (λ material. material.type_id) (λ material. material.quantity)

  resolution_of_lem :
      (docs : Dict ℕ TypeDoc) (found : Dict ℕ (PriceDoc (FloatArith.Float F))) (w : Walk F)
      (rank : ℕ → ℕ) (r : BuildResolution (FloatArith.Float F))
      → walk F db req ≡ ok w
      → IsAcyclic w.steps_by_type_id rank
      → resolution_of F docs found req w ≡ ok r
      → IsSortedBy (λ material. material.name) r.raw_materials
        × ((t : ℕ)
            → consumed t w.steps_by_type_id + ordered F db req t
              ≡ wanted t r.raw_materials + made t w.steps_by_type_id)
        × All (IsNamed docs w.steps_by_type_id) r.steps
        × IsUnique (ids r.steps)
        × (r.is_buildable ≡ true → contains req.target_type_id (ids r.steps) ≡ true)
        × IsBuildOrder w.steps_by_type_id [] r.steps
  unfolding resolution_of
  resolution_of_lem docs found w rank r e falls returned =
      let (materials, listing, last) =
        >>=-eq-ok (raw_materials_of F docs found w.raw_buildable w.raw_totals) _ returned in
      let listed =
        raw_materials_of-listed F docs found w.raw_buildable w.raw_totals materials listing in
      let order = steps-ordered docs w rank e falls in
      rw (← ok-injective last) (
        listed.0,
        λ t. omega (arith, walk_conserves F db req t w e, listed.1 t),
        order.0,
        order.1,
        order.2,
        order.3,
      )

  -- Where no step of the walk needs itself, a resolution lists the raw materials in the order of their
  -- names, and together with the steps' output they cover exactly what the steps use and what was
  -- ordered. Each step that it lists is the step of the walk under its type, with the name that the
  -- documents give it; none is listed twice, the target's is listed if it is buildable, and each one
  -- stands after the steps of its materials.
  pub resolve_build_chain_lem :
      (w : Walk F) (rank : ℕ → ℕ) (r : BuildResolution (FloatArith.Float F))
      (cache' : Option (Redis.Cache redis))
      → walk F db req ≡ ok w
      → IsAcyclic w.steps_by_type_id rank
      → resolve_build_chain F db type_finds redis price_finds s prices ttl req cache
        ≡ ok (r, cache')
      → IsSortedBy (λ material. material.name) r.raw_materials
        × ((t : ℕ)
            → consumed t w.steps_by_type_id + ordered F db req t
              ≡ wanted t r.raw_materials + made t w.steps_by_type_id)
        × All (IsNamed (docs_for w) w.steps_by_type_id) r.steps
        × IsUnique (ids r.steps)
        × (r.is_buildable ≡ true → contains req.target_type_id (ids r.steps) ≡ true)
        × IsBuildOrder w.steps_by_type_id [] r.steps
  unfolding resolve_build_chain
  resolve_build_chain_lem w rank r cache' e falls returned =
      let (v, walked, later) = >>=-eq-ok (walk F db req) _ returned in
      let same : v ≡ w = ok-injective (sym walked ∙ e) in
      let (r', resolved, last) =
        >>=-eq-ok (resolution_of F (docs_for v) (prices_for v) req v) _ later in
      let same_r : r' ≡ r = ap (λ p. p.0) (ok-injective last) in
      rw (← same) (
        rw (← same_r) (
          resolution_of_lem (docs_for v) (prices_for v) v rank r' (walked) (rw same falls)
            resolved))
