-- ===== src/Locations/Chain.antt =====
-- The loop of `resolve_container_chain` in services/locations.py ends, and where it ends.
use eve_build.Prelude.{
  ℕ, zero, suc, ◌<◌, ◌≡◌, ◌⊎◌, refl, sym, ◌∙◌, true, false, none, some, List, [], ◌∷◌, ◌==◌, nat_eq,
  string_eq, contains, length, arith, Bool-cases, Option-cases, inl, inr,
}
use eve_build.Prelude.Dict.{Dict, lookup, keys, contains-keys, eq_of_beq}
use eve_build.Prelude.Unseen.{unseen, unseen-le, unseen-cons-lt}
use eve_build.Locations.{AssetEntry, follow, resolve_container_chain}

module _ (assets : Dict ℕ AssetEntry) where
  -- The item is inside another item.
  abbrev pub IsInside : ℕ → ℕ → Type 0
  IsInside item container =
      (asset : AssetEntry) × (lookup item assets ≡ some asset)
      × ((asset.location_type == "item") ≡ true)
      × (asset.location_id ≡ container)

  -- The place is no asset, or it is where an asset is that is not inside an item.
  abbrev pub IsPlace : ℕ → Type 0
  IsPlace place =
      (lookup place assets ≡ none)
      ⊎ ((item : ℕ) × (asset : AssetEntry) × (lookup item assets ≡ some asset)
          × ((asset.location_type == "item") ≡ false)
          × (asset.location_id ≡ place))

  follow-ends :
      (fuel : ℕ) (visited : List ℕ) (current : ℕ)
      → unseen (keys assets) visited < fuel
      → (place : ℕ) × (follow assets fuel visited current ≡ some place)
  unfolding follow
  follow-ends zero visited current h = absurd (omega arith)
  follow-ends (suc fuel) visited current h = elim (Option-cases (lookup current assets)) [
    | inl absent ↦ (current, rw (absent, follow))
    | inr (asset, found) ↦ elim (Bool-cases (contains current visited)) [
      | inl seen ↦ (current, rw (found, seen, follow))
      | inr new ↦ elim (Bool-cases (asset.location_type == "item")) [
        | inr outside ↦ (asset.location_id, rw (found, new, outside, follow))
        | inl inside ↦
            let fewer =
              unseen-cons-lt (keys assets) current visited (contains-keys current assets ∙ rw found)
                new in
            let (place, ended) =
              follow-ends fuel (current ∷ visited) asset.location_id (omega arith) in
            (place, rw (found, new, inside, follow) ended)
      ]
    ]
  ]

  -- The loop ends, also where containers stand inside each other in a cycle.
  pub resolve_container_chain_ends :
      (location_id : ℕ) → (place : ℕ) × (resolve_container_chain location_id assets ≡ some place)
  unfolding resolve_container_chain
  resolve_container_chain_ends location_id =
      follow-ends (suc (length (keys assets))) [] location_id
        (omega (arith, unseen-le (keys assets) []))

  module _ (rank : ℕ → ℕ)
      (ranking : (item container : ℕ) → IsInside item container → rank container < rank item) where
    -- With no cycle, what is visited has a higher rank than what comes.
    follow-IsPlace :
        (fuel : ℕ) (visited : List ℕ) (current place : ℕ)
        → ((k : ℕ) → contains k visited ≡ true → rank current < rank k)
        → follow assets fuel visited current ≡ some place
        → IsPlace place
    unfolding follow
    follow-IsPlace zero visited current place above h = absurd (ground (arith, h))
    follow-IsPlace (suc fuel) visited current place above h =
        elim (Option-cases (lookup current assets)) [
          | inl absent ↦
              let here : follow assets (suc fuel) visited current ≡ some current =
                rw (absent, follow) in
              let same : current ≡ place = ground (arith, sym here ∙ h) in inl (rw (← same) absent)
          | inr (asset, found) ↦ elim (Bool-cases (contains current visited)) [
            | inl seen ↦ absurd (ground (arith, above current seen))
            | inr new ↦ elim (Bool-cases (asset.location_type == "item")) [
              | inr outside ↦
                  let here : follow assets (suc fuel) visited current ≡ some asset.location_id =
                    rw (found, new, outside, follow) in
                  let same : asset.location_id ≡ place = ground (arith, sym here ∙ h) in
                  inr (current, asset, found, outside, same)
              | inl inside ↦
                  let here : follow assets (suc fuel) visited current
                      ≡ follow assets fuel (current ∷ visited) asset.location_id =
                    rw (found, new, inside, follow) in
                  let lower = ranking current asset.location_id (asset, found, inside, refl) in
                  follow-IsPlace fuel (current ∷ visited) asset.location_id place
                    (λ k seen. elim (Bool-cases (current == k)) [
                      | inl same ↦ rw (← eq_of_beq current k same) lower
                      | inr other ↦
                          let before = above k (ground (arith, seen, other)) in omega arith
                    ])
                    (sym here ∙ h)
            ]
          ]
        ]

    -- Where no container stands inside itself, however deep, the result is a place: it is no item of the
    -- list, or an item that is not inside another stands there.
    pub resolve_container_chain-IsPlace :
        (location_id place : ℕ)
        → resolve_container_chain location_id assets ≡ some place
        → IsPlace place
    unfolding resolve_container_chain
    resolve_container_chain-IsPlace location_id place h =
        follow-IsPlace (suc (length (keys assets))) [] location_id place
          (λ k seen. absurd (ground (arith, seen))) h
