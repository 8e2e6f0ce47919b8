-- ===== src/TrackedInfo/Delegates.antt =====
-- `delegate_by_corp` of services/tracked_info.py.
use eve_build.Prelude.{
  ℕ, ◌≡◌, ◌&&◌, Option, none, some, List, [], ◌∷◌, if◌then◌else◌, ◌==◌, nat_eq, string_eq, is_some,
  IsUnique, arith, Bool-cases, Option-cases, inl, inr, ◌∙◌,
}
use eve_build.Prelude.Dict.{Dict, lookup, keys, IsUnique-insert, lookup-insert, eq_of_beq}
use eve_build.Prelude.Equality.{option_eq}
use eve_build.Tokens.{CharacterDocument}
use eve_build.CharacterData.{corp_data_connected}
use eve_build.TrackedInfo.{personal_handlers, Dispatched, with_delegate, dispatch_characters}
use eve_build.TrackedInfo.Jobs.{delegates-publish_each}

-- The connected character of a corporation that comes first.
abbrev pub delegate_of : ℕ → List CharacterDocument → Option ℕ
delegate_of corp [] = none
delegate_of corp (character ∷ characters) =
    if corp_data_connected character && character.corporation_id == some corp
    then some character.character_id
    else delegate_of corp characters

-- The delegates are unique, and the delegate of a corporation is the first of its connected characters.
lookup-with_delegate :
    (corp : ℕ) (character : CharacterDocument) (delegates : Dict ℕ ℕ)
    → lookup corp (with_delegate character delegates) ≡ (
        if is_some (lookup corp delegates)
        then lookup corp delegates
        else if corp_data_connected character && character.corporation_id == some corp
        then some character.character_id
        else none)
unfolding with_delegate
lookup-with_delegate corp character delegates = elim (Option-cases character.corporation_id) [
  | inl absent ↦ ground (arith)
  | inr (c, member) ↦ elim (Bool-cases (c == corp)) [
    | inl same ↦
        let e = eq_of_beq c corp same in
        ground (arith, e, lookup-insert c corp character.character_id delegates)
    | inr other ↦ ground (arith, lookup-insert c corp character.character_id delegates)
  ]
]

IsUnique-with_delegate :
    (character : CharacterDocument) (delegates : Dict ℕ ℕ)
    → IsUnique (keys delegates)
    → IsUnique (keys (with_delegate character delegates))
unfolding with_delegate
IsUnique-with_delegate character delegates h = elim (Option-cases character.corporation_id) [
  | inl absent ↦ rw absent h
  | inr (c, member) ↦
      let inserted = IsUnique-insert c character.character_id delegates h in
      rw member (elim (Bool-cases (corp_data_connected character)) [
        | inl connected ↦ rw connected (elim (Bool-cases (is_some (lookup c delegates))) [
          | inl here ↦ rw here h
          | inr new ↦ rw new inserted
        ])
        | inr apart ↦ rw apart h
      ])
]

pub lookup-dispatch_characters :
    (corp : ℕ) (characters : List CharacterDocument) (d : Dispatched)
    → lookup corp (dispatch_characters characters d).delegate_by_corp ≡ (
        if is_some (lookup corp d.delegate_by_corp)
        then lookup corp d.delegate_by_corp
        else delegate_of corp characters)
unfolding dispatch_characters
lookup-dispatch_characters corp [] d = ground arith
lookup-dispatch_characters corp (character ∷ characters) d =
    let same = delegates-publish_each character.character_id none personal_handlers d in
    let rest = lookup-dispatch_characters corp characters _ in
    rest ∙ rw same (ground (arith, lookup-with_delegate corp character d.delegate_by_corp))

pub IsUnique-dispatch_characters :
    (characters : List CharacterDocument) (d : Dispatched)
    → IsUnique (keys d.delegate_by_corp)
    → IsUnique (keys (dispatch_characters characters d).delegate_by_corp)
unfolding dispatch_characters
IsUnique-dispatch_characters [] d h = h
IsUnique-dispatch_characters (character ∷ characters) d h =
    let same = delegates-publish_each character.character_id none personal_handlers d in
    IsUnique-dispatch_characters characters _
      (rw same (IsUnique-with_delegate character d.delegate_by_corp h))
