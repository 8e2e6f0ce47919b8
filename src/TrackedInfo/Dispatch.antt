-- ===== src/TrackedInfo/Dispatch.antt =====
-- Which jobs `enqueue_all_refresh_jobs` of services/tracked_info.py publishes.
use eve_build.Prelude.{
  ℕ, ◌*◌, ◌≡◌, refl, Bool, true, false, ◌&&◌, Option, none, some, List, [], ◌∷◌, String,
  if◌then◌else◌, ◌==◌, nat_eq, string_eq, contains, count, length, IsUnique, arith, Bool-cases,
  Option-cases, inl, inr, sum_by, ◌∙◌,
}
use eve_build.Prelude.Dict.{
  Dict, lookup, keys, weight, eq_of_beq, weight_at_absent, weight_at_unique,
}
use eve_build.Prelude.Equality.{option_eq}
use eve_build.Tokens.{CharacterDocument}
use eve_build.CharacterData.{Source}
use eve_build.TrackedInfo.{
  personal_handlers, corp_handlers, Dispatched, dispatch_characters, enqueue_all_refresh_jobs,
}
use eve_build.TrackedInfo.Jobs.{
  jobs_of, has_kind, dispatch_characters-IsCounted, dispatch_corporations-IsCounted,
  jobs_of-dispatch_characters, jobs_of-dispatch_corporations,
}
use eve_build.TrackedInfo.Delegates.{
  delegate_of, lookup-dispatch_characters, IsUnique-dispatch_characters,
}

-- The handlers have a kind once or not at all.
has_kind-contains :
    (kind : String) (handlers : Dict String Source)
    → IsUnique (keys handlers)
    → has_kind kind handlers ≡ (if contains kind (keys handlers) then 1 else 0)
has_kind-contains kind [] h = refl
has_kind-contains kind ((name, source) ∷ handlers) h = elim (Bool-cases (name == kind)) [
  | inl same ↦
      ground (arith, has_kind-contains kind handlers h.1, rw (eq_of_beq name kind same) at h.0)
  | inr other ↦ ground (arith, has_kind-contains kind handlers h.1)
]

abbrev share : ℕ → ℕ → ℕ → ℕ → ℕ
share c k number delegate = if delegate == k then number else 0

weight-corporation :
    (c k number : ℕ) (delegates : Dict ℕ ℕ)
    → weight (λ corp delegate. if delegate == k && some corp == some c then number else 0) delegates
      ≡ weight (λ corp delegate. if corp == c then share c k number delegate else 0) delegates
weight-corporation c k number [] = refl
weight-corporation c k number ((corp, delegate) ∷ delegates) =
    ground (arith, weight-corporation c k number delegates)

weight-none :
    (k number : ℕ) (delegates : Dict ℕ ℕ)
    → weight (λ corp delegate. if delegate == k && some corp == none then number else 0) delegates
      ≡ 0
weight-none k number [] = refl
weight-none k number ((corp, delegate) ∷ delegates) = ground (arith, weight-none k number delegates)

sum_by-none :
    (k c number : ℕ) (characters : List CharacterDocument)
    → sum_by
        (λ character. if character.character_id == k && none == some c then number else 0)
        characters
      ≡ 0
sum_by-none k c number [] = refl
sum_by-none k c number (character ∷ characters) = ground (arith, sum_by-none k c number characters)

abbrev no_corporation : Option ℕ
no_corporation = none

sum_by-count :
    (k number : ℕ) (characters : List CharacterDocument)
    → sum_by
        (λ character.
          if character.character_id == k && no_corporation == no_corporation then number else 0)
        characters
      ≡ count (λ character. character.character_id == k) characters * number
sum_by-count k number [] = omega arith
sum_by-count k number (character ∷ characters) = ground (arith, sum_by-count k number characters)

weight-delegates :
    (c k number : ℕ) (delegates : Dict ℕ ℕ)
    → IsUnique (keys delegates)
    → weight (λ corp delegate. if corp == c then share c k number delegate else 0) delegates
      ≡ (if lookup c delegates == some k then number else 0)
weight-delegates c k number delegates unique = elim (Option-cases (lookup c delegates)) [
  | inl absent ↦ rw absent (weight_at_absent (share c k number) c delegates absent)
  | inr (delegate, found) ↦ rw found (weight_at_unique (share c k number) c delegates unique found)
]

abbrev start : Dispatched
start = record { jobs = []; delegate_by_corp = []; count = 0 }

times : (b : Bool) (n h : ℕ) → h ≡ (if b then 1 else 0) → n * h ≡ (if b then n else 0)
times true n h e = rw e (omega arith)
times false n h e = rw e (omega arith)

abbrev asked : String → Dict String Source → Bool
asked kind handlers = contains kind (keys handlers)

personal_jobs :
    (characters : List CharacterDocument) (kind : String) (k : ℕ)
    → jobs_of kind k none (enqueue_all_refresh_jobs characters).jobs ≡ (
        if asked kind personal_handlers
        then count (λ character. character.character_id == k) characters
        else 0)
unfolding enqueue_all_refresh_jobs
personal_jobs characters kind k =
    let d = dispatch_characters characters start in
    let first = jobs_of-dispatch_characters kind k none characters start in
    let second = jobs_of-dispatch_corporations kind k none d.delegate_by_corp d in
    let zero = weight-none k (has_kind kind corp_handlers) d.delegate_by_corp in
    let number = sum_by-count k (has_kind kind personal_handlers) characters in
    let one = has_kind-contains kind personal_handlers (refl, (refl, (refl, (refl, tt)))) in
    let each =
      times (asked kind personal_handlers)
        (count (λ character. character.character_id == k) characters)
        (has_kind kind personal_handlers) one in
    omega (arith, first, second, zero, number) ∙ each

corp_jobs :
    (characters : List CharacterDocument) (kind : String) (k c : ℕ)
    → jobs_of kind k (some c) (enqueue_all_refresh_jobs characters).jobs
      ≡ (if asked kind corp_handlers && delegate_of c characters == some k then 1 else 0)
unfolding enqueue_all_refresh_jobs
corp_jobs characters kind k c =
    let d = dispatch_characters characters start in
    let number = has_kind kind corp_handlers in
    let first = jobs_of-dispatch_characters kind k (some c) characters start in
    let second = jobs_of-dispatch_corporations kind k (some c) d.delegate_by_corp d in
    let none_personal = sum_by-none k c (has_kind kind personal_handlers) characters in
    let at_c = weight-corporation c k number d.delegate_by_corp in
    let unique = IsUnique-dispatch_characters characters start tt in
    let share_of = weight-delegates c k number d.delegate_by_corp unique in
    let delegate = lookup-dispatch_characters c characters start in
    let one = has_kind-contains kind corp_handlers (refl, (refl, (refl, tt))) in
    ground (arith, first, second, none_personal, at_c, share_of, delegate, one)

-- Every character gets one job of each personal kind, and every corporation with a connected
-- character one job of each corporation kind, for the first of those characters; there are no
-- other jobs, and the number returned is that of the jobs.
pub enqueue_all_refresh_jobs_lem :
    (characters : List CharacterDocument) (kind : String) (k c : ℕ)
    → (jobs_of kind k none (enqueue_all_refresh_jobs characters).jobs ≡ (
        if contains kind (keys personal_handlers)
        then count (λ character. character.character_id == k) characters
        else 0))
      × (jobs_of kind k (some c) (enqueue_all_refresh_jobs characters).jobs ≡ (
          if contains kind (keys corp_handlers) && delegate_of c characters == some k
          then 1
          else 0))
      × ((enqueue_all_refresh_jobs characters).count
          ≡ length (enqueue_all_refresh_jobs characters).jobs)
unfolding enqueue_all_refresh_jobs
enqueue_all_refresh_jobs_lem characters kind k c = (
  personal_jobs characters kind k,
  corp_jobs characters kind k c,
  dispatch_corporations-IsCounted _ _ (dispatch_characters-IsCounted characters start refl),
)
