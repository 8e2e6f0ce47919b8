-- ===== src/Startup/Lock/Takeover.antt =====
-- A pod that waits in db/startup_lock.py is not blocked for ever by a holder that crashed.
use eve_build.Prelude.{
  ℕ, ◌+◌, ◌≡◌, ◌≤◌, ◌<◌, refl, ap, sym, ◌∙◌, Bool, true, false, Option, none, some, String,
  if◌then◌else◌, ◌==◌, nat_eq, string_eq, arith, Bool-cases, Option-cases, inl, inr,
}
use eve_build.Prelude.Dict.{beq_self}
use eve_build.External.Mongo.{Collection, drop_if}
use eve_build.External.Upsert.{Upserts}
use eve_build.Startup.Lock.Exclusion.{try_acquire_cases}
use eve_build.Startup.Lock.{
  LockDoc, doc_id, Settings, lock_id, has_expired, lease, first_lease, try_acquire, release,
  sleeping, holding, World, attempt, Step, tick, sweep, enter, poll, retry, leave, crash, Reach,
  start, step,
}

drop_if-some :
    {A : Type 0} (p : A → Bool) (o : Option A) {d : A} → drop_if p o ≡ some d → o ≡ some d
drop_if-some p none e = e
drop_if-some p (some x) e = ground arith

module _ (locks : Collection String LockDoc doc_id) (upserts : Upserts locks)
    (settings : Settings) where
  open locks use {Store, get}

  -- The stored lease, if there is one, is over at that time.
  abbrev pub Ends : ℕ → Store → Type 0
  Ends limit s = (doc : LockDoc) → get lock_id s ≡ some doc → doc.expires_at ≤ limit

  -- The stored lease was taken in the past.
  abbrev pub IsTimed : World locks upserts settings → Type 0
  IsTimed w = Ends (w.now + settings.startup_lock_ttl_seconds) w.stored

  delete_one-Ends :
      (p : LockDoc → Bool) (limit : ℕ) (s : Store)
      → Ends limit s
      → Ends limit (locks.delete_one lock_id p s).0
  delete_one-Ends p limit s h doc at =
      h doc (drop_if-some p _ (sym (locks.get-delete_one lock_id p s lock_id) ∙ at))

  release-Ends :
      (holder : String) (limit : ℕ) (s : Store)
      → Ends limit s
      → Ends limit (release locks upserts settings holder s)
  unfolding release
  release-Ends holder = delete_one-Ends (λ doc. doc.holder == holder)

  stored_lease :
      (new : LockDoc) (limit : ℕ) (s s' : Store)
      → ((j : String) → get j s' ≡ (if lock_id == j then some new else get j s))
      → new.expires_at ≤ limit
      → Ends limit s'
  stored_lease new limit s s' after within doc at =
      let same : new ≡ doc = ground (arith, sym (after lock_id) ∙ at) in rw (← same) within

  try_acquire-Ends :
      (now : ℕ) (holder : String) (s : Store)
      → Ends (now + settings.startup_lock_ttl_seconds) s
      → Ends
          (now + settings.startup_lock_ttl_seconds)
          (try_acquire locks upserts settings now holder s).0
  unfolding try_acquire
  try_acquire-Ends now holder s h =
      let p = has_expired locks upserts settings now in
      let f = lease locks upserts settings now holder in
      let new = first_lease locks upserts settings now holder in
      elim (Option-cases (get lock_id s)) [
        | inl absent ↦
            let (s', result, after) = upserts.inserts lock_id p f new s absent refl in
            rw (result, try_acquire) (stored_lease new _ s s' after (omega arith))
        | inr (doc, found) ↦ elim (Bool-cases (p doc)) [
          | inl expired ↦
              let (s', result, after) = upserts.updates lock_id p f new s doc found expired refl in
              rw (result, try_acquire) (stored_lease (f doc) _ s s' after (omega arith))
          | inr live ↦ rw (upserts.collides lock_id p f new s doc found live, try_acquire) h
        ]
      ]

  Step-IsTimed :
      {u v : World locks upserts settings} → Step locks upserts settings u v → IsTimed u → IsTimed v
  unfolding attempt
  Step-IsTimed (tick w n) h = λ doc at. omega (arith, h doc at)
  Step-IsTimed (sweep w) h = delete_one-Ends _ _ w.stored h
  Step-IsTimed (enter w holder _) h = try_acquire-Ends w.now holder w.stored h
  Step-IsTimed (poll w holder deadline _) h = h
  Step-IsTimed (retry w holder deadline _) h = try_acquire-Ends w.now holder w.stored h
  Step-IsTimed (leave w holder _ _) h = release-Ends holder _ w.stored h
  Step-IsTimed (crash w holder) h = h

  Reach-IsTimed :
      {u v : World locks upserts settings}
      → Reach locks upserts settings u v
      → IsTimed u
      → IsTimed v
  Reach-IsTimed start h = h
  Reach-IsTimed (step before last) h = Step-IsTimed last (Reach-IsTimed before h)

  -- No pod takes the lock in the step.
  abbrev pub IsQuiet :
      {u v : World locks upserts settings} → Step locks upserts settings u v → Type 0
  IsQuiet (tick w n) = Unit
  IsQuiet (sweep w) = Unit
  IsQuiet (enter w holder _) = (try_acquire locks upserts settings w.now holder w.stored).1 ≡ false
  IsQuiet (poll w holder deadline _) = Unit
  IsQuiet (retry w holder deadline _) =
      (try_acquire locks upserts settings w.now holder w.stored).1 ≡ false
  IsQuiet (leave w holder _ _) = Unit
  IsQuiet (crash w holder) = Unit

  -- Steps in any number in which no pod takes the lock.
  pub data Lull (w : World locks upserts settings) : World locks upserts settings → Type 0 where
    stay : Lull w w
    pass :
        {u v : World locks upserts settings}
        → Lull w u
        → (s : Step locks upserts settings u v) → IsQuiet s
        → Lull w v

  failed_try-Ends :
      (now : ℕ) (holder : String) (limit : ℕ) (s : Store)
      → (try_acquire locks upserts settings now holder s).1 ≡ false
      → Ends limit s
      → Ends limit (try_acquire locks upserts settings now holder s).0
  failed_try-Ends now holder limit s failed h =
      elim (try_acquire_cases locks upserts settings now holder s) [
        | inl (acquired, _, _) ↦ absurd (ground arith)
        | inr unchanged ↦ rw (ap (λ r. r.0) unchanged) h
      ]

  quiet-Ends :
      {u v : World locks upserts settings} (limit : ℕ) (s : Step locks upserts settings u v)
      → IsQuiet s
      → Ends limit u.stored
      → Ends limit v.stored
  unfolding attempt
  quiet-Ends limit (tick w n) q h = h
  quiet-Ends limit (sweep w) q h = delete_one-Ends _ limit w.stored h
  quiet-Ends limit (enter w holder _) q h = failed_try-Ends w.now holder limit w.stored q h
  quiet-Ends limit (poll w holder deadline _) q h = h
  quiet-Ends limit (retry w holder deadline _) q h = failed_try-Ends w.now holder limit w.stored q h
  quiet-Ends limit (leave w holder _ _) q h = release-Ends holder limit w.stored h
  quiet-Ends limit (crash w holder) q h = h

  Lull-Ends :
      {u v : World locks upserts settings} (limit : ℕ)
      → Lull u v
      → Ends limit u.stored
      → Ends limit v.stored
  Lull-Ends limit stay h = h
  Lull-Ends limit (pass before last q) h = quiet-Ends limit last q (Lull-Ends limit before h)

  try_acquire_free :
      (now : ℕ) (holder : String) (limit : ℕ) (s : Store)
      → Ends limit s
      → limit < now
      → (try_acquire locks upserts settings now holder s).1 ≡ true
  unfolding try_acquire
  try_acquire_free now holder limit s h over =
      let p = has_expired locks upserts settings now in
      let f = lease locks upserts settings now holder in
      let new = first_lease locks upserts settings now holder in
      elim (Option-cases (get lock_id s)) [
        | inl absent ↦
            let (s', result, _) = upserts.inserts lock_id p f new s absent refl in
            rw (result, try_acquire) (beq_self holder)
        | inr (doc, found) ↦
            let expired : p doc ≡ true = ground (arith, h doc found) in
            let (s', result, _) = upserts.updates lock_id p f new s doc found expired refl in
            rw (result, try_acquire) (beq_self holder)
      ]

  -- Whatever the pods did up to `v`, crashes in the `with` included: when no pod has taken the lock
  -- since `v`, and more than the time to live has passed, then a pod that sleeps in its loop can
  -- try again, and takes it.
  pub attempt_takes_over :
      (u v w : World locks upserts settings) (holder : String) (deadline : ℕ)
      → ((doc : LockDoc) → get lock_id u.stored ≡ some doc → ⊥)
      → Reach locks upserts settings u v
      → Lull v w
      → v.now + settings.startup_lock_ttl_seconds < w.now
      → w.pods holder ≡ sleeping deadline
      → let w' = attempt locks upserts settings holder deadline w in
        Step locks upserts settings w w'
        × (w'.pods holder ≡ holding (w.now + settings.startup_lock_ttl_seconds))
  unfolding attempt
  attempt_takes_over u v w holder deadline empty reached lull late asleep =
      let ends = Lull-Ends _ lull (Reach-IsTimed reached (λ doc at. absurd (empty doc at))) in
      let taken = try_acquire_free w.now holder _ w.stored ends late in
      (retry w holder deadline asleep, rw (beq_self holder, taken) refl)
