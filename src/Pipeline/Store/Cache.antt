-- ===== src/Pipeline/Store/Cache.antt =====
-- Hits and misses of the cache of answers: src/cost/cache.ts over src/db/repo.ts.
use aeo_geo_optimization.Common.{
  ℕ, ◌+◌, ◌≤◌, ◌<◌, ◌≡◌, refl, String, true, false, ◌&&◌, Option, none, some, List, [], ◌∷◌, any,
  leb, text_eq, text_eq_refl, Bool-cases, and_left, and_right, inl, inr, arith, some-injective,
}
use aeo_geo_optimization.Pipeline.Store.{
  Db, returned, query, fault, other_faults, CacheEntry, find_hash, cache_ttl_ms, before_cutoff,
  fresh_answer, was_seen, check_cache, store_cache,
}
use aeo_geo_optimization.Pipeline.Store.Runs.{NoFaults, query-Keeps}

-- A hash that a run has checked is seen, even if the query for it fails.
check_cache-was_seen :
    (cutoff : Option ℕ) (h run : String) (db : Db)
    → was_seen run h (check_cache cutoff h run db).1.seen_in_run ≡ true
unfolding check_cache
check_cache-was_seen cutoff h run db = elim (Bool-cases (was_seen run h db.seen_in_run)) [
  | inl seen ↦ rw (seen, seen) refl
  | inr new ↦ rw new (
      query-Keeps (λ later. was_seen run h later.seen_in_run ≡ true) _ (λ later fs g. g)
        (λ later g. g) _ (rw (text_eq_refl run, text_eq_refl h) refl))
]

-- The steps that lead from one state to a later one, where one cache serves all the checks: a check of any
-- hash for any run, or any change to the tables and the clock, which leaves the hashes that were met.
pub data Uses : Db → Db → Type 0 where
  unused : {before after : Db} → before ≡ after → Uses before after
  checks :
      {before after : Db} (cutoff : Option ℕ) (h run : String)
      → Uses before after
      → Uses before (check_cache cutoff h run after).1
  changes :
      {before after : Db} (changed : Db)
      → Uses before after
      → changed.seen_in_run ≡ after.seen_in_run
      → Uses before changed

check_cache-keeps_seen :
    (cutoff : Option ℕ) (h h' run run' : String) (db : Db)
    → was_seen run h db.seen_in_run ≡ true
    → was_seen run h (check_cache cutoff h' run' db).1.seen_in_run ≡ true
unfolding check_cache
check_cache-keeps_seen cutoff h h' run run' db met =
    elim (Bool-cases (was_seen run' h' db.seen_in_run)) [
      | inl seen ↦ rw seen met
      | inr new ↦ rw new (
          query-Keeps (λ later. was_seen run h later.seen_in_run ≡ true) _ (λ later fs g. g)
            (λ later g. g) _ (ground (arith, met)))
    ]

Uses-was_seen :
    {before after : Db} (h run : String)
    → Uses before after
    → was_seen run h before.seen_in_run ≡ true
    → was_seen run h after.seen_in_run ≡ true
Uses-was_seen h run (unused same) met = rw (← same) met
Uses-was_seen h run (checks {after = after} cutoff h' run' uses) met =
    check_cache-keeps_seen cutoff h h' run run' after (Uses-was_seen h run uses met)
Uses-was_seen h run (changes changed uses same) met = rw same (Uses-was_seen h run uses met)

-- Once a cache was asked for a hash in a run, whether that found an answer, missed or failed, it never
-- serves the hash in that run again: whatever checks it answers and whatever happens to the tables in
-- between, a check of the hash is a miss that asks the database nothing. This is about one cache, which
-- remembers the hashes: a cache that is made later starts with none.
pub check_cache-once :
    (cutoff later_cutoff : Option ℕ) (h run : String) (db later : Db)
    → Uses (check_cache cutoff h run db).1 later
    → check_cache later_cutoff h run later ≡ (returned none, later)
unfolding check_cache
check_cache-once cutoff later_cutoff h run db later uses =
    let met = Uses-was_seen h run uses (check_cache-was_seen cutoff h run db) in rw met refl

find_hash-any :
    (h : String) (cache : List CacheEntry) (e : CacheEntry)
    → find_hash h cache ≡ some e
    → any (λ (o : CacheEntry). text_eq o.request_hash h) cache ≡ true
find_hash-any h [] e found = ground arith
find_hash-any h (o ∷ cache) e found = ground (arith, find_hash-any h cache e)

returned-inj {ℓ} : {A : Type ℓ} {a b : A} → returned a ≡ returned b → a ≡ b
returned-inj h = ground arith

none-some {ℓ} : {A : Type ℓ} {a : A} → none ≡ some a → ⊥
none-some h = ground arith

-- The answer of a hit is that of an entry of the hash, which was there before the cutoff and is not
-- older than the time an entry lives.
abbrev pub Fresh : Option ℕ → ℕ → String → Option CacheEntry → Type 0
Fresh cutoff now answer none = ⊥
Fresh cutoff now answer (some e) =
    (e.answer_text ≡ answer) × (before_cutoff cutoff e ≡ true) × (now ≤ e.created_at + cache_ttl_ms)

fresh_answer-Fresh :
    (cutoff : Option ℕ) (now : ℕ) (found : Option CacheEntry) (answer : String)
    → fresh_answer cutoff now found ≡ some answer
    → Fresh cutoff now answer found
fresh_answer-Fresh cutoff now none answer h = ground arith
fresh_answer-Fresh cutoff now (some e) answer h =
    elim (Bool-cases (before_cutoff cutoff e && leb now (e.created_at + cache_ttl_ms))) [
      | inl fresh ↦
          let live =
            and_right (before_cutoff cutoff e) (leb now (e.created_at + cache_ttl_ms)) fresh in
          (
            some-injective (rw fresh at h),
            and_left (before_cutoff cutoff e) (leb now (e.created_at + cache_ttl_ms)) fresh,
            ground arith,
          )
      | inr stale ↦ ground arith
    ]

query-returned {ℓ} :
    {A : Type ℓ} (run : Db → A × Db) (db : Db) (a : A)
    → (query run db).0 ≡ returned a
    → (run (record db { faults = other_faults db.faults })).0 ≡ a
unfolding query
query-returned run db a h = elim (Bool-cases (fault db.faults)) [
  | inl fails ↦ ground arith
  | inr works ↦ returned-inj (rw works at h)
]

-- An answer that a check of the cache returns is that of the hash's entry, which was stored before the
-- cutoff and at most 24 hours ago, and the run had not met the hash before, whatever else fails.
pub check_cache-Fresh :
    (cutoff : Option ℕ) (h run answer : String) (db : Db)
    → (check_cache cutoff h run db).0 ≡ returned (some answer)
    → Fresh cutoff db.clock answer (find_hash h db.cache) × (was_seen run h db.seen_in_run ≡ false)
unfolding check_cache
check_cache-Fresh cutoff h run answer db hit = elim (Bool-cases (was_seen run h db.seen_in_run)) [
  | inl seen ↦ elim (none-some (returned-inj (rw seen at hit))) [ ]
  | inr new ↦ (
    fresh_answer-Fresh cutoff db.clock (find_hash h db.cache) answer
        (query-returned _ _ (some answer) (rw new at hit)),
    new,
  )
]

store_cache-same :
    (h answer : String) (e : CacheEntry) (db : Db)
    → find_hash h db.cache ≡ some e
    → (store_cache h answer db).1.cache ≡ db.cache
unfolding store_cache
store_cache-same h answer e db found =
    query-Keeps (λ later. later.cache ≡ db.cache) _ (λ later fs g. g)
      (λ later g. rw (g, find_hash-any h db.cache e found) refl) db refl

fresh_answer-old :
    (cutoff : Option ℕ) (now : ℕ) (e : CacheEntry)
    → e.created_at + cache_ttl_ms < now
    → fresh_answer cutoff now (some e) ≡ none
fresh_answer-old cutoff now e old = ground arith

check_cache-old :
    (cutoff : Option ℕ) (h run : String) (e : CacheEntry) (db : Db)
    → find_hash h db.cache ≡ some e
    → e.created_at + cache_ttl_ms < db.clock
    → NoFaults db
    → (check_cache cutoff h run db).0 ≡ returned none
unfolding check_cache query
check_cache-old cutoff h run e db found old clean =
    elim (Bool-cases (was_seen run h db.seen_in_run)) [
      | inl seen ↦ rw seen refl
      | inr new ↦ rw (new, clean, found, fresh_answer-old cutoff db.clock e old) refl
    ]

-- An entry that is older than 24 hours is in the way for ever: storing a new answer for its hash leaves
-- it in its place, and each check of the hash from then on, in any run, finds no answer.
pub store_cache-old :
    (cutoff : Option ℕ) (h run answer : String) (e : CacheEntry) (db later : Db)
    → find_hash h db.cache ≡ some e
    → later.cache ≡ (store_cache h answer db).1.cache
    → e.created_at + cache_ttl_ms < later.clock
    → NoFaults later
    → (check_cache cutoff h run later).0 ≡ returned none
store_cache-old cutoff h run answer e db later found same old clean =
    check_cache-old cutoff h run e later (rw (same, store_cache-same h answer e db found) found) old
      clean
