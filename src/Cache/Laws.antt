-- ===== src/Cache/Laws.antt =====
-- What is recorded is looked up, and nothing else changes.
use attestation_layer.Prelude.{
  ◌+◌, String, ◌≡◌, ◌∙◌, refl, sym, ap, Bool, true, false, ◌==◌, eq_iff, eq_refl, Option, none,
  some, List, [], ◌∷◌, ◌++◌, map, arith, any, find, find-some, is_some, are_unique, mem, Distinct,
  Distinct-append_new, are_unique-of_Distinct, Distinct-are_unique, Bool-cases, Option-cases, inl,
  inr, if◌then◌else◌,
}
use attestation_layer.Models.Json.{Fields}
use attestation_layer.Cache.{
  VerificationCacheKey, VerificationCacheRecord, VerificationCacheIndex, check_index, has_key_hash,
  lookup_cache, counted, touch, lookup_of, add_record, count_hit, new_record, record_cache_artifact,
}

has_key_hash-touch :
    (g h : String) (r : VerificationCacheRecord) → has_key_hash h (touch g r) ≡ has_key_hash h r
has_key_hash-touch g h r = elim (Bool-cases (has_key_hash g r)) [
  | inl e ↦ rw e refl
  | inr e ↦ rw e refl
]

-- The records of another hash stay as they are.
find-count_hit_other :
    (g h : String) (rs : List VerificationCacheRecord)
    → (g == h) ≡ false
    → find (has_key_hash h) (count_hit g rs) ≡ find (has_key_hash h) rs
find-count_hit_other g h [] n = refl
find-count_hit_other g h (r ∷ rs) n = ground (
  arith,
  find-count_hit_other g h rs n,
  has_key_hash-touch g h r,
  eq_iff r.cache_key_hash g,
  eq_iff r.cache_key_hash h,
  eq_iff g h,
  n,
)

-- The first record of the hash is counted.
abbrev count_found : Option VerificationCacheRecord → Option VerificationCacheRecord
count_found none = none
count_found (some r) = some (counted r)

find-count_hit_same :
    (h : String) (rs : List VerificationCacheRecord)
    → find (has_key_hash h) (count_hit h rs) ≡ count_found (find (has_key_hash h) rs)
find-count_hit_same h [] = refl
find-count_hit_same h (x ∷ xs) = elim (Bool-cases (has_key_hash h x)) [
  | inl e ↦ rw (has_key_hash-touch h h x, e) refl
  | inr e ↦ rw (has_key_hash-touch h h x, e) (find-count_hit_same h xs)
]

find-append_new :
    (p : VerificationCacheRecord → Bool) (rs : List VerificationCacheRecord)
    (r : VerificationCacheRecord)
    → find p (rs ++ (r ∷ [])) ≡ elim (find p rs) as (λ o. Option VerificationCacheRecord) [
      | none ↦ if p r then some r else none
      | some x ↦ some x
    ]
find-append_new p [] r = refl
find-append_new p (x ∷ xs) r = elim (Bool-cases (p x)) [
  | inl e ↦ rw e refl
  | inr e ↦ rw e (find-append_new p xs r)
]

any-find :
    (p : VerificationCacheRecord → Bool) (rs : List VerificationCacheRecord)
    → any p rs ≡ is_some (find p rs)
any-find p [] = refl
any-find p (r ∷ rs) = ground (arith, any-find p rs)

map-count_hit :
    (h : String) (rs : List VerificationCacheRecord)
    → map (λ r. VerificationCacheRecord.cache_key_hash r) (count_hit h rs)
      ≡ map (λ r. VerificationCacheRecord.cache_key_hash r) rs
map-count_hit h [] = refl
map-count_hit h (r ∷ rs) = elim (Bool-cases (has_key_hash h r)) [
  | inl e ↦ rw (e, map-count_hit h rs) refl
  | inr e ↦ rw (e, map-count_hit h rs) refl
]

abbrev counted_or :
    VerificationCacheRecord → Option VerificationCacheRecord → VerificationCacheRecord
counted_or added none = added
counted_or added (some r) = counted r

find-add_record_same :
    (h : String) (added : VerificationCacheRecord) (rs : List VerificationCacheRecord)
    → has_key_hash h added ≡ true
    → find (has_key_hash h) (add_record h added rs)
      ≡ some (counted_or added (find (has_key_hash h) rs))
find-add_record_same h added rs k =
    let counts = find-count_hit_same h rs in
    elim (Option-cases (find (has_key_hash h) rs)) [
      | inl n ↦
          rw (any-find (has_key_hash h) rs, n)
            (find-append_new (has_key_hash h) (count_hit h rs) added ∙ rw (counts, n, k) refl)
      | inr (r, f) ↦ rw (any-find (has_key_hash h) rs, f) (counts ∙ ap count_found f)
    ]

find-add_record_other :
    (g h : String) (added : VerificationCacheRecord) (rs : List VerificationCacheRecord)
    → has_key_hash h added ≡ false
    → (g == h) ≡ false
    → find (has_key_hash h) (add_record g added rs) ≡ find (has_key_hash h) rs
find-add_record_other g h added rs k n = ground (
  arith,
  find-count_hit_other g h rs n,
  find-append_new (has_key_hash h) (count_hit g rs) added,
  k,
)

cached-lookup_of : (h : String) (o : Option VerificationCacheRecord) → (lookup_of h o).cached ≡ o
cached-lookup_of h none = refl
cached-lookup_of h (some r) = refl

abbrev hashes : List VerificationCacheRecord → List String
hashes rs = map (λ r. VerificationCacheRecord.cache_key_hash r) rs

hashes-append :
    (rs : List VerificationCacheRecord) (r : VerificationCacheRecord)
    → hashes (rs ++ (r ∷ [])) ≡ hashes rs ++ (r.cache_key_hash ∷ [])
hashes-append [] r = refl
hashes-append (x ∷ xs) r = ap (λ z. x.cache_key_hash ∷ z) (hashes-append xs r)

any-has_key_hash :
    (h : String) (rs : List VerificationCacheRecord) → any (has_key_hash h) rs ≡ mem h (hashes rs)
any-has_key_hash h [] = refl
any-has_key_hash h (r ∷ rs) = rw (any-has_key_hash h rs) refl

add_record_unique :
    (added : VerificationCacheRecord) (rs : List VerificationCacheRecord)
    → Distinct (hashes rs)
    → Distinct (hashes (add_record added.cache_key_hash added rs))
add_record_unique added rs d =
    let h = added.cache_key_hash in
    elim (Bool-cases (any (has_key_hash h) rs)) [
      | inl e ↦ rw (e, map-count_hit h rs) d
      | inr e ↦
          rw (e, hashes-append (count_hit h rs) added, map-count_hit h rs)
            (Distinct-append_new (hashes rs) h d (sym (any-has_key_hash h rs) ∙ e))
    ]

-- What a lookup of the hash returns once an artifact is recorded, by what it returned before.
abbrev pub expected :
    String
    → VerificationCacheKey
    → String
    → Fields
    → Option VerificationCacheRecord
    → VerificationCacheRecord
expected key_hash key artifact_hash metadata none = record {
  cache_key_hash = key_hash;
  artifact_hash = artifact_hash;
  stage = key.stage;
  hit_count = 0;
  metadata = metadata;
}
expected key_hash key artifact_hash metadata (some r) = record {
  cache_key_hash = key_hash;
  artifact_hash = r.artifact_hash;
  stage = r.stage;
  hit_count = r.hit_count + 1;
  metadata = r.metadata;
}

module _ (cache_key_hash : VerificationCacheKey → String) where
  counted_or-eq-expected :
      (key : VerificationCacheKey) (artifact_hash : String) (metadata : Fields)
      (rs : List VerificationCacheRecord)
      → counted_or
          (new_record cache_key_hash key artifact_hash metadata)
          (find (has_key_hash (cache_key_hash key)) rs)
        ≡ expected
            (cache_key_hash key)
            key
            artifact_hash
            metadata
            (find (has_key_hash (cache_key_hash key)) rs)
  counted_or-eq-expected key artifact_hash metadata rs =
      elim (Option-cases (find (has_key_hash (cache_key_hash key)) rs)) [
        | inl n ↦ rw n refl
        | inr (r, f) ↦
            (let hash : r.cache_key_hash ≡ cache_key_hash key =
                (eq_iff _ _).0 (find-some (has_key_hash (cache_key_hash key)) rs f).1 in
              rw f (ap (λ x. expected x key artifact_hash metadata (some r)) hash))
      ]

  -- After an artifact is recorded under a key, a lookup of a key of the same hash hits. If a lookup hit
  -- before, it returns that record with its artifact, stage and metadata and one more hit; if not, a
  -- record of the key's hash and stage with the artifact and metadata that were given and no hit yet.
  -- Lookups of keys of other hashes are as before.
  pub lookup_cache-record_cache_artifact :
      (index : VerificationCacheIndex) (key other : VerificationCacheKey) (artifact_hash : String)
      (metadata : Fields)
      → lookup_cache cache_key_hash
          (record_cache_artifact cache_key_hash index key artifact_hash metadata)
          other
        ≡ (if cache_key_hash key == cache_key_hash other
            then record {
              is_hit = true;
              cache_key_hash = cache_key_hash other;
              cached = some (
                  expected
                    (cache_key_hash other)
                    key
                    artifact_hash
                    metadata
                    (lookup_cache cache_key_hash index key).cached);
            }
            else lookup_cache cache_key_hash index other)
  unfolding lookup_cache record_cache_artifact
  lookup_cache-record_cache_artifact index key other artifact_hash metadata =
      let g = cache_key_hash key in
      let h = cache_key_hash other in
      let added = new_record cache_key_hash key artifact_hash metadata in
      elim (Bool-cases (g == h)) [
        | inl e ↦
            (let same : h ≡ g = sym ((eq_iff g h).0 e) in
              rw e (
                ap (lookup_of h) (
                  ap (λ x. find (has_key_hash x) (add_record g added index.records)) same
                  ∙ find-add_record_same g added index.records (eq_refl g)
                  ∙ ap some (counted_or-eq-expected key artifact_hash metadata index.records)
                  ∙ ap
                      (λ x. some (
                        expected x key artifact_hash metadata
                          (find (has_key_hash g) index.records)))
                      (sym same)
                  ∙ ap (λ o. some (expected h key artifact_hash metadata o))
                      (sym (cached-lookup_of g (find (has_key_hash g) index.records))))))
        | inr e ↦ rw e (ap (lookup_of h) (find-add_record_other g h added index.records e e))
      ]

  -- Recording keeps the hashes of the keys unique, although `model_copy` does not validate.
  pub check_index-record_cache_artifact :
      (index : VerificationCacheIndex) (key : VerificationCacheKey) (artifact_hash : String)
      (metadata : Fields)
      → check_index index ≡ some index
      → check_index (record_cache_artifact cache_key_hash index key artifact_hash metadata)
        ≡ some (record_cache_artifact cache_key_hash index key artifact_hash metadata)
  unfolding check_index record_cache_artifact
  check_index-record_cache_artifact index key artifact_hash metadata c =
      let f = λ (r : VerificationCacheRecord). r.cache_key_hash in
      let unique : are_unique f index.records ≡ true = ground (arith, c) in
      let after = are_unique-of_Distinct f _ (
        add_record_unique (new_record cache_key_hash key artifact_hash metadata) index.records
          (Distinct-are_unique f index.records unique)) in
      rw (check_index, after) refl
