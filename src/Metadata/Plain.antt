-- ===== src/Metadata/Plain.antt =====
-- A Redis in memory that never fails and lets nothing expire.
use blobcache_v.Base.{
  ℕ, ◌+◌, ◌≡◌, ◌≢◌, refl, ap, ◌∙◌, sym, inl, inr, Option, none, some, List, [], ◌∷◌, ◌++◌,
  Bool-cases, Result, ok, err, ◌==◌, ℕ_eq, if◌then◌else◌,
}
use blobcache_v.Base.Texts.{Text, text_eq}
use blobcache_v.Base.Maps.{Map, lookup, insert, delete, lookup-insert, lookup-delete, beq_refl}
use blobcache_v.Metadata.{Redis, RedisError, nil, Obtained, obtained, not_obtained, Answers}

pub record Memory : Type 0 where
  pub hashes : Map Text (Map Text Text)
  pub sets : Map Text (List Text)
  pub strings : Map Text Text
  pub locks : Map Text ℕ
  pub tokens : ℕ

abbrev or_nil : {A : Type 0} → Option (List A) → List A
or_nil none = []
or_nil (some l) = l

abbrev token_of : Text → Option ℕ → Option (Text × ℕ)
token_of k none = none
token_of k (some n) = some (k, n)

abbrev string_of : Option Text → Result RedisError Text
string_of none = err nil
string_of (some t) = ok t

unfoldable pub without : List Text → Text → List Text
without [] t = []
without (x ∷ xs) t = let rest = without xs t in if x == t then rest else x ∷ rest

unfoldable pub fields_of : Memory → Text → Map Text Text
fields_of s k = or_nil (lookup s.hashes k)

unfoldable pub owner_of : Memory → Text → Option (Text × ℕ)
owner_of s k = token_of k (lookup s.locks k)

abbrev obtain_free : Memory → Text → Option ℕ → Obtained (Text × ℕ) × Memory
obtain_free s k (some n) = (not_obtained, s)
obtain_free s k none =
    (obtained (k, s.tokens), record s { locks = insert s.locks k s.tokens; tokens = s.tokens + 1 })

unfoldable pub obtain_lock : Memory → Text → ℕ → Obtained (Text × ℕ) × Memory
obtain_lock s k ttl = obtain_free s k (lookup s.locks k)

unfoldable pub release_lock : Memory → Text × ℕ → Answers Memory (Unit {0})
release_lock s (k, n) = (ok tt, record s { locks = delete s.locks k })

unfoldable pub write_fields : Memory → Text → List (Text × Text) → Answers Memory (Unit {0})
write_fields s k l = (ok tt, record s { hashes = insert s.hashes k (l ++ fields_of s k) })

lookup-append :
    (l old : Map Text Text) (f : Text)
    → lookup (l ++ old) f ≡ elim (lookup l f) [ none ↦ lookup old f | some v ↦ some v ]
unfolding lookup
lookup-append [] old f = refl
lookup-append ((g, v) ∷ l) old f = elim (Bool-cases (g == f)) [
  | inl e ↦ rw e refl
  | inr e ↦ rw e (lookup-append l old f)
]

pub fields_of-write_fields :
    (s : Memory) (k : Text) (l : List (Text × Text)) (f : Text)
    → lookup (fields_of (write_fields s k l).1 k) f
      ≡ elim (lookup l f) [ none ↦ lookup (fields_of s k) f | some v ↦ some v ]
unfolding fields_of write_fields
fields_of-write_fields s k l f =
    ap (λ m. lookup (or_nil m) f)
      (lookup-insert s.hashes k k (l ++ or_nil (lookup s.hashes k))
        ∙ ap (λ b. if b then some (l ++ or_nil (lookup s.hashes k)) else lookup s.hashes k)
            (beq_refl k))
    ∙ lookup-append l (or_nil (lookup s.hashes k)) f

pub obtain_owned :
    (s : Memory) (k : Text) (ttl : ℕ) (t u : Text × ℕ)
    → owner_of s k ≡ some t
    → (obtain_lock s k ttl).0 ≢ obtained u
unfolding owner_of obtain_lock
obtain_owned s k ttl t u = go (lookup s.locks k)
  where
    go : (found : Option ℕ) → token_of k found ≡ some t → (obtain_free s k found).0 ≢ obtained u
    go none e w = cc
    go (some n) e w = cc

pub owner-obtain_owned :
    (s : Memory) (k : Text) (ttl : ℕ) (t : Text × ℕ)
    → owner_of s k ≡ some t
    → owner_of (obtain_lock s k ttl).1 k ≡ some t
unfolding obtain_lock owner_of
owner-obtain_owned s k ttl t owned = go (lookup s.locks k) refl
  where
    go :
        (found : Option ℕ)
        → lookup s.locks k ≡ found
        → owner_of (obtain_free s k found).1 k ≡ some t
    go none e = let no_owner = sym (ap (token_of k) e) ∙ owned in cc
    go (some n) e = owned

pub owner-obtain :
    (s : Memory) (k : Text) (ttl : ℕ) (t : Text × ℕ)
    → (obtain_lock s k ttl).0 ≡ obtained t
    → owner_of (obtain_lock s k ttl).1 k ≡ some t
unfolding obtain_lock owner_of
owner-obtain s k ttl t = go (lookup s.locks k)
  where
    go :
        (found : Option ℕ)
        → (obtain_free s k found).0 ≡ obtained t
        → owner_of (obtain_free s k found).1 k ≡ some t
    go (some n) e = cc
    go none e =
        let same : (k, s.tokens) ≡ t = cc in
        ap (token_of k) (
          lookup-insert s.locks k k s.tokens
          ∙ ap (λ b. if b then some s.tokens else lookup s.locks k) (beq_refl k))
        ∙ ap some same

pub owner-release :
    (s : Memory) (k : Text) (t : Text × ℕ)
    → owner_of s k ≡ some t
    → (release_lock s t).0 ≡ ok tt
    → owner_of (release_lock s t).1 k ≡ none
unfolding owner_of release_lock
owner-release s k (j, n) owned done = go (lookup s.locks k) owned
  where
    go :
        (found : Option ℕ)
        → token_of k found ≡ some (j, n)
        → token_of k (lookup (delete s.locks j) k) ≡ none
    go none e = cc
    go (some i) e =
        let same : k ≡ j = cc in
        ap (token_of k) (
          lookup-delete s.locks j k
          ∙ ap (λ b. if b then none else lookup s.locks k)
              (ap (λ t. t == k) (sym same) ∙ beq_refl k))

unfoldable pub memory : Redis
unfolding fields_of owner_of obtain_lock release_lock write_fields
memory = record {
  State = Memory;
  Token = Text × ℕ;
  fields = fields_of;
  owner = owner_of;
  hget_all = λ s k. (ok (fields_of s k), s);
  hset = write_fields;
  del = λ s k. (ok tt, record s { hashes = delete s.hashes k });
  smembers = λ s k. (ok (or_nil (lookup s.sets k)), s);
  sadd = λ s k t.
      (ok tt, record s { sets = insert s.sets k (without (or_nil (lookup s.sets k)) t ++ t ∷ []) });
  srem =
      λ s k t. (ok tt, record s { sets = insert s.sets k (without (or_nil (lookup s.sets k)) t) });
  get = λ s k. (string_of (lookup s.strings k), s);
  set = λ s k t ttl. (ok tt, record s { strings = insert s.strings k t });
  obtain = obtain_lock;
  release = release_lock;
  refresh = λ s t ttl. (ok tt, s);
  hget_all-state = λ s k. refl;
  hget_all-fields =
      λ s k m e f. let same : fields_of s k ≡ m = cc in ap (λ n. lookup n f) (sym same);
  fields-hset = λ s k l done f. fields_of-write_fields s k l f;
  obtain_owned = obtain_owned;
  owner-obtain_owned = owner-obtain_owned;
  owner-obtain = owner-obtain;
  owner-release = owner-release;
}
