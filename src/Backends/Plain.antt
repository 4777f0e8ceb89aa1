-- ===== src/Backends/Plain.antt =====
-- Two simple backends that meet the laws: a cache that is a map and evicts nothing, a cache that
-- forgets everything, and a disk that is a map from names to bytes and never fails.
use blobcache_v.Base.{◌≡◌, ◌≢◌, refl, inl, inr, Bool, true, false, Option, none, some, arith}
use blobcache_v.Base.Texts.{Text, text_eq}
use blobcache_v.Base.Maps.{
  Map, lookup, insert, delete, lookup-insert, lookup-delete, beq_refl, beq_of_ne,
}
use blobcache_v.Backends.{Bytes, Forgets, Ristretto, Disk}

module _ {V : Type 0} where
  abbrev pub is_some : Option V → Bool
  is_some none = false
  is_some (some v) = true

  pub lookup-insert_self : (m : Map Text V) (k : Text) (v : V) → lookup (insert m k v) k ≡ some v
  lookup-insert_self m k v = rw (lookup-insert m k k v, beq_refl k)

  pub lookup-insert_ne :
      (m : Map Text V) (k : Text) (v : V) (j : Text) → k ≢ j → lookup (insert m k v) j ≡ lookup m j
  lookup-insert_ne m k v j h = rw (lookup-insert m k j v, beq_of_ne k j h)

  pub lookup-delete_self : (m : Map Text V) (k : Text) → lookup (delete m k) k ≡ none
  lookup-delete_self m k = rw (lookup-delete m k k, beq_refl k)

  pub lookup-delete-Forgets :
      (m : Map Text V) (k j : Text) → Forgets (lookup m j) (lookup (delete m k) j)
  lookup-delete-Forgets m k j = rw (lookup-delete m k j) (ground arith)

  abbrev pub keeping : Ristretto V
  keeping = record {
    State = Map Text V;
    held = lookup;
    get = λ c k. (lookup c k, c);
    get_ttl = λ c k. is_some (lookup c k);
    set = λ c k v n. (true, insert c k v);
    set_with_ttl = λ c k v n t. (true, insert c k v);
    reset_ttl = λ c k t. c;
    del = delete;
    get-held = λ c k. inr refl;
    held-get = λ c k j. inr refl;
    held-reset_ttl = λ c k t j. inr refl;
    held-set_self = λ c k v n. inr (lookup-insert_self c k v);
    held-set_ne = λ c k v n j h. inr (lookup-insert_ne c k v j h);
    held-set_with_ttl_self = λ c k v n t. inr (lookup-insert_self c k v);
    held-set_with_ttl_ne = λ c k v n t j h. inr (lookup-insert_ne c k v j h);
    held-del_self = lookup-delete_self;
    held-del = lookup-delete-Forgets;
  }

  abbrev pub forgetful : Ristretto V
  forgetful = record {
    State = Unit {0};
    held = λ c k. none;
    get = λ c k. (none, c);
    get_ttl = λ c k. false;
    set = λ c k v n. (true, c);
    set_with_ttl = λ c k v n t. (true, c);
    reset_ttl = λ c k t. c;
    del = λ c k. c;
    get-held = λ c k. inl refl;
    held-get = λ c k j. inl refl;
    held-reset_ttl = λ c k t j. inl refl;
    held-set_self = λ c k v n. inl refl;
    held-set_ne = λ c k v n j h. inl refl;
    held-set_with_ttl_self = λ c k v n t. inl refl;
    held-set_with_ttl_ne = λ c k v n t j h. inl refl;
    held-del_self = λ c k. refl;
    held-del = λ c k j. inl refl;
  }

-- The files by their second name alone: no two directories share the name of a chunk.
abbrev pub plain_disk : Disk
plain_disk = record {
  State = Map Text Bytes;
  mkdir_all = λ d h. (true, d);
  write_file = λ d h k b. (true, insert d k b);
  read_file = λ d h k. lookup d k;
  is_dir = λ d h. some true;
  read_file-mkdir_all = λ d h g k. refl;
  read_file-write_file_self = λ d h k b e. lookup-insert_self d k b;
  read_file-write_file_ne = λ d h k b g j hh hk hg hj n. lookup-insert_ne d k b j n;
}
