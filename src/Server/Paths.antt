-- ===== src/Server/Paths.antt =====
-- Slash-separated paths of path/filepath, as pkg/server.go and pkg/blobfs.go use them.
use blobcache_v.Base.{◌||◌, List, [], ◌∷◌, ◌++◌, ◌==◌, ℕ_eq, if◌then◌else◌}
use blobcache_v.Base.Texts.{Text, codes, join, split, text_eq}

abbrev slash : Text
slash = codes "/"

-- The list without its last element
unfoldable pub parent_names : List Text → List Text
parent_names [] = []
parent_names (c ∷ []) = []
parent_names (c ∷ d ∷ cs) = c ∷ parent_names (d ∷ cs)

-- The names of a rooted path that `Clean` leaves, after those of `names`
unfoldable pub clean_names : List Text → List Text → List Text
clean_names names [] = names
clean_names names (c ∷ cs) =
    clean_names
      (if c == [] || c == codes "."
        then names
        else if c == codes ".."
        then parent_names names
        else names ++ c ∷ [])
      cs

-- `filepath.Join("/", path)`
unfoldable pub rooted : Text → Text
rooted path = b'/' ∷ join b'/' (clean_names [] (split b'/' path))

-- `filepath.Join(current, part)` for a rooted path `current`
unfoldable pub join_path : Text → Text → Text
join_path current part = rooted (current ++ b'/' ∷ part)
