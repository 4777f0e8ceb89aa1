-- ===== src/Config/Carried.antt =====
-- What of a server's configuration reaches the other side.
use blobcache_v.Base.{
  ◌≡◌, refl, subst, sym, inl, inr, true, false, List, [], ◌∷◌, map, Bool-cases, ok, ◌==◌, ℕ_eq,
  if◌then◌else◌,
}
use blobcache_v.Base.Int.{pos}
use blobcache_v.Base.Texts.{Text, text_eq, list_beq}
use blobcache_v.Types.{Floats}
use blobcache_v.Config.{
  BlobCacheServerConfig, SourceConfig, JuiceFsConfig, no_juicefs, no_mount_point,
  no_metadata_config, mode_mountpoint, mode_juicefs, source_to_proto, source_from_proto,
  sources_to_proto, sources_from_proto, config_to_proto, config_from_proto,
}

-- The four credentials of JuiceFS, without its sizes.
abbrev pub credentials : JuiceFsConfig → JuiceFsConfig
credentials j = record j {
  cache_size = pos 0;
  block_size = pos 0;
  prefetch = pos 0;
  buffer_size = pos 0;
}

-- A source keeps the section that its mode names.
abbrev pub carried_source : SourceConfig → SourceConfig
carried_source s = record s {
  juicefs = if s.source_mode == mode_juicefs then credentials s.juicefs else no_juicefs;
  mount_point = if s.source_mode == mode_mountpoint then s.mount_point else no_mount_point;
}

other_mode : (mode_mountpoint == mode_juicefs) ≡ false
unfolding list_beq
other_mode = refl

modes_differ : (mode : Text) → (mode == mode_mountpoint) ≡ true → (mode == mode_juicefs) ≡ false
modes_differ mode h =
    let e = (text_eq.equal_iff mode mode_mountpoint).0 h in
    subst (λ t. (t == mode_juicefs) ≡ false) (sym e) other_mode

source_from_proto-source_to_proto :
    (s : SourceConfig) → source_from_proto (source_to_proto s) ≡ ok (carried_source s)
unfolding source_from_proto source_to_proto
source_from_proto-source_to_proto s = elim (Bool-cases (s.source_mode == mode_mountpoint)) [
  | inl m ↦ rw (m, modes_differ s.source_mode m) refl
  | inr n ↦ elim (Bool-cases (s.source_mode == mode_juicefs)) [
    | inl j ↦ rw (n, j) refl
    | inr k ↦ rw (n, k) refl
  ]
]

sources_from_proto-sources_to_proto :
    (ss : List SourceConfig) → sources_from_proto (sources_to_proto ss) ≡ ok (map carried_source ss)
unfolding sources_from_proto sources_to_proto
sources_from_proto-sources_to_proto [] = refl
sources_from_proto-sources_to_proto (s ∷ ss) =
    rw (source_from_proto-source_to_proto s, sources_from_proto-sources_to_proto ss) refl

module _ (N : Floats) where
  pub config_from_proto-config_to_proto :
      (c : BlobCacheServerConfig N)
      → config_from_proto N (config_to_proto N c)
        ≡ ok (record c {
          disk_cache_max_usage_pct = N.widen (N.narrow c.disk_cache_max_usage_pct);
          enable_memory_cache = false;
          metadata = no_metadata_config;
          sources = map carried_source c.sources;
        })
  unfolding config_from_proto config_to_proto
  config_from_proto-config_to_proto c = rw (sources_from_proto-sources_to_proto c.sources) refl
