-- ===== src/S3Client/Tests.antt =====
-- Downloads of an object of five bytes in ranges of two.
use blobcache_v.Base.{
  ℕ, ◌+◌, ◌-◌, ◌≡◌, refl, subst, sym, some, List, [], ◌∷◌, arith, slice, ok, ℕ_eq, eqb,
  if◌then◌else◌,
}
use blobcache_v.Base.Int.{pos, pos_part, ◌+ℤ◌, ◌-ℤ◌, int64, quot}
use blobcache_v.Base.Texts.{codes}
use blobcache_v.Backends.{Bytes}
use blobcache_v.S3Client.{
  S3SourceConfig, S3Client, Reply, refused, body, num_chunks, download_into_buffer,
}
use blobcache_v.S3Client.Order.{Complete, downloaded, downloaded_in_order, download_into_buffer_lem}
use blobcache_v.S3Client.Whole.{download_into_buffer_whole}

abbrev source : S3SourceConfig
source = record {
  bucket_name = codes "bucket";
  region = [];
  endpoint_url = [];
  access_key = [];
  secret_key = [];
}

abbrev client : S3Client
client = record { source = source; download_concurrency = 2; download_chunk_size = 2 }

abbrev content : Bytes
content = codes "hello"

abbrev serve : ℕ → ℕ → Reply
serve start end = body (slice start (end + 1 - start) content)

-- The second range is refused.
abbrev refuse : ℕ → ℕ → Reply
refuse start end = if eqb start 2 then refused (codes "throttled") else serve start end

abbrev arrivals : List ℕ
arrivals = 2 ∷ 0 ∷ 1 ∷ []

three_chunks : num_chunks 5 2 ≡ pos 3
unfolding num_chunks int64 ◌+ℤ◌ ◌-ℤ◌ quot
three_chunks = refl

all_arrive : Complete 3 arrivals
all_arrive = record { all = λ j lt. ground arith; only = omega arith }

download_into_buffer_lem_example :
    downloaded (download_into_buffer client (ok (pos 5)) refuse arrivals)
    ≡ downloaded_in_order client 5 refuse
download_into_buffer_lem_example =
    (download_into_buffer_lem client 5 refuse arrivals (omega arith)).0 3 three_chunks all_arrive

download_into_buffer_whole_example :
    downloaded (download_into_buffer client (ok (pos 5)) serve arrivals) ≡ some content
download_into_buffer_whole_example =
    (download_into_buffer_whole client content serve arrivals (omega arith) (omega arith)
        (omega arith) (omega arith)
        (subst (λ z. Complete (pos_part z) arrivals) (sym three_chunks) all_arrive)
        (λ start end le inside. refl)).0
      (omega arith)
