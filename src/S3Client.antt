-- ===== src/S3Client.antt =====
-- pkg/s3_client.go: the download of an object of a bucket in ranges, at the same time. S3's replies
-- are arguments. Sizes are int64, and so is the sum that the number of chunks is computed from. The
-- ranges themselves do not wrap: where that number is positive, the end of the last range is below
-- that sum. Memory is not bounded here.
pub mod Order
pub mod Whole
mod Tests
use blobcache_v.Base.{
  ℕ, zero, suc, ◌+◌, ◌-◌, ◌*◌, List, [], ◌∷◌, ◌++◌, map, if◌then◌else◌, leb, concat, length, take,
  replicate, Result, ok, err,
}
use blobcache_v.Base.Int.{ℤ, pos, negsuc, leb_ℤ, pos_part, ◌+ℤ◌, ◌-ℤ◌, int64, quot}
use blobcache_v.Base.Texts.{Text}
use blobcache_v.Backends.{Bytes}

abbrev pub default_download_concurrency : ℕ
default_download_concurrency = 16

abbrev pub default_download_chunk_size : ℕ
default_download_chunk_size = 64 * 1024 * 1024

pub record S3SourceConfig : Type 0 where
  pub bucket_name : Text
  pub region : Text
  pub endpoint_url : Text
  pub access_key : Text
  pub secret_key : Text

-- The SDK's own client is left out.
pub record S3Client : Type 0 where
  pub source : S3SourceConfig
  pub download_concurrency : ℕ
  pub download_chunk_size : ℕ

abbrev positive_or : ℕ → ℤ → ℕ
positive_or n z = if leb_ℤ z (pos 0) then n else pos_part z

-- `NewS3Client`, with the outcome of `LoadDefaultConfig` and the two settings of the server
unfoldable pub new_s3_client :
    Result Text (Unit {0}) → S3SourceConfig → ℤ → ℤ → Result Text S3Client
new_s3_client (err e) source s3_download_concurrency s3_download_chunk_size = err e
new_s3_client (ok u) source s3_download_concurrency s3_download_chunk_size = ok (record {
  source = source;
  download_concurrency = positive_or default_download_concurrency s3_download_concurrency;
  download_chunk_size = positive_or default_download_chunk_size s3_download_chunk_size;
})

-- What S3 answers to a range request: an error, a body that breaks off with an error, or a body that
-- ends.
pub data Reply : Type 0 where
  refused broken : Text → Reply
  body : Bytes → Reply

-- `negative_channel_size` is the panic of `make` at a negative number of chunks.
pub data DownloadError : Type 0 where
  head_failed : Text → DownloadError
  negative_channel_size : DownloadError
  invalid_object_size : ℤ → DownloadError
  download_errors : List Text → DownloadError

-- The goroutine of a chunk: `io.ReadFull` into a part of the size of the range, a body that ends
-- early included.
pub chunk_result : ℕ → Reply → Result Text Bytes
chunk_result n (refused e) = err e
chunk_result n (broken e) = err e
chunk_result n (body bytes) = ok (take n bytes)

-- The first and the last byte of the i-th range
pub range_start : ℕ → ℕ → ℕ
range_start c i = i * c

pub range_end : ℕ → ℕ → ℕ → ℕ
range_end size c i = if leb size (i * c + c - 1) then size - 1 else i * c + c - 1

-- `(size + c - 1) / c`, of int64
unfoldable pub num_chunks : ℕ → ℕ → ℤ
num_chunks size c = quot (int64 (int64 (pos size +ℤ pos c) -ℤ pos 1)) c

-- chunks[i] = data
abbrev pub set_chunk : List Bytes → ℕ → Bytes → List Bytes
set_chunk [] i bytes = []
set_chunk (x ∷ xs) zero bytes = bytes ∷ xs
set_chunk (x ∷ xs) (suc i) bytes = x ∷ set_chunk xs i bytes

-- The loop over the results, in the order in which they arrive.
pub collect : List (ℕ × Result Text Bytes) → List Bytes → List Text → List Bytes × List Text
collect [] chunks errs = (chunks, errs)
collect ((i, ok bytes) ∷ rs) chunks errs = collect rs (set_chunk chunks i bytes) errs
collect ((i, err e) ∷ rs) chunks errs = collect rs (set_chunk chunks i []) (errs ++ e ∷ [])

abbrev pub written : List Bytes × List Text → Result DownloadError Bytes
written (chunks, []) = ok (concat chunks)
written (chunks, e ∷ es) = err (download_errors (e ∷ es))

-- The result of the i-th goroutine, of the reply to its range
pub fetched : (ℕ → ℕ → Reply) → ℕ → ℕ → ℕ → Result Text Bytes
fetched get_object size c i =
    let start = range_start c i in
    let end = range_end size c i in chunk_result (end - start + 1) (get_object start end)

abbrev pub fetch_chunks : ℤ → (ℕ → Result Text Bytes) → List ℕ → Result DownloadError Bytes
fetch_chunks (negsuc n) fetch arrivals = err negative_channel_size
fetch_chunks (pos n) fetch arrivals =
    written (collect (map (λ i. (i, fetch i)) arrivals) (replicate n []) [])

-- `DownloadIntoBuffer`, with the answer to `Head`, the replies to ranges, and the chunks in the order
-- of their arrival. The buffer is written only without an error.
pub download_into_buffer :
    S3Client → Result Text ℤ → (ℕ → ℕ → Reply) → List ℕ → Result DownloadError Bytes
download_into_buffer client (err e) get_object arrivals = err (head_failed e)
download_into_buffer client (ok (negsuc n)) get_object arrivals =
    err (invalid_object_size (negsuc n))
download_into_buffer client (ok (pos zero)) get_object arrivals =
    err (invalid_object_size (pos zero))
download_into_buffer client (ok (pos (suc n))) get_object arrivals =
    let c = client.download_chunk_size in
    fetch_chunks (num_chunks (suc n) c) (fetched get_object (suc n) c) arrivals
