-- ===== src/Client/Served.antt =====
-- A client (pkg/client.go) whose hosts are cache servers (pkg/server.go).
use blobcache_v.Base.{
  ℕ, ◌+◌, ◌^◌, ◌<◌, ◌≡◌, ap, ◌∙◌, sym, ◌⊎◌, inl, inr, slice, Result, ok, err, ℕ_eq, if◌then◌else◌,
}
use blobcache_v.Base.Int.{pos}
use blobcache_v.Base.Texts.{Text}
use blobcache_v.Backends.{Bytes, Ristretto, Disk}
use blobcache_v.Types.{Floats}
use blobcache_v.Coordinator.{Coordinator}
use blobcache_v.Storage.Keys.{IsHash}
use blobcache_v.Storage.Holds.{Holds}
use blobcache_v.Storage.Reads.{available}
use blobcache_v.Storage.{Item}
use blobcache_v.Server.Hex.{Sha256}
use blobcache_v.Server.Answers.{Answer, refuses, answers, get_content-Answer}
use blobcache_v.Server as Server
use blobcache_v.Client.Replies.{no_host, not_served, from_host, get_content-Outcome}
use blobcache_v.Client.{
  RendezvousHasher, host_not_found, content_not_found, ContentReply, unreachable, not_ok, served,
  BlobCacheClient, get_content,
}

-- How the response of a server reaches the client
abbrev pub reply_of : Result Server.Status Server.ContentResponse → ContentReply
reply_of (err e) = unreachable
reply_of (ok response) = if response.is_ok then served response.content else not_ok

module _ (R : Ristretto Item) (F : Disk) (N : Floats) (C : Coordinator N) (H : Sha256)
    (X : RendezvousHasher N) (K : Type 0) (hash : Text) (content : Bytes) (v : IsHash hash)
    (a n : ℕ) (small : a + n < 2 ^ 63) (server : ℕ → K → Server.CacheService R F N C H)
    (now : ℕ → ℕ) where
  abbrev pub ask_server : ℕ → K → ContentReply
  ask_server i k =
      reply_of (Server.get_content R F N C H (server i k) hash (pos a) (pos n) (now i)).0

  served_injective : {b b' : Bytes} → ◌≡◌ {A = ContentReply} (served b) (served b') → b ≡ b'
  served_injective e = cc

  reply-Answer :
      (i : ℕ) (k : K) (bytes : Bytes)
      (out : Result Server.Status Server.ContentResponse × Server.CacheService R F N C H)
      → Answer R F N C H hash content v (server i k) a n out
      → reply_of out.0 ≡ served bytes
      → bytes ≡ slice a (available content a n) content
  reply-Answer i k bytes out (refuses e) r =
      let no_bytes : not_ok ≡ served bytes = sym (ap reply_of e) ∙ r in cc
  reply-Answer i k bytes out (answers e) r = served_injective (sym r ∙ ap reply_of e)

  -- If every host that the client has a connection to holds the object right, at every attempt, then
  -- `GetContent` of the client returns exactly the bytes that the content has in the range, or that
  -- the content or a host was not found, whatever the other goroutines do to the client meanwhile.
  -- (The hash consists of digits and letters and the page sizes are positive; the offset and the
  -- length are not negative, and their sum fits an int64.)
  pub get_content_served :
      (c : BlobCacheClient N X K) (routing_key : Text)
      (others : ℕ → BlobCacheClient N X K → BlobCacheClient N X K) (clock : ℕ → ℕ)
      → ((i : ℕ) (k : K) → Holds R F (server i k).cas hash content)
      → ((i : ℕ) (k : K) → 0 < (server i k).cas.page_size)
      → let result = (get_content N X K c hash (pos n) routing_key ask_server others clock).0 in
        (result ≡ ok (slice a (available content a n) content))
        ⊎ ((result ≡ err content_not_found) ⊎ (result ≡ err host_not_found))
  get_content_served c routing_key others clock h positive =
      elim (get_content-Outcome N X K ask_server others clock c hash routing_key (pos n)) [
        | no_host e ↦ inr (inr e)
        | not_served e ↦ inr (inl e)
        | from_host i k bytes lt r e ↦ inl (
            e
            ∙ ap ok (
                reply-Answer i k bytes _
                  (get_content-Answer R F N C H hash content v (server i k) a n (now i) (h i k)
                    (positive i k) small)
                  r))
      ]
