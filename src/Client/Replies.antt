-- ===== src/Client/Replies.antt =====
-- What `GetContent` and `GetContentStream` of pkg/client.go return, of the replies of the hosts.
use blobcache_v.Base.{
  ℕ, zero, suc, ◌+◌, ◌-◌, ◌≤◌, ◌<◌, ◌≡◌, refl, ap, ◌∙◌, Option, none, some, List, [], ◌∷◌, ◌++◌,
  arith, length, Result, ok, err, ℕ_eq,
}
use blobcache_v.Base.Int.{ℤ}
use blobcache_v.Base.Texts.{Text}
use blobcache_v.Backends.{Bytes}
use blobcache_v.Types.{Floats}
use blobcache_v.Client.{
  RendezvousHasher, ClientError, host_not_found, content_not_found, ContentReply, unreachable,
  not_ok, served, StreamReply, eof, broken, piece, Host, BlobCacheClient, key_or, forget,
  get_grpc_client, retrieve, max_attempts, after_reply, after_client, get_attempts, get_content,
  pass_on, after_stream, after_stream_client, stream_attempts, get_content_stream,
}

module _ (N : Floats) (X : RendezvousHasher N) (K : Type 0) where
  abbrev Client : Type 0
  Client = BlobCacheClient N X K

  module _ (ask : ℕ → K → ContentReply) (others : ℕ → Client → Client) (now : ℕ → ℕ) where
    -- What a request for a content may come back with.
    pub data Outcome (attempts : ℕ) (result : Result ClientError Bytes) : Type 0 where
      no_host : result ≡ err host_not_found → Outcome attempts result
      not_served : result ≡ err content_not_found → Outcome attempts result
      from_host :
          (i : ℕ) (k : K) (bytes : Bytes)
          → i < attempts
          → ask i k ≡ served bytes
          → result ≡ ok bytes
          → Outcome attempts result

    after_reply-Outcome :
        (total i : ℕ) (k : K) (hash : Text) (c : Client)
        (next : Client → Result ClientError Bytes × Client) (r : ContentReply)
        → i < total
        → ask i k ≡ r
        → ((c' : Client) → Outcome total (next c').0)
        → Outcome total (after_reply N X K next hash c r).0
    after_reply-Outcome total i k hash c next unreachable lt e h = h (forget N X K c hash)
    after_reply-Outcome total i k hash c next not_ok lt e h = h (forget N X K c hash)
    after_reply-Outcome total i k hash c next (served bytes) lt e h = from_host i k bytes lt e refl

    after_client-Outcome :
        (total i : ℕ) (hash : Text) (next : Client → Result ClientError Bytes × Client)
        (out : Option (K × Host N X K) × Client)
        → i < total
        → ((c' : Client) → Outcome total (next c').0)
        → Outcome total (after_client N X K next hash (ask i) out).0
    after_client-Outcome total i hash next (none, c) lt h = no_host refl
    after_client-Outcome total i hash next (some (k, host), c) lt h =
        after_reply-Outcome total i k hash c next (ask i k) lt refl h

    get_attempts-Outcome :
        (total n i : ℕ) (hash key : Text) (c : Client)
        → i + n ≡ total
        → Outcome total (get_attempts N X K n hash key ask others now i c).0
    unfolding get_attempts
    get_attempts-Outcome total zero i hash key c e = not_served refl
    get_attempts-Outcome total (suc n) i hash key c e =
        after_client-Outcome total i hash (get_attempts N X K n hash key ask others now (suc i)) _
          (omega (arith, e))
          (λ c'. get_attempts-Outcome total n (suc i) hash key c' (omega (arith, e)))

    pub get_content-Outcome :
        (c : Client) (hash routing_key : Text) (length : ℤ)
        → Outcome
            (max_attempts N X K c length)
            (get_content N X K c hash length routing_key ask others now).0
    unfolding get_content
    get_content-Outcome c hash routing_key length =
        get_attempts-Outcome (max_attempts N X K c length) (max_attempts N X K c length) 0 hash
          (key_or routing_key hash) c (omega arith)

  -- A stream of pieces that ends, and one that breaks behind them
  abbrev pub whole_stream : List Bytes → StreamReply
  whole_stream [] = eof
  whole_stream (p ∷ ps) = piece p (whole_stream ps)

  abbrev pub broken_stream : List Bytes → StreamReply
  broken_stream [] = broken
  broken_stream (p ∷ ps) = piece p (broken_stream ps)

  module _ (hash key : Text) (offset length : ℤ) (opens : ℕ → K → Text → ℤ → ℤ → Option StreamReply)
      (others : ℕ → Client → Client) (now : ℕ → ℕ) where
    abbrev attempts : ℕ → ℕ → Client → List Bytes × Client
    attempts n i c = stream_attempts N X K n hash key offset length opens others now i c

    pass_on-whole :
        (next : Client → List Bytes × Client) (c : Client) (ps : List Bytes)
        → pass_on N X K next hash c (whole_stream ps) ≡ (ps, c)
    unfolding pass_on
    pass_on-whole next c [] = refl
    pass_on-whole next c (p ∷ ps) = rw (pass_on-whole next c ps) refl

    pass_on-broken :
        (next : Client → List Bytes × Client) (c : Client) (ps : List Bytes)
        → pass_on N X K next hash c (broken_stream ps)
          ≡ (ps ++ (next (forget N X K c hash)).0, (next (forget N X K c hash)).1)
    unfolding pass_on
    pass_on-broken next c [] = refl
    pass_on-broken next c (p ∷ ps) = rw (pass_on-broken next c ps) refl

    -- The client of attempt `i` of a client `c`, after what other goroutines do
    abbrev pub client_of : ℕ → Client → Option (K × Host N X K) × Client
    client_of i c = get_grpc_client N X K (others i c) (retrieve N X K hash key i) (now i)

    attempt-whole :
        (n i : ℕ) (c c' : Client) (k : K) (host : Host N X K) (ps : List Bytes)
        → client_of i c ≡ (some (k, host), c')
        → opens i k hash offset length ≡ some (whole_stream ps)
        → attempts (suc n) i c ≡ (ps, c')
    unfolding stream_attempts
    attempt-whole n i c c' k host ps e o =
        ap (after_stream_client N X K (attempts n (suc i)) hash (λ k. opens i k hash offset length))
          e
        ∙ ap (after_stream N X K (attempts n (suc i)) hash c') o
        ∙ pass_on-whole (attempts n (suc i)) c' ps

    attempt-broken :
        (n i : ℕ) (c c' : Client) (k : K) (host : Host N X K) (ps : List Bytes)
        → client_of i c ≡ (some (k, host), c')
        → opens i k hash offset length ≡ some (broken_stream ps)
        → (attempts (suc n) i c).0 ≡ ps ++ (attempts n (suc i) (forget N X K c' hash)).0
    unfolding stream_attempts
    attempt-broken n i c c' k host ps e o =
        ap (λ t. t.0)
          (ap
              (after_stream_client N X K (attempts n (suc i)) hash
                (λ k. opens i k hash offset length))
              e
            ∙ ap (after_stream N X K (attempts n (suc i)) hash c') o
            ∙ pass_on-broken (attempts n (suc i)) c' ps)

  -- If the stream that a host opens for the requested range breaks behind some pieces, and the client
  -- may try again and the host of its second attempt answers to the same offset and the same length
  -- with a stream that ends, the channel delivers the pieces from before the break, and then all
  -- pieces of the second stream: the second request begins at the start of the range again, not
  -- behind the pieces that were delivered.
  pub get_content_stream_resent :
      (c c₁ c₂ : Client) (hash routing_key : Text) (offset length : ℤ)
      (opens : ℕ → K → Text → ℤ → ℤ → Option StreamReply) (others : ℕ → Client → Client)
      (now : ℕ → ℕ) (k₁ k₂ : K) (h₁ h₂ : Host N X K) (before pieces : List Bytes)
      → 2 ≤ max_attempts N X K c length
      → client_of hash (key_or routing_key hash) offset length opens others now 0 c
        ≡ (some (k₁, h₁), c₁)
      → opens 0 k₁ hash offset length ≡ some (broken_stream before)
      → client_of hash
          (key_or routing_key hash)
          offset
          length
          opens
          others
          now
          1
          (forget N X K c₁ hash)
        ≡ (some (k₂, h₂), c₂)
      → opens 1 k₂ hash offset length ≡ some (whole_stream pieces)
      → (get_content_stream N X K c hash offset length routing_key opens others now).0
        ≡ before ++ pieces
  unfolding get_content_stream
  get_content_stream_resent c c₁ c₂ hash routing_key offset length opens others now k₁ k₂ h₁ h₂
        before pieces two e₁ o₁ e₂ o₂ =
      let n = max_attempts N X K c length in
      let e : n ≡ suc (suc (n - 2)) = omega (arith, two) in
      rw e (
        attempt-broken hash (key_or routing_key hash) offset length opens others now (suc (n - 2)) 0
          c c₁ k₁ h₁ before e₁ o₁
        ∙ ap (λ t. before ++ t.0)
            (attempt-whole hash (key_or routing_key hash) offset length opens others now (n - 2) 1
              (forget N X K c₁ hash) c₂ k₂ h₂ pieces e₂ o₂))
