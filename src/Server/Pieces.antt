-- ===== src/Server/Pieces.antt =====
-- The loop of `GetContentStream` of pkg/server.go.
use blobcache_v.Base.{
  ℕ, zero, suc, ◌+◌, ◌-◌, ◌^◌, ◌≤◌, ◌<◌, ◌≡◌, refl, ap, subst, ◌∙◌, sym, ◌⊎◌, inl, inr, Bool, true,
  false, List, [], ◌∷◌, ◌++◌, arith, Bool-cases, length, take, drop, slice, Result, ok, err, ◌==◌,
  ℕ_eq, if◌then◌else◌, length-append, length-take, length-drop, take-append_left,
}
use Prim.Native.Nat.{min}
use native.Mathlib.Decide.{ℕ_discrete}
use blobcache_v.Base.Int.{pos, ltb_ℤ, int64-+ℤ_pos, pos-sub}
use blobcache_v.Base.Texts.{Text}
use blobcache_v.Backends.{Bytes, Ristretto, Disk}
use blobcache_v.Storage.Keys.{IsHash}
use blobcache_v.Storage.Holds.{Holds}
use blobcache_v.Storage.Loop.{Kept}
use blobcache_v.Storage.Reads.{available, readable}
use blobcache_v.Storage.Gets.{OnDisk, get_sound, get-OnDisk, get-Kept}
use blobcache_v.Storage.{Item, Storage, Error, content_not_found, get}
use blobcache_v.Server.{
  not_found, send_failed, make_buffer, StreamFlow, more, finished, stopped, Sending, send_read,
  send_result, send_round,
}

pub length-make_buffer : (n : ℕ) → length (make_buffer n) ≡ n
unfolding make_buffer
length-make_buffer zero = refl
length-make_buffer (suc n) = ap suc (length-make_buffer n)

module _ (R : Ristretto Item) (F : Disk) (hash : Text) (content : Bytes) (v : IsHash hash)
    (chunk : ℕ) (some_chunk : 0 < chunk) where
  abbrev pub sending : Storage R F → Bytes → ℕ → ℕ → List Bytes → Sending R F
  sending cas dst a n sent = record {
    cas = cas;
    dst = dst;
    offset = pos a;
    remaining = pos n;
    sent = sent;
  }

  abbrev piece : ℕ → ℕ → Bytes
  piece a n = slice a (available content a n) content

  -- What a round does at `a` with `n` bytes left.
  pub data Round (sends : Bool) (cas : Storage R F) (a n : ℕ) (sent : List Bytes)
      : StreamFlow × Sending R F → Type 0 where
    ended :
        (cas' : Storage R F) (dst : Bytes)
        → Kept R F hash content v cas cas'
        → available content a n ≡ 0
        → Round sends cas a n sent (finished, sending cas' dst a n sent)
    missing :
        (cas' : Storage R F) (dst : Bytes)
        → Kept R F hash content v cas cas'
        → ¬ (OnDisk R F hash content v cas × (a + n ≤ length content))
        → Round sends cas a n sent
            (stopped (not_found content_not_found), sending cas' dst a n sent)
    refused :
        (cas' : Storage R F) (dst : Bytes)
        → Kept R F hash content v cas cas'
        → sends ≡ false
        → Round sends cas a n sent (stopped send_failed, sending cas' dst a n sent)
    last :
        (cas' : Storage R F) (dst : Bytes) (k : ℕ)
        → Kept R F hash content v cas cas'
        → k ≡ available content a n
        → 0 < k
        → k ≤ chunk
        → Round sends cas a n sent (finished, sending cas' dst a n (sent ++ slice a k content ∷ []))
    onward :
        (cas' : Storage R F) (dst : Bytes) (k : ℕ)
        → Kept R F hash content v cas cas'
        → chunk ≤ length dst
        → 0 < k
        → k ≤ chunk
        → k ≤ n
        → a + k ≤ length content
        → Round sends cas a n sent
            (more, sending cas' dst (a + k) (n - k) (sent ++ slice a k content ∷ []))

  smaller : (n : ℕ) → (if ltb_ℤ (pos n) (pos chunk) then pos n else pos chunk) ≡ pos (min n chunk)
  smaller n = elim (Bool-cases (ltb_ℤ (pos n) (pos chunk))) [
    | inl e ↦ rw e (ap pos (ground (arith, e)))
    | inr e ↦ rw e (ap pos (ground (arith, e)))
  ]

  module _ (sends : Bool) (now : ℕ) (cas : Storage R F) (dst : Bytes) (a n : ℕ) (sent : List Bytes)
      (h : Holds R F cas hash content) (positive : 0 < cas.page_size) (room : chunk ≤ length dst)
      (small : a + n < 2 ^ 63) where
    read : Result Error ℕ × Bytes × Storage R F
    read = get R F cas hash (pos a) (pos (min n chunk)) dst now

    send_round-read :
        0 < n
        → send_round R F hash chunk sends now (sending cas dst a n sent)
          ≡ send_result R F sends (pos (min n chunk)) (sending cas dst a n sent) read
    unfolding send_round read
    send_round-read some_left =
        let e : ltb_ℤ (pos 0) (pos n) ≡ true = ground arith in rw (e, smaller n) refl

    Sound : Result Error ℕ × Bytes × Storage R F → Type 0
    Sound out =
        (out.0 ≡ err content_not_found)
        ⊎ ((out.0 ≡ ok (available content a (min n chunk)))
            × (out.1 ≡ piece a (min n chunk) ++ drop (available content a (min n chunk)) dst))

    -- What `Get` says of the result of its call.
    record Got (out : Result Error ℕ × Bytes × Storage R F) : Type 0 where
      kept : Kept R F hash content v cas out.2
      sound : Sound out
      missing_piece :
          out.0 ≡ err content_not_found
          → ¬ (OnDisk R F hash content v cas × (a + n ≤ length content))

    read-Got : 0 < n → Got read
    unfolding read Sound
    read-Got some_left = record {
      kept =
          get-Kept R F hash content v cas a (min n chunk) dst now h positive (omega arith)
            (omega arith);
      sound =
          (get_sound R F hash content v cas a (min n chunk) dst now h positive (omega arith)
            (omega arith)).1;
      missing_piece = λ e (s, inside).
          let on_disk =
            get-OnDisk R F hash content v cas a (min n chunk) dst now h positive (omega arith)
              (omega arith) s in
          let fine : readable cas.page_size (length content) a (min n chunk) ≡ true =
            ground arith in
          let done : read.0 ≡ ok (available content a (min n chunk)) = on_disk ∙ rw fine refl in cc;
    }

    sent_piece :
        (k : ℕ) (dst' : Bytes) (cas' : Storage R F)
        → 0 < n
        → Kept R F hash content v cas cas'
        → k ≡ available content a (min n chunk)
        → take k dst' ≡ slice a k content
        → chunk ≤ length dst'
        → Round sends cas a n sent
            (send_read R F sends (pos (min n chunk)) k (sending cas' dst' a n sent))
    unfolding send_read
    sent_piece zero dst' cas' some_left got e bytes room' = ended cas' dst' got (omega (arith, e))
    sent_piece (suc k) dst' cas' some_left got e bytes room' =
        let some_bytes : (suc k == 0) ≡ false = ground arith in
        elim (Bool-cases sends) [
          | inr refuses ↦ rw (some_bytes, refuses) (refused cas' dst' got refl)
          | inl takes ↦ elim (Bool-cases (ltb_ℤ (pos (suc k)) (pos (min n chunk)))) [
            | inl less ↦
                rw (some_bytes, takes, less, bytes)
                  (last cas' dst' (suc k) got (ground (arith, less, e)) (omega arith)
                    (omega (arith, e)))
            | inr enough ↦
                let whole : suc k ≡ min n chunk = ground (arith, enough, e) in
                let within : a + suc k ≤ length content = omega (arith, e) in
                rw
                  (
                    some_bytes,
                    takes,
                    enough,
                    bytes,
                    int64-+ℤ_pos a (suc k) (omega (arith, whole)),
                    pos-sub n (suc k) (omega (arith, whole)),
                  )
                  (onward cas' dst' (suc k) got room' (omega arith) (omega (arith, whole))
                    (omega (arith, whole)) within)
          ]
        ]

    ok_injective : {i j : ℕ} → ◌≡◌ {A = Result Error ℕ} (ok i) (ok j) → i ≡ j
    ok_injective e = cc

    err_injective : {i j : Error} → ◌≡◌ {A = Result Error ℕ} (err i) (err j) → i ≡ j
    err_injective e = cc

    read_Round :
        0 < n
        → (out : Result Error ℕ × Bytes × Storage R F) → Got out
        → Round sends cas a n sent
            (send_result R F sends (pos (min n chunk)) (sending cas dst a n sent) out)
    unfolding Sound send_result
    read_Round some_left (ok k, dst', cas') g = elim g.sound [
      | inl bad ↦ cc
      | inr (good, bytes) ↦
          let e = ok_injective good in
          let front = piece a (min n chunk) in
          let rest = drop (available content a (min n chunk)) dst in
          let size : length front ≡ k = omega (
            arith,
            e,
            length-take (available content a (min n chunk)) (drop a content),
            length-drop a content,
          ) in
          sent_piece k dst' cas' some_left g.kept e
            (rw bytes (
              subst (λ i. take i (front ++ rest) ≡ slice a k content) size
                (take-append_left front rest ∙ ap (λ i. slice a i content) (sym e))))
            (rw bytes (
              omega (
                arith,
                e,
                size,
                length-append front rest,
                length-drop (available content a (min n chunk)) dst,
              )))
    ]
    read_Round some_left (err x, dst', cas') g = elim g.sound [
      | inl e ↦ rw (err_injective e) (missing cas' dst' g.kept (g.missing_piece e))
      | inr (good, bytes) ↦ cc
    ]

    send_round-none :
        n ≡ 0
        → send_round R F hash chunk sends now (sending cas dst a n sent)
          ≡ (finished, sending cas dst a n sent)
    unfolding send_round
    send_round-none e =
        let none_left : ltb_ℤ (pos 0) (pos n) ≡ false = ground (arith, e) in rw none_left refl

    pub send_round-Round :
        Round sends cas a n sent (send_round R F hash chunk sends now (sending cas dst a n sent))
    send_round-Round = elim (ℕ_discrete n 0) [
      | yes e ↦
          rw (send_round-none e)
            (ended cas dst (record { holds = h; disk = refl; page = refl }) (omega (arith, e)))
      | no some_left ↦
          rw (send_round-read (omega arith))
            (read_Round (omega arith) read (read-Got (omega arith)))
    ]
