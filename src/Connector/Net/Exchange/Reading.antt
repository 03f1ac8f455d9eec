-- ===== src/Connector/Net/Exchange/Reading.antt =====
-- The read loop of connector/tcp/tcp.go.
use mathlib.Core.Path.{subst}
use ops_mcp.Prelude.{
  ◌≢◌, ◌⊎◌, ltb_false→le, ℕ, length, Result, List, ◌≤◌, ok, Option, ◌<◌, ◌≡◌, err, ◌++◌, ◌+◌, some,
  arith, Bool-cases, length-append, suc, ltb, inl, inr, ltb→lt, str, zero, is_nil, refl, [],
}
use ops_mcp.Connector.Net.Exchange.{
  Conn, ReadEnd, more, eof, timed_out, broken, ExchangeError, after_read, room, read_loop,
  step_failed, read_all,
}

-- What Read of package net documents: at most as many bytes as there is room, and at least one
-- where there is room and no error.
pub record IsReader (conn : Conn) : Type 0 where
  pub in_room : (i k : ℕ) → length (conn.read i k).0 ≤ k
  pub progress : (i k : ℕ) → 0 < k → (conn.read i k).1 ≡ more → 0 < length (conn.read i k).0

-- The bytes that a loop returns are at most as many as the limit; it fails only when nothing was
-- received, `start` being what there is after its first read.
abbrev pub Within : ℕ → List ℕ → Result ExchangeError (List ℕ) → Type 0
Within max_resp start (ok buf) = length buf ≤ max_resp
Within max_resp start (err e) = length start ≡ 0

abbrev pub Ends : ℕ → List ℕ → Option (Result ExchangeError (List ℕ)) → Type 0
Ends max_resp start end =
    (out : Result ExchangeError (List ℕ)) × (end ≡ some out) × Within max_resp start out

Ends-shorter :
    (max_resp : ℕ) (shorter start : List ℕ) (end : Option (Result ExchangeError (List ℕ)))
    → length shorter ≤ length start
    → Ends max_resp start end
    → Ends max_resp shorter end
Ends-shorter max_resp shorter start end h (ok buf, e, w) = (ok buf, e, w)
Ends-shorter max_resp shorter start end h (err x, e, w) = (err x, e, omega arith)

module _ (conn : Conn) (max_resp : ℕ) (reader : IsReader conn) where
  after_read_lem :
      (end : ReadEnd) (buf : List ℕ) (next : Option (Result ExchangeError (List ℕ)))
      → length buf ≤ max_resp
      → (end ≡ more → Ends max_resp buf next)
      → Ends max_resp buf (after_read end buf next)
  after_read_lem more buf next h n = n refl
  after_read_lem eof buf next h n = (ok buf, refl, h)
  after_read_lem (timed_out cause) buf next h n = elim (Bool-cases (ltb 0 (length buf))) [
    | inl b ↦ (ok buf, rw b refl, h)
    | inr b ↦ (err (step_failed (str "tcp read") cause), rw b refl, ground arith)
  ]
  after_read_lem (broken cause) buf next h n = elim (Bool-cases (is_nil buf)) [
    | inl b ↦ (err (step_failed (str "tcp read") cause), rw b refl, ground arith)
    | inr b ↦ (ok buf, rw b refl, h)
  ]

  grown :
      (i : ℕ) (buf : List ℕ)
      → length buf < max_resp
      → length (buf ++ (conn.read i (room conn max_resp buf)).0) ≤ max_resp
  grown i buf h =
      let k = room conn max_resp buf in
      ground (arith, length-append buf (conn.read i k).0, reader.in_room i k)

  moved :
      (i : ℕ) (buf : List ℕ)
      → length buf < max_resp
      → (conn.read i (room conn max_resp buf)).1 ≡ more
      → length buf < length (buf ++ (conn.read i (room conn max_resp buf)).0)
  moved i buf h m =
      let k = room conn max_resp buf in
      omega (arith, length-append buf (conn.read i k).0, reader.progress i k (ground arith) m)

  read_loop_lem :
      (fuel i : ℕ) (buf : List ℕ)
      → length buf ≤ max_resp
      → max_resp < fuel + length buf
      → Ends max_resp
          (buf ++ (conn.read i (room conn max_resp buf)).0)
          (read_loop conn max_resp fuel i buf)
  unfolding read_loop
  read_loop_lem zero i buf h f = absurd (omega arith)
  read_loop_lem (suc fuel) i buf h f = elim (Bool-cases (ltb (length buf) max_resp)) [
    | inr full ↦ (ok buf, rw full refl, h)
    | inl free ↦
        let lt = ltb→lt (length buf) max_resp free in
        let (chunk, end) = conn.read i (room conn max_resp buf) in
        let new = buf ++ chunk in
        rw free (
          after_read_lem end new _ (grown i buf lt) λ m.
            Ends-shorter max_resp new (new ++ (conn.read (i + 1) (room conn max_resp new)).0) _
              (omega (arith, length-append new (conn.read (i + 1) (room conn max_resp new)).0))
              (read_loop_lem fuel (i + 1) new (grown i buf lt) (omega (arith, moved i buf lt m))))
  ]

pub read_all-Ends :
    (conn : Conn) (max_resp : ℕ)
    → IsReader conn
    → Ends max_resp (conn.read 0 (room conn max_resp [])).0 (read_all conn max_resp)
unfolding read_all
read_all-Ends conn max_resp reader =
    read_loop_lem conn max_resp reader (suc max_resp) 0 [] (omega arith) (omega arith)

-- The bytes of the reads from the i-th on, after those in `buf`: each read is given no more room
-- than the limit leaves, and there is a next one after each without an error, until the limit is
-- reached.
pub data Received (conn : Conn) (max_resp : ℕ) : ℕ → List ℕ → List ℕ → Type 0 where
  full : (i : ℕ) (buf : List ℕ) → max_resp ≤ length buf → Received conn max_resp i buf buf
  stopped :
      (i k : ℕ) (buf out : List ℕ)
      → 0 < k
      → length buf + k ≤ max_resp
      → (conn.read i k).1 ≢ more
      → buf ++ (conn.read i k).0 ≡ out
      → Received conn max_resp i buf out
  more_read :
      (i k : ℕ) (buf out : List ℕ)
      → 0 < k
      → length buf + k ≤ max_resp
      → (conn.read i k).1 ≡ more
      → Received conn max_resp (i + 1) (buf ++ (conn.read i k).0) out
      → Received conn max_resp i buf out

after_read-eq-ok :
    (end : ReadEnd) (buf : List ℕ) (next : Option (Result ExchangeError (List ℕ))) (out : List ℕ)
    → after_read end buf next ≡ some (ok out)
    → ((end ≡ more) × (next ≡ some (ok out))) ⊎ ((end ≢ more) × (buf ≡ out))
after_read-eq-ok more buf next out h = inl (refl, h)
after_read-eq-ok eof buf next out h = inr (λ e. cc e, cc h)
after_read-eq-ok (timed_out cause) buf next out h = elim (Bool-cases (ltb 0 (length buf))) [
  | inl b ↦ inr (λ e. cc e, cc (rw b at h))
  | inr b ↦ absurd (cc (rw b at h))
]
after_read-eq-ok (broken cause) buf next out h = elim (Bool-cases (is_nil buf)) [
  | inl b ↦ absurd (cc (rw b at h))
  | inr b ↦ inr (λ e. cc e, cc (rw b at h))
]

read_loop-Received :
    (conn : Conn) (max_resp fuel i : ℕ) (buf out : List ℕ)
    → read_loop conn max_resp fuel i buf ≡ some (ok out)
    → Received conn max_resp i buf out
unfolding read_loop
read_loop-Received conn max_resp zero i buf out h = absurd (cc h)
read_loop-Received conn max_resp (suc fuel) i buf out h =
    elim (Bool-cases (ltb (length buf) max_resp)) [
      | inr b ↦
          let same : buf ≡ out = cc (rw b at h) in
          subst (Received conn max_resp i buf) same
            (full i buf (ltb_false→le (length buf) max_resp b))
      | inl b ↦
          let lt = ltb→lt (length buf) max_resp b in
          let k = room conn max_resp buf in
          let (chunk, end) = conn.read i k in
          let some_room : 0 < k = ground arith in
          let in_limit : length buf + k ≤ max_resp = ground arith in
          elim (after_read-eq-ok end (buf ++ chunk) _ out (rw b at h)) [
            | inl (e, next) ↦
                more_read i k buf out some_room in_limit e
                  (read_loop-Received conn max_resp fuel (i + 1) (buf ++ chunk) out next)
            | inr (e, same) ↦ stopped i k buf out some_room in_limit e same
          ]
    ]

pub read_all-Received :
    (conn : Conn) (max_resp : ℕ) (out : List ℕ)
    → read_all conn max_resp ≡ some (ok out)
    → Received conn max_resp 0 [] out
unfolding read_all
read_all-Received conn max_resp out h = read_loop-Received conn max_resp (suc max_resp) 0 [] out h
